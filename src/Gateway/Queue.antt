-- ===== src/Gateway/Queue.antt =====
-- gateway/server.go, the session of a connection: its queue of outgoing messages and its writer. Bytes
-- are I/O: a message whose write fails may have reached the connection in part.
use getdata.Base.{
  ℕ, ◌≤◌, ◌≡◌, refl, String, Bool, true, false, Option, none, some, List, [], ◌∷◌, ◌++◌, length,
  length-append, ltb, arith, if◌then◌else◌,
}
use mathlib.Core.List.{append_assoc}
use getdata.Base.Words.{ℤ, is_pos, to_ℕ}
use getdata.Model.{ServerMessage}

pub record ClientSession : Type 0 where
  pub queue : List ServerMessage
  pub capacity : ℕ
  pub closed : Bool

unfoldable pub new_client_session : ℤ → ClientSession
new_client_session queue_size = record {
  queue = [];
  capacity = if is_pos queue_size then to_ℕ queue_size else 128;
  closed = false;
}

-- The error's text, if the message was not taken.
unfoldable pub send : ServerMessage → ClientSession → Option String × ClientSession
send message c =
    if c.closed
    then (some "use of closed network connection", c)
    else if ltb (length c.queue) c.capacity
    then (none, record c { queue = c.queue ++ (message ∷ []) })
    else (some "session queue is full", c)

unfoldable pub close : ClientSession → ClientSession
close c = record c { closed = true }

-- What runWriter finds in a turn of its loop: the context has ended, the session is closed, or the
-- oldest message, with the error of writeMessage if it fails. Where several are there, any of them may
-- be chosen.
pub data Choice : Type 0 where
  ended : Choice
  noticed : Choice
  oldest : Option String → Choice

-- The session and its writer: the messages that the session took, and of those the ones that were
-- written as a whole and the one that failed.
pub record Trace : Type 0 where
  pub session : ClientSession
  pub running : Bool
  pub taken : List ServerMessage
  pub written : List ServerMessage
  pub failed : List ServerMessage

abbrev wrote : ServerMessage → Option String → Trace → Trace
wrote m none t = record t { written = t.written ++ (m ∷ []) }
wrote m (some _) t = record t {
  failed = t.failed ++ (m ∷ []);
  session = close t.session;
  running = false;
}

abbrev take_oldest : Option String → List ServerMessage → Trace → Trace
take_oldest failure [] t = t
take_oldest failure (m ∷ rest) t =
    wrote m failure (record t { session = record t.session { queue = rest } })

-- A choice that is not there leaves the writer waiting.
abbrev chosen : Choice → Trace → Trace
chosen ended t = record t { session = close t.session; running = false }
chosen noticed t = if t.session.closed then record t { running = false } else t
chosen (oldest failure) t = take_oldest failure t.session.queue t

-- A turn of runWriter, which does nothing any more once it has returned.
unfoldable pub run_writer : Choice → Trace → Trace
unfolding close
run_writer choice t = if t.running then chosen choice t else t

-- What happens to a session, in order.
pub data Event : Type 0 where
  sending : ServerMessage → Event
  writing : Choice → Event
  closing : Event

abbrev note_sent : ServerMessage → Option String × ClientSession → Trace → Trace
note_sent m (none, c) t = record t { session = c; taken = t.taken ++ (m ∷ []) }
note_sent m (some _, c) t = record t { session = c }

unfoldable pub happen : Event → Trace → Trace
unfolding send run_writer close
happen (sending m) t = note_sent m (send m t.session) t
happen (writing choice) t = run_writer choice t
happen closing t = record t { session = close t.session }

unfoldable pub happen_all : List Event → Trace → Trace
unfolding happen
happen_all [] t = t
happen_all (e ∷ es) t = happen_all es (happen e t)

-- Of the messages taken, the ones written come first, then the one that failed, if any, then those in
-- the queue, within its bound. A writer that has failed has ended, and one that has ended has closed
-- the session.
pub record IsQueued (t : Trace) : Type 0 where
  pub in_order : t.taken ≡ t.written ++ (t.failed ++ t.session.queue)
  pub bounded : length t.session.queue ≤ t.session.capacity
  pub one_failed : length t.failed ≤ 1
  pub failed_last : t.running ≡ true → t.failed ≡ []
  pub ended_closed : t.running ≡ false → t.session.closed ≡ true

take_oldest-IsQueued :
    (failure : Option String) (t : Trace) (queue : List ServerMessage)
    → t.session.queue ≡ queue
    → t.running ≡ true
    → IsQueued t
    → IsQueued (take_oldest failure queue t)
unfolding close
take_oldest-IsQueued failure t [] e r p = p
take_oldest-IsQueued none t (m ∷ rest) e r p = record {
  in_order =
      rw (p.failed_last r)
        (cc (p.in_order, e, p.failed_last r, append_assoc t.written (m ∷ []) rest));
  bounded = ground (arith, p.bounded, e);
  one_failed = p.one_failed;
  failed_last = p.failed_last;
  ended_closed = p.ended_closed;
}
take_oldest-IsQueued (some _) t (m ∷ rest) e r p = record {
  in_order = rw (p.failed_last r) (cc (p.in_order, e, p.failed_last r));
  bounded = ground (arith, p.bounded, e);
  one_failed = rw (p.failed_last r) (omega arith);
  failed_last = λ h. ground arith;
  ended_closed = λ h. refl;
}

ended-IsQueued :
    (t : Trace) → IsQueued t → IsQueued (record t { session = close t.session; running = false })
unfolding close
ended-IsQueued t p = record {
  in_order = p.in_order;
  bounded = p.bounded;
  one_failed = p.one_failed;
  failed_last = λ h. ground arith;
  ended_closed = λ h. refl;
}

noticed-IsQueued :
    (t : Trace) → t.session.closed ≡ true → IsQueued t → IsQueued (record t { running = false })
noticed-IsQueued t c p = record {
  in_order = p.in_order;
  bounded = p.bounded;
  one_failed = p.one_failed;
  failed_last = λ h. ground arith;
  ended_closed = λ h. c;
}

by_test :
    {A : Type 0} (P : A → Type 0) (b : Bool) (x y : A)
    → (b ≡ true → P x)
    → (b ≡ false → P y)
    → P (if b then x else y)
by_test P true x y left right = left refl
by_test P false x y left right = right refl

chosen-IsQueued :
    (choice : Choice) (t : Trace) → t.running ≡ true → IsQueued t → IsQueued (chosen choice t)
chosen-IsQueued ended t r p = ended-IsQueued t p
chosen-IsQueued noticed t r p =
    by_test IsQueued t.session.closed _ t (λ c. noticed-IsQueued t c p) (λ c. p)
chosen-IsQueued (oldest failure) t r p = take_oldest-IsQueued failure t t.session.queue refl r p

run_writer-IsQueued : (choice : Choice) (t : Trace) → IsQueued t → IsQueued (run_writer choice t)
unfolding run_writer
run_writer-IsQueued choice t p =
    by_test IsQueued t.running _ t (λ r. chosen-IsQueued choice t r p) (λ r. p)

accepted-IsQueued :
    (m : ServerMessage) (t : Trace)
    → ltb (length t.session.queue) t.session.capacity ≡ true
    → IsQueued t
    → IsQueued (note_sent m (none, record t.session { queue = t.session.queue ++ (m ∷ []) }) t)
accepted-IsQueued m t b p = record {
  in_order = rw p.in_order (
      cc (
        append_assoc t.written (t.failed ++ t.session.queue) (m ∷ []),
        append_assoc t.failed t.session.queue (m ∷ []),
      ));
  bounded = ground (arith, b, length-append t.session.queue (m ∷ []));
  one_failed = p.one_failed;
  failed_last = p.failed_last;
  ended_closed = p.ended_closed;
}

sent-IsQueued :
    (m : ServerMessage) (t : Trace) → IsQueued t → IsQueued (note_sent m (send m t.session) t)
unfolding send
sent-IsQueued m t p =
    by_test (λ x. IsQueued (note_sent m x t)) t.session.closed _ _ (λ c. p)
      λ c.
        by_test (λ x. IsQueued (note_sent m x t)) (ltb (length t.session.queue) t.session.capacity)
          _ _ (λ b. accepted-IsQueued m t b p) (λ b. p)

happen-IsQueued : (e : Event) (t : Trace) → IsQueued t → IsQueued (happen e t)
unfolding happen close
happen-IsQueued (sending m) t p = sent-IsQueued m t p
happen-IsQueued (writing choice) t p = run_writer-IsQueued choice t p
happen-IsQueued closing t p = record {
  in_order = p.in_order;
  bounded = p.bounded;
  one_failed = p.one_failed;
  failed_last = p.failed_last;
  ended_closed = λ h. refl;
}

happen_all-IsQueued : (es : List Event) (t : Trace) → IsQueued t → IsQueued (happen_all es t)
unfolding happen_all
happen_all-IsQueued [] t p = p
happen_all-IsQueued (e ∷ es) t p = happen_all-IsQueued es (happen e t) (happen-IsQueued e t p)

abbrev pub start : ClientSession → Trace
start c = record { session = c; running = true; taken = []; written = []; failed = [] }

-- Whatever is sent, written and closed, in what order, and whichever write fails: the messages that
-- the session took are, in the order they were sent, the ones written, then at most one whose write
-- failed, then those in the queue, which is never longer than its capacity. After a failed write the
-- writer has ended, and a session whose writer has ended is closed.
pub queue-IsQueued :
    (es : List Event) (queue_size : ℤ)
    → IsQueued (happen_all es (start (new_client_session queue_size)))
unfolding new_client_session
queue-IsQueued es queue_size =
    happen_all-IsQueued es (start (new_client_session queue_size)) record {
      in_order = refl;
      bounded = omega arith;
      one_failed = omega arith;
      failed_last = λ h. refl;
      ended_closed = λ h. ground arith;
    }
