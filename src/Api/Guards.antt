-- ===== src/Api/Guards.antt =====
-- api/platform.go and instrument of api/server.go: what stands before the routes of the API.
use getdata.Base.{
  ℕ, ◌≡◌, ◌≢◌, refl, String, Bool, true, false, ◌&&◌, ◌||◌, not, ◌==◌, if◌then◌else◌, nat_eq, ok,
  arith, Bool-cases, inl, inr, eq_iff, subst,
}
use getdata.Base.Text.{has_prefix}
use getdata.Core.State.{Service, Action, ◌>>=◌, ◌>>◌, pure, modify}
use getdata.Core.State.Preserves.{Preserves, preserve_rules}
use getdata.Core.Sessions.{record_http_request}
use getdata.Core.Soundness.{IsSound}
use getdata.Core.Soundness.Counters.{request-IsSound}
use getdata.Api.{Request, Response, problem}

-- What the guards read of the node: cfg.IsStandby(), and whether there is no installer or it has
-- finished.
pub record Node : Type 0 where
  pub standby : Bool
  pub installed : Bool

-- http.Handler
abbrev pub Handler : Type 0
Handler = Request → Action Response

-- isMutatingMethod
unfoldable pub is_mutating_method : String → Bool
is_mutating_method method =
    method == "POST" || method == "PUT" || method == "PATCH" || method == "DELETE"

-- allowDuringInstall
unfoldable pub allow_during_install : String → Bool
unfolding has_prefix
allow_during_install path =
    path == "/"
    || path == "/install"
    || path == "/runtime-config.js"
    || path == "/healthz"
    || path == "/readyz"
    || path == "/metrics"
    || path == "/api/v1/system/info"
    || path == "/api/v1/install/status"
    || path == "/api/v1/install/bootstrap"
    || path == "/_ha/setup"
    || has_prefix path "/assets/"

-- withInstallGuard
unfoldable pub with_install_guard : Node → Handler → Handler
unfolding allow_during_install
with_install_guard node next r =
    if node.installed
    then next r
    else if allow_during_install r.path
    then next r
    else pure (problem 503)

-- withStandbyGuard
unfoldable pub with_standby_guard : Node → Handler → Handler
unfolding is_mutating_method
with_standby_guard node next r =
    if node.standby
      && is_mutating_method r.method
      && not (r.path == "/_ha/snapshot")
      && not (r.path == "/_ha/setup")
    then pure (problem 503)
    else next r

-- withCORS, without its headers
unfoldable pub with_cors : Handler → Handler
with_cors next r = if r.method == "OPTIONS" then pure (problem 204) else next r

-- A recorder's status is 0 where nothing was written.
abbrev recorded_status : ℕ → ℕ
recorded_status status = if nat_eq status 0 then 200 else status

-- instrument: a handler that fails, as one that panics, is not counted.
unfoldable pub instrument : Handler → Handler
instrument next r = do
  response ← next r
  modify (record_http_request (recorded_status response.status))
  pure response

-- Handler, over the routes
unfoldable pub handler : Node → Handler → Handler
unfolding instrument with_cors with_standby_guard with_install_guard
handler node mux = instrument (with_cors (with_standby_guard node (with_install_guard node mux)))

mutating-options :
    (method : String) → is_mutating_method method ≡ true → (method == "OPTIONS") ≡ false
unfolding is_mutating_method
mutating-options method m = elim (Bool-cases (method == "OPTIONS")) [
  | inl e ↦
      let same : is_mutating_method "OPTIONS" ≡ true =
        subst (λ x. is_mutating_method x ≡ true) ((eq_iff method "OPTIONS").0 e) m in
      ground arith
  | inr e ↦ e
]

-- Whatever the routes are: on a standby node, a request with the method POST, PUT, PATCH or DELETE,
-- and with another path than the two of the replication, is answered with 503, and the service
-- changes by the count of that answer only.
pub handler-standby :
    (node : Node) (mux : Handler) (r : Request) (s : Service)
    → node.standby ≡ true
    → is_mutating_method r.method ≡ true
    → r.path ≢ "/_ha/snapshot"
    → r.path ≢ "/_ha/setup"
    → handler node mux r s ≡ (ok (problem 503), record_http_request 503 s)
unfolding handler with_standby_guard with_cors instrument ◌>>=◌ pure modify
handler-standby node mux r s h m p q =
    let snapshot : (r.path == "/_ha/snapshot") ≡ false =
      ground (arith, eq_iff r.path "/_ha/snapshot") in
    let setup : (r.path == "/_ha/setup") ≡ false = ground (arith, eq_iff r.path "/_ha/setup") in
    rw (mutating-options r.method m, h, m, snapshot, setup) refl

-- Routes that keep the service sound do so behind the guards and the counters.
pub handler-IsSound :
    (node : Node) (mux : Handler) (r : Request)
    → Preserves IsSound (mux r)
    → Preserves IsSound (handler node mux r)
unfolding handler with_standby_guard with_cors instrument with_install_guard
handler-IsSound node mux r h = search (preserve_rules, request-IsSound) depth 16
