-- ===== src/Lib.antt =====
-- The IoT platform: devices connect, report telemetry and take commands; rules raise alerts, send
-- commands and apply configurations; campaigns bring firmware to many devices.
--
-- The parts of the program, and the files that model them
--
-- - Model: the records of internal/model (types.go, access.go, protocol.go), field by field, and the
--   dynamic values of `any` (Model/Values) with float64 written out as integers over 2 ^ 1074.
-- - Store: the memory store, internal/store/memory (memory.go, tenant_ota.go, snapshot.go). Store has
--   its state; Store/Clone the copies that go in and out; Store/Catalog the eight tables with their
--   Create, Get, Save and List; Store/Groups the two membership maps; Store/Records the telemetry,
--   shadows, commands and alerts; Store/Snapshot the snapshot and its restoration. Store/Table says
--   what a table promises and Store/Sorting how lists are ordered.
-- - Core: the service, internal/core (service.go, automation.go, multitenant_ota.go). Core/State has
--   its state, what it reads from outside, and the monad of its operations; Core/Sessions the sessions
--   of devices; Core/Values and Core/Values/Validate the comparison and validation of values;
--   Core/Normalize the normalisers; Core/Shadows shadows and config profiles; Core/Commands commands
--   and their acknowledgement; Core/Rules the rules; Core/Telemetry reports; Core/Alerts alerts;
--   Core/Members groups; Core/Ota campaigns; Core/Provision every Create operation. Core/Soundness and
--   the files below it carry the invariant of the service through each of them, and Core/Runs puts
--   them together as runs. An operation has the source's name in snake case; a Create operation is
--   `add_…` where the store's operation has the name `create_…`, RemoveDeviceFromGroup of the service
--   is `unassign_device_from_group`, GetShadow `get_device_shadow`, and CreateOTACampaign
--   `create_campaign`. Core/Views and Core/Views/Listing have the views of records and their listings
--   by tenant, as reads of the state; Core/Catalog and Model/Catalog the protocol catalogue and the
--   defaults that it has for each protocol.
-- - FileStore: the store on a file, internal/store/file/store.go. FileStore has its state and the calls
--   of the file system, each of which may fail; FileStore/Persist load, persist, mutate and
--   ApplyReplicaSnapshot; FileStore/Operations every operation of the store. FileStore/Triples has the
--   rules by which FileStore/Write, Outcome, Reload, Replica and Succeeds follow the calls.
-- - Ingest: from a payload to its time and its values, internal/ingest/resolver.go.
-- - Mqtt: internal/mqtt/server.go. Mqtt/Topics has the topics of a device and the match of filters,
--   Mqtt/Hooks the hooks that the broker calls, as events on the bindings and the service.
-- - Gateway: a device's TCP connection, internal/gateway/server.go. Gateway is handleConnection as a
--   loop over decoded lines on the state of the service; Gateway/Queue the queue of a session and its
--   writer, turn by turn.
-- - Api: the HTTP API, internal/api. Api/Ingest is telemetry over HTTP (ingest.go), Api/Devices the
--   handlers of devices (server.go), Api/Guards what stands before every route (platform.go, and
--   instrument and Handler of server.go); Api/Routes puts them together, with the other routes and
--   what ServeMux answers itself as parameters; Api/Answers is about the answer to a command.
-- - Examples: tests, and each theorem at concrete data.
--
-- The gateway, the MQTT server and the HTTP API call the service (authentication, sessions, telemetry,
-- acknowledgements), the two latter through the ingest resolver; the service calls the store, and a
-- session's Send for commands. The service is modelled over the memory store, and the file store wraps
-- that store's operations.
--
-- How the code is modelled
--
-- A Go map is an association list (Base/Dict) and ranging over it takes its order; nil and empty maps
-- and slices are one value, as the modelled code treats both alike. A time is its nanoseconds since the
-- year 1, so that Go's zero time is 0. Counters of `int` and `int64` are 64-bit patterns with their
-- wrap-around (Base/Words); numbers that are only compared or scaled are signed integers. Texts are
-- sequences of code points, and lower case is that of ASCII and of the two other letters with a lower
-- case in ASCII. An error is its sentinel, or its text where it has none (Base/Results); formatted
-- additions to a sentinel are dropped, since callers only ask which sentinel it is. Several loops
-- collect errors of one kind from several tests; where the tests give the same sentinel they may be
-- joined.
--
-- An operation is a function of the state of the service that returns a result and a new state, also
-- when it fails: what was written before stays written. The clock, the random bytes, the answers of
-- sessions and `fmt.Sprintf("%v", …)` are the fields of `Env`, numbered by reading and otherwise
-- arbitrary, so the theorems hold for every behaviour of theirs. The mutexes and atomic counters of
-- the code make its critical sections single steps; the model runs whole operations one after the
-- other, so it does not say what two interleaved operations do. Loops run over lists and end with
-- them; nothing runs on fuel. Logging and contexts are left out.
--
-- What is not modelled
--
-- The pages of the HTTP API, its other handlers and the decoding of its bodies, the statistics of the
-- service, the simulator, the application's wiring and configuration, the commands and the firmware.
-- Of the gateway: the accept loop, the table of
-- connections, deadlines, the decoding of JSON and the writing of bytes. Of the MQTT server: the
-- broker, a library, whose calls of the hooks are taken in any order. Of the file store: the JSON form
-- of a snapshot, which is a parameter with the hypothesis, where it is needed, that it decodes to what
-- was encoded. Of the ingest resolver: strconv.ParseFloat, the parsing of RFC 3339 and what Go leaves
-- to the machine are parameters.
pub mod Base
pub mod Model
pub mod Store
pub mod Core
pub mod Ingest
pub mod Mqtt
pub mod Api
pub mod FileStore
pub mod Gateway
mod Examples
