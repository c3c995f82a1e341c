-- ===== src/Server/Run.antt =====
-- The server while it runs: what the main thread does in network_event_dispatch (main.cpp, lines 94
-- to 101) between the turns of the workers. libevent calls listener_cb, handle_request and
-- handle_error, and behind its loop handleAllResponseEvent sends what the workers have queued.
pub mod Pending
pub mod Invariant
pub mod Request
pub mod Work
pub mod Deliver
pub mod Safety
pub mod Liveness
use shared_bike_server.Base.{ℕ, ◌≡◌, ◌⊎◌, List, [], ◌∷◌, ◌++◌, Option, none, some}
use shared_bike_server.Config.{EnvConfig}
use shared_bike_server.Sql.{Mysql}
use shared_bike_server.Events.{Event}
use shared_bike_server.Events.Codec.{Codec}
use shared_bike_server.Net.Io.{Bufferevent}
use shared_bike_server.Net.Session.{listener_cb, ss_request}
use shared_bike_server.Net.Request.{Handled, kept, closed, fault, handle_request}
use shared_bike_server.Net.Response.{Connection, Connections, put, handle_error}
use shared_bike_server.Pool.Task.{job_at}
use shared_bike_server.Pool.Worker.{
  Pool, Worker, at_top, running, Act, enter, wake, finish, moved, cycle,
}
use shared_bike_server.Dispatch.Enqueue.{Calls}
use shared_bike_server.Dispatch.Process.{Service, svc}
use shared_bike_server.Dispatch.Answer.{handle_all_response_event}
use shared_bike_server.User.Handler.{Users}
use shared_bike_server.Server.Requests.{Posts, dispatch_msg_service}
use shared_bike_server.Server.Login.{user_handle}

-- The clients, the pool with its workers, and DispatchMsgService with the state of the handlers.
pub record Running (S : Type 0) : Type 0 where
  pub conns : Connections
  pub threads : List Worker
  pub tp : Pool Event
  pub service : Service (Users S)

module _ {S : Type 0} where
  -- listener_cb with what libevent keeps of the new client.
  unfoldable pub accepted : ℕ → ℕ → List ℕ → Running S → Running S
  accepted p fd ip s = record s {
    conns = put s.conns p (some (record { session = listener_cb fd ip; input = []; output = [] }));
  }

  -- Bytes that arrive at the bufferevent of a client.
  unfoldable pub arrived : ℕ → Connection → List ℕ → Running S → Running S
  arrived p c bytes s = record s {
    conns = put s.conns p (some (record c { input = c.input ++ bytes }));
  }

  unfoldable pub hung_up : ℕ → Running S → Running S
  hung_up p s = record s { conns = handle_error p s.conns }

  abbrev pub posted : Running S → Connections → Posts → Option (Running S)
  posted s conns (sn, none) = none
  posted s conns (sn, some tp) =
      some (record s { conns = conns; tp = tp; service = record s.service { sn = sn } })

  abbrev pub handled : ℕ → Connection → Running S → Handled Posts → Option (Running S)
  handled p c s (kept cs input d) =
      posted s (put s.conns p (some (record c { session = cs; input = input }))) d
  handled p c s (closed d) = posted s (put s.conns p none) d
  handled p c s fault = none

  -- A turn of a worker outside of the handler of its task.
  unfoldable pub worked : List Worker → Pool Event → Running S → Running S
  worked threads tp s = record s { threads = threads; tp = tp }

  -- A worker has run svc on the event of its task, and has freed the task.
  unfoldable pub served : List Worker → Pool Event → Service (Users S) → Running S → Running S
  served threads tp service s = record s { threads = threads; tp = tp; service = service }

  -- handleAllResponseEvent leaves the queue of responses empty.
  unfoldable pub delivered : Connections → Running S → Running S
  delivered conns s = record s {
    conns = conns;
    service = record s.service { response_events = [] };
  }

-- A turn that does not end a handler.
abbrev pub IsLoop : Act → Type 0
IsLoop (enter lock unlock) = Unit {0}
IsLoop (wake wait unlock) = Unit
IsLoop _ = ⊥

module _ {S : Type 0} (codec : Codec) (io : Bufferevent) where
  -- handle_request for the client at address p: `none` is undefined behaviour.
  unfoldable pub requested : Calls → ℕ → Connection → Running S → Option (Running S)
  requested calls p c s = handled p c s (
      handle_request io (dispatch_msg_service codec calls) p c.session c.input
        (s.service.sn, some s.tp))

module _ {S : Type 0} (mysql : Mysql S) (conf : EnvConfig) (codec : Codec) (io : Bufferevent) where
  -- One step, as long as no client hangs up (or is timed out) while its session is in SS_RESPONSE. A
  -- new session is in memory that no other session has, and a task in memory that was not in use.
  pub data Step (s u : Running S) : Type 0 where
    accept : (p fd : ℕ) (ip : List ℕ) → s.conns p ≡ none → u ≡ accepted p fd ip s → Step s u
    arrive :
        (p : ℕ) (c : Connection) (bytes : List ℕ)
        → s.conns p ≡ some c
        → u ≡ arrived p c bytes s
        → Step s u
    hang_up :
        (p : ℕ) (c : Connection)
        → s.conns p ≡ some c
        → c.session.session_stat ≡ ss_request
        → u ≡ hung_up p s
        → Step s u
    request :
        (calls : Calls) (a p : ℕ) (c : Connection)
        → s.conns p ≡ some c
        → calls.calloc ≡ some a
        → s.tp.cells a ≡ none
        → requested codec io calls p c s ≡ some u
        → Step s u
    work :
        (ws vs : List Worker) (w w' : Worker) (act : Act) (tp : Pool Event)
        → IsLoop act
        → s.threads ≡ ws ++ w ∷ vs
        → cycle act w s.tp ≡ moved w' tp
        → u ≡ worked (ws ++ w' ∷ vs) tp s
        → Step s u
    serve :
        (ws vs : List Worker) (a r : ℕ) (ev : Event) (tp : Pool Event) (service : Service (Users S))
        → s.threads ≡ ws ++ running a ∷ vs
        → job_at s.tp.cells a ≡ some ev
        → svc (user_handle mysql conf r) ev s.service ≡ some service
        → cycle finish (running a) s.tp ≡ moved at_top tp
        → u ≡ served (ws ++ at_top ∷ vs) tp service s
        → Step s u
    deliver :
        (conns : Connections)
        → handle_all_response_event codec io s.service.response_events s.conns ≡ some conns
        → u ≡ delivered conns s
        → Step s u

  pub data Reach (s : Running S) : Running S → Type 0 where
    here : Reach s s
    next : {t u : Running S} → Reach s t → Step t u → Reach s u
