-- ===== src/Tests/Dispatching.antt =====
-- The dispatch service at concrete subscribers, events and connections.
use shared_bike_server.Base.{
  ℕ, ◌+◌, ◌≡◌, ◌⊎◌, inl, refl, [], ◌∷◌, ◌++◌, Option, none, some, arith, false, ◌==◌, if◌then◌else◌,
  codes,
}
use shared_bike_server.Events.{Event, mobile_response, no_message}
use shared_bike_server.Net.Io.{libevent}
use shared_bike_server.Net.Session.{listener_cb}
use shared_bike_server.Net.Response.{Connection, Connections, handle_error}
use shared_bike_server.Pool.Locks.{Status, is_ok}
use shared_bike_server.Pool.Task.{job_at, first_slot}
use shared_bike_server.Base.Int.{pos}
use shared_bike_server.Pool.Worker.{Pool, at_top}
use shared_bike_server.Pool.Worker.Invariant.{Inv}
use shared_bike_server.Dispatch.Subscribers.{Subscribers, has_handler, subscribe, find_eid}
use shared_bike_server.Dispatch.Process.{
  Handle, Service, process, and_rest, svc, process-subscribe, svc-responds, call_all,
}
use shared_bike_server.Dispatch.Enqueue.{Calls, enqueue, enqueue-Posted}
use shared_bike_server.Dispatch.Answer.{answer}
use shared_bike_server.Dispatch.Answer.Deliver.{answer-handle_error, answer-exit_rsp}
use shared_bike_server.Tests.{plain, login, no_task}

-- Handler 9 is subscribed to event 3.
abbrev one : Subscribers
one = (3, 9 ∷ []) ∷ []

-- A handler that counts its calls and gives no response.
abbrev count : Handle ℕ
count h ev (sn, w) = some (none, (sn, w + 1))

process-subscribe_example :
    process count (subscribe 3 4 one) login (0, 0)
    ≡ and_rest count (λ r. count 4 login r.1) (process count one login (0, 0))
unfolding find_eid has_handler
process-subscribe_example = process-subscribe count one login 4 (0, 0) (omega arith) refl

abbrev service : Service ℕ
service = record { subscribers = one; svr_exit = false; response_events = []; sn = 0; world = 0 }

abbrev nothing : Option Event
nothing = none

svc-responds_example :
    (s' : Service ℕ) × (r : Event) × (svc count login service ≡ some s')
    × (s'.response_events ≡ [] ++ r ∷ [])
    × (r.args ≡ some 7)
    × (s'.world ≡ 1)
    × (s'.subscribers ≡ one)
    × ((nothing ≡ none) × (r.eid ≡ 0xfe)
        ⊎ ((given : Event) × (nothing ≡ some given) × (r.eid ≡ given.eid) × (r.msg ≡ given.msg)))
unfolding process call_all find_eid
svc-responds_example = svc-responds count login service nothing 0 1 refl refl

-- A pool of one worker that calloc gives address 8.
abbrev idle : Pool Event
idle = record {
  queue = record { first = none; last = first_slot };
  waiting = pos 0;
  threads = 4;
  max_queue = 65535;
  cells = no_task;
  task_id = 0;
}

idle-Inv : Inv (at_top ∷ []) idle []
idle-Inv = record {
  queued = record { chain = refl; last_is = refl; distinct = λ a. omega arith };
  counted = refl;
  owned = λ a. omega arith;
  live = λ a h. absurd (omega arith);
  bounded = omega arith;
}

abbrev at_eight : Calls
at_eight = record { calloc = some 8; lock = 0; signal = 0 }

enqueue-Posted_example :
    (r : Status × Pool Event) × (enqueue at_eight (some login) idle ≡ some r)
    × Inv (at_top ∷ []) r.1 (if is_ok r.0 then [] ++ 8 ∷ [] else [])
    × (job_at r.1.cells 8 ≡ some login)
enqueue-Posted_example = enqueue-Posted at_eight login (at_top ∷ []) idle [] 8 idle-Inv refl refl

abbrev client : Connection
client = record { session = listener_cb 5 (codes "127.0.0.1"); input = []; output = [] }

abbrev conns : Connections
conns p = if p == 7 then some client else none

abbrev code_rsp : Event
code_rsp = record { eid = 2; sn = 1; args = some 7; msg = mobile_response 200 123456 (codes "Ok.") }

answer-handle_error_example : answer plain libevent code_rsp (handle_error 7 conns) ≡ none
answer-handle_error_example = answer-handle_error plain libevent code_rsp 7 conns (inl refl) refl

abbrev exit_rsp : Event
exit_rsp = record { eid = 0xfe; sn = 1; args = some 7; msg = no_message }

answer-exit_rsp_example : answer plain libevent exit_rsp conns ≡ none
unfolding listener_cb
answer-exit_rsp_example = answer-exit_rsp plain libevent exit_rsp 7 client conns refl refl refl refl

abbrev login_event : Event
login_event = record { eid = 4; sn = 1; args = some 7; msg = no_message }
