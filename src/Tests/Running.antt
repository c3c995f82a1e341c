-- ===== src/Tests/Running.antt =====
-- The running server with one client, which asks for a code.
use shared_bike_server.Base.{
  ℕ, ◌≡◌, ◌⊎◌, refl, List, [], ◌∷◌, ◌++◌, Option, none, some, arith, codes,
}
use shared_bike_server.Base.Int.{◌-ℤ◌}
use shared_bike_server.Events.{
  Event, mobile_request, mobile_response, mobile_code_req_ev, mobile_code_rsp_ev,
}
use shared_bike_server.Events.Codes.{get_reason_by_error_code}
use shared_bike_server.Net.Io.{libevent}
use shared_bike_server.Net.Session.{listener_cb, ss_response}
use shared_bike_server.Net.Request.{
  handle_request, read_header, accept_header, read_message, complete,
}
use shared_bike_server.Net.Response.{Connection, Connections}
use shared_bike_server.Pool.Task.{job_at, push, pop, write_last}
use shared_bike_server.Pool.Worker.{
  Pool, at_top, running, enter, finish, Moved, moved, cycle, thread_task_post, thread_task_alloc,
  wait_or_take, new_pool,
}
use shared_bike_server.Dispatch.Subscribers.{Subscribers, find_eid}
use shared_bike_server.Dispatch.Parse.{parse_event}
use shared_bike_server.Dispatch.Enqueue.{Calls, enqueue}
use shared_bike_server.Dispatch.Process.{Service, svc, process, call_all}
use shared_bike_server.Dispatch.Answer.{handle_all_response_event}
use shared_bike_server.User.Handler.{Users, handle, handle_mobile_code_req, code_gen}
use shared_bike_server.Server.Login.{user_handle}
use shared_bike_server.Server.Run.{
  Running, Reach, here, next, accept, arrive, request, work, serve, accepted, arrived, requested,
  worked, served,
}
use shared_bike_server.Server.Run.Pending.{pending}
use shared_bike_server.Server.Run.Invariant.{begun}
use shared_bike_server.Server.Run.Deliver.{after_all}
use shared_bike_server.Server.Run.Safety.{SmallCodes, Reach-one_request, Reach-delivered}
use shared_bike_server.Tests.{plain, counting, default_config}

abbrev handlers : Subscribers
handlers = (1, 9 ∷ []) ∷ (3, 9 ∷ []) ∷ []

abbrev nobody : Users ℕ
nobody = record { m2c = []; db = 0 }

abbrev start : Running ℕ
start = begun 0 handlers nobody

abbrev or_start : Option (Running ℕ) → Running ℕ
or_start none = start
or_start (some s) = s

abbrev fresh : Connection
fresh = record { session = listener_cb 5 (codes "127.0.0.1"); input = []; output = [] }

abbrev connected : Running ℕ
connected = accepted 7 5 (codes "127.0.0.1") start

-- A request for the code of the number 15.
abbrev one_request : List ℕ
one_request = codes "BIKE" ++ 1 ∷ 0 ∷ 2 ∷ 0 ∷ 0 ∷ 0 ∷ 49 ∷ 53 ∷ []

abbrev written : Running ℕ
written = arrived 7 fresh one_request connected

abbrev calls : Calls
calls = record { calloc = some 8; lock = 0; signal = 0 }

abbrev asking : Connection
asking = record fresh { input = one_request }

abbrev asked : Running ℕ
asked = or_start (requested plain libevent calls 7 asking written)

abbrev pool_after : Moved Event → Pool Event
pool_after (moved w p) = p
pool_after _ = new_pool (λ a. none) 0

abbrev taken : Running ℕ
taken =
    worked (running 8 ∷ at_top ∷ at_top ∷ at_top ∷ [])
      (pool_after (cycle (enter 0 0) at_top asked.tp)) asked

abbrev or_idle : Option (Service (Users ℕ)) → Service (Users ℕ)
or_idle none = start.service
or_idle (some s) = s

-- The request as an event.
abbrev ask : Event
ask = record { eid = 1; sn = 1; args = some 7; msg = mobile_request (49 ∷ 53 ∷ []) }

abbrev done : Running ℕ
done =
    served (at_top ∷ at_top ∷ at_top ∷ at_top ∷ []) (pool_after (cycle finish (running 8) taken.tp))
      (or_idle (svc (user_handle counting default_config 4711) ask taken.service)) taken

asked_it : Reach counting default_config plain libevent start asked
unfolding accepted arrived requested listener_cb handle_request read_header accept_header
    read_message complete parse_event mobile_code_req_ev enqueue thread_task_alloc thread_task_post
    push write_last new_pool
asked_it =
    next {t = written}
      (next {t = connected} (next {t = start} here (accept 7 5 (codes "127.0.0.1") refl refl))
        (arrive 7 fresh one_request refl refl))
      (request calls 8 7 asking refl refl refl refl)

taken_it : Reach counting default_config plain libevent start taken
unfolding accepted arrived requested listener_cb handle_request read_header accept_header
    read_message complete parse_event mobile_code_req_ev enqueue thread_task_alloc thread_task_post
    push write_last new_pool worked cycle wait_or_take pop ◌-ℤ◌
taken_it = next {t = asked} asked_it (
    work [] (at_top ∷ at_top ∷ at_top ∷ []) at_top (running 8) (enter 0 0) taken.tp tt refl refl
      refl)

served_it : Reach counting default_config plain libevent start done
unfolding accepted arrived requested listener_cb handle_request read_header accept_header
    read_message complete parse_event mobile_code_req_ev enqueue thread_task_alloc thread_task_post
    push write_last new_pool worked cycle wait_or_take pop ◌-ℤ◌ served svc process call_all find_eid
    handle handle_mobile_code_req mobile_code_rsp_ev code_gen
served_it = next {t = taken} taken_it (
    serve [] (at_top ∷ at_top ∷ at_top ∷ []) 8 4711 ask done.tp done.service refl refl refl refl
      refl)

-- Its response, with the code 104711.
abbrev answer : Event
answer = record {
  eid = 2;
  sn = 2;
  args = some 7;
  msg = mobile_response 200 104711 (get_reason_by_error_code 200);
}

small_codes : SmallCodes plain
unfolding get_reason_by_error_code
small_codes icode = omega arith

Reach-delivered_example :
    (conns' : Connections) × (handle_all_response_event plain libevent done.service.response_events
        done.conns
      ≡ some conns')
    × ((p : ℕ) → conns' p ≡ after_all plain libevent done.service.response_events p (done.conns p))
unfolding find_eid
Reach-delivered_example =
    Reach-delivered counting default_config plain libevent small_codes 9 0 handlers nobody refl refl
      served_it

Reach-one_request_example :
    (pending 7 (job_at taken.tp.cells) [] taken.threads taken.service.response_events ≡ 0)
    ⊎ ((pending 7 (job_at taken.tp.cells) [] taken.threads taken.service.response_events ≡ 1)
        × ((c : Connection) × (taken.conns 7 ≡ some c) × (c.session.session_stat ≡ ss_response)))
unfolding accepted arrived requested listener_cb handle_request read_header accept_header
    read_message complete parse_event mobile_code_req_ev enqueue thread_task_alloc thread_task_post
    push write_last new_pool worked cycle wait_or_take pop ◌-ℤ◌ find_eid
Reach-one_request_example =
    Reach-one_request counting default_config plain libevent small_codes 9 0 handlers nobody refl
      refl taken_it [] 7 (record { chain = refl; last_is = refl; distinct = λ a. omega arith })
