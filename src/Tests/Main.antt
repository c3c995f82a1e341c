-- ===== src/Tests/Main.antt =====
-- The start of the server and a request that the pool refuses.
use shared_bike_server.Base.{ℕ, ◌≡◌, refl, List, [], none, some, arith, true, false, codes}
use shared_bike_server.Base.Int.{pos}
use shared_bike_server.Config.{load_file}
use shared_bike_server.Events.{Event, set_args, mobile_code_req_ev}
use shared_bike_server.Net.Io.{libevent}
use shared_bike_server.Net.Session.{Session, session_init}
use shared_bike_server.Net.Request.{kept, complete, answered, handle_request}
use shared_bike_server.Pool.Locks.{thread_mutex_create}
use shared_bike_server.Pool.Task.{first_slot}
use shared_bike_server.Pool.Worker.{Pool, new_pool, thread_task_alloc, thread_task_post}
use shared_bike_server.Pool.Lifecycle as Lifecycle
use shared_bike_server.Pool.Lifecycle.{Prepared, thread_pool_init, create_threads}
use shared_bike_server.Sql.Tables.{init_tables}
use shared_bike_server.User.Subscription.{user_event_handler}
use shared_bike_server.Dispatch.Enqueue.{Calls, enqueue}
use shared_bike_server.Dispatch.Parse.{parse_event}
use shared_bike_server.Sql.{init}
use shared_bike_server.Server.{Server, main}
use shared_bike_server.Server.Start.{Serves, main-serving, main-serving_without_pool}
use shared_bike_server.Server.Requests.{Posts, dispatch_msg_service, complete-refused}
use shared_bike_server.Tests.{plain, counting, empty_file, unloaded, no_task}

abbrev before : Server ℕ
before = record { config = unloaded; db = 0; subscribers = []; svr_exit = true; tp = none }

abbrev all_fine : Lifecycle.Calls
all_fine = record {
  calloc = true;
  mutexattr_init = 0;
  mutexattr_settype = 0;
  mutex_init = 0;
  mutexattr_destroy = 0;
  cond_init = 0;
  attr_init = 0;
  attr_setdetachstate = 0;
  create = λ n. 0;
}

abbrev first_fails : Lifecycle.Calls
first_fails = record all_fine { create = λ n. 11 }

all_fine-Prepared : Prepared all_fine
unfolding thread_mutex_create
all_fine-Prepared = record { alloc = refl; mutex = refl; cond = refl; attr = refl; detach = refl }

first_fails-Prepared : Prepared first_fails
unfolding thread_mutex_create
first_fails-Prepared = record {
  alloc = refl;
  mutex = refl;
  cond = refl;
  attr = refl;
  detach = refl;
}

main-serving_example :
    Serves empty_file counting (codes "user") (codes "bike") 9 (some (new_pool no_task 0)) (
      main empty_file counting
        (codes "user")
        (codes "bike")
        3
        true
        (codes "a")
        all_fine
        no_task
        9
        before)
unfolding load_file init
main-serving_example =
    main-serving empty_file counting (codes "user") (codes "bike") (codes "a") all_fine no_task 9
      before refl refl all_fine-Prepared refl (λ k h. refl)

main-serving_without_pool_example :
    Serves empty_file counting (codes "user") (codes "bike") 9 none (
      main empty_file counting
        (codes "user")
        (codes "bike")
        3
        true
        (codes "a")
        first_fails
        no_task
        9
        before)
unfolding load_file init
main-serving_without_pool_example =
    main-serving_without_pool empty_file counting (codes "user") (codes "bike") (codes "a")
      first_fails no_task 9 before refl refl first_fails-Prepared refl 0 (omega arith)
      (λ j h. absurd (omega (arith, h))) (λ e. absurd (omega (arith, e)))

-- The server when it has started.
abbrev after : Server ℕ
after = record {
  config = (load_file empty_file (codes "a") unloaded).1;
  db = (init_tables counting (codes "user") (codes "bike") 0).1;
  subscribers = user_event_handler 9 [];
  svr_exit = false;
  tp = some (new_pool no_task 0);
}

abbrev three : ℕ
three = 3

-- The queue is full.
abbrev full : Pool Event
full = record {
  queue = record { first = none; last = first_slot };
  waiting = pos 65535;
  threads = 4;
  max_queue = 65535;
  cells = no_task;
  task_id = 0;
}

abbrev at_eight : Calls
at_eight = record { calloc = some 8; lock = 0; signal = 0 }

-- A request whose two bytes have all been read.
abbrev whole : Session
whole = record (session_init 5) {
  eid = 1;
  read_buf = some (codes "15");
  message_len = 2;
  read_message_len = 2;
}

abbrev request : Event
request = (mobile_code_req_ev (codes "15") 0).0

complete-refused_example :
    (complete (dispatch_msg_service plain at_eight) 7 whole [] (0, some full)
      ≡ kept (answered whole) [] (1, some (thread_task_alloc 8 (set_args 7 request) full)))
    × ((later : List ℕ) (d : Posts)
        → handle_request libevent (dispatch_msg_service plain at_eight) 7 (answered whole) later d
          ≡ kept (answered whole) later d)
unfolding session_init parse_event enqueue thread_task_post thread_task_alloc mobile_code_req_ev
complete-refused_example =
    complete-refused plain libevent at_eight 7 whole [] 0 1 full
      (thread_task_alloc 8 (set_args 7 request) full) request refl refl
