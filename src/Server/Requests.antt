-- ===== src/Server/Requests.antt =====
-- The request callback over the pool.
use shared_bike_server.Base.{ℕ, ◌≡◌, refl, List, Option, none, some, ◌^◌, ◌-◌}
use shared_bike_server.Events.{Event, set_args}
use shared_bike_server.Events.Codec.{Codec}
use shared_bike_server.Pool.Locks.{Status, t_ok, t_error}
use shared_bike_server.Pool.Worker.{Pool}
use shared_bike_server.Net.Io.{Bufferevent, Dispatcher}
use shared_bike_server.Net.Session.{Session}
use shared_bike_server.Net.Request.{kept, complete, answered, handle_request}
use shared_bike_server.Dispatch.Parse.{parse_event}
use shared_bike_server.Dispatch.Enqueue.{Calls, enqueue}

-- The counter of sequence numbers and the pool; `none` after undefined behaviour.
abbrev pub Posts : Type 0
Posts = ℕ × Option (Pool Event)

abbrev result_of : Status → ℕ
result_of t_ok = 0
result_of t_error = 2 ^ 32 - 1

abbrev enqueued : ℕ → Option (Status × Pool Event) → ℕ × Posts
enqueued sn none = (0, (sn, none))
enqueued sn (some (status, tp)) = (result_of status, (sn, some tp))

abbrev parsed : Option Event × ℕ → Option (Pool Event) → Option Event × Posts
parsed (ev, sn) tp = (ev, (sn, tp))

abbrev enqueue_in : Calls → Event → ℕ → Option (Pool Event) → ℕ × Posts
enqueue_in c ev sn none = (0, (sn, none))
enqueue_in c ev sn (some tp) = enqueued sn (enqueue c (some ev) tp)

-- DispatchMsgService as the callbacks of the network see it.
abbrev pub dispatch_msg_service : Codec → Calls → Dispatcher Posts
dispatch_msg_service codec c = record {
  parse_event = λ message len eid d. parsed (parse_event codec message len eid d.0) d.1;
  enqueue = λ ev d. enqueue_in c ev d.0 d.1;
}

module _ (codec : Codec) (io : Bufferevent) (c : Calls) where
  -- When a request is complete but its event is not accepted by the pool, nobody is told: the
  -- connection is kept, and its session, which waits for a response to nothing, takes in no byte in
  -- any later callback.
  pub complete-refused :
      (p : ℕ) (cs : Session) (input : List ℕ) (sn sn' : ℕ) (tp tp' : Pool Event) (ev : Event)
      → parse_event codec cs.read_buf cs.read_message_len cs.eid sn ≡ (some ev, sn')
      → enqueue c (some (set_args p ev)) tp ≡ some (t_error, tp')
      → (complete (dispatch_msg_service codec c) p cs input (sn, some tp)
          ≡ kept (answered cs) input (sn', some tp'))
        × ((later : List ℕ) (d : Posts)
            → handle_request io (dispatch_msg_service codec c) p (answered cs) later d
              ≡ kept (answered cs) later d)
  unfolding complete handle_request
  complete-refused p cs input sn sn' tp tp' ev parse refused =
      (rw (parse, refused) refl, λ later d. refl)
