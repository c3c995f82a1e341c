-- ===== src/Tests/Network.antt =====
-- The request callback, the framing and the client at concrete bytes.
use shared_bike_server.Base.{
  ℕ, suc, ◌≡◌, refl, List, [], ◌∷◌, ◌++◌, none, some, codes, arith, load16, replicate,
}
use shared_bike_server.Events.{mobile_request}
use shared_bike_server.Net.Io.{Dispatcher, libevent}
use shared_bike_server.Net.Session.{Session, listener_cb}
use shared_bike_server.Net.Request.{kept, handle_request}
use shared_bike_server.Net.Request.Invariant.{received, listener_cb-IsValid}
use shared_bike_server.Net.Request.Deframe.{frame, deframe}
use shared_bike_server.Net.Request.Body.{Refines}
use shared_bike_server.Net.Request.Refinement.{handle_request-Refines}
use shared_bike_server.Net.Request.Stream.{concat, arrivals, chunks-Refines}
use shared_bike_server.Dispatch.Answer.{response_frame}
use shared_bike_server.Client.{request_bytes, socket_read_data, nothing}
use shared_bike_server.Client.Requests.{deframe-request_bytes}
use shared_bike_server.Client.Responses.{socket_read_data-response_frame}
use shared_bike_server.Tests.{plain}

-- A dispatcher that keeps the bodies and the number of posted events.
abbrev keeping : Dispatcher (List ℕ × ℕ)
keeping = record {
  parse_event = λ message len eid d. elim message [
    | none ↦ (none, d)
    | some body ↦
        (some (record { eid = eid; sn = 0; args = none; msg = mobile_request body }), (body, d.1))
  ];
  enqueue = λ ev d. (0, (d.0, suc d.1));
}

abbrev fresh : Session
fresh = listener_cb 5 (codes "127.0.0.1")

abbrev one_request : List ℕ
one_request = codes "BIKE" ++ 1 ∷ 0 ∷ 2 ∷ 0 ∷ 0 ∷ 0 ∷ 49 ∷ 53 ∷ []

handle_request-Refines_example :
    Refines keeping 7
      (received fresh ++ one_request)
      ([], 0)
      (handle_request libevent keeping 7 fresh one_request ([], 0))
      (deframe (received fresh ++ one_request))
unfolding listener_cb
handle_request-Refines_example =
    handle_request-Refines libevent keeping 7 fresh one_request ([], 0) refl
      (listener_cb-IsValid 5 (codes "127.0.0.1")).0

chunks-Refines_example :
    Refines keeping 7
      (received fresh ++ concat (codes "BI" ∷ codes "KE" ∷ one_request ∷ []))
      ([], 0)
      (arrivals libevent keeping 7
        (kept fresh [] ([], 0))
        (codes "BI" ∷ codes "KE" ∷ one_request ∷ []))
      (deframe (received fresh ++ concat (codes "BI" ∷ codes "KE" ∷ one_request ∷ [])))
unfolding listener_cb
chunks-Refines_example =
    chunks-Refines libevent keeping 7 fresh (codes "BI") (codes "KE" ∷ one_request ∷ []) ([], 0)
      refl (listener_cb-IsValid 5 (codes "127.0.0.1")).0

deframe-request_bytes_example :
    deframe (request_bytes (replicate 1024 0) 3 2 (codes "15")) ≡ frame 3 (codes "15") []
deframe-request_bytes_example =
    deframe-request_bytes (replicate 1024 0) 3 2 (codes "15") refl refl (omega arith) (omega arith)
      (omega arith)

socket_read_data-response_frame_example :
    (load16 (response_frame 3 (codes "Ok.")) 4 ≡ 512)
    × (socket_read_data plain (response_frame 3 (codes "Ok.")) ≡ nothing)
socket_read_data-response_frame_example = socket_read_data-response_frame plain 3 (codes "Ok.") refl
