-- ===== src/Dispatch/Answer.antt =====
-- DispatchMsgService::handleAllResponseEvent: the queued responses go out to the clients.
pub mod Frame
pub mod Deliver
use shared_bike_server.Base.{
  ℕ, ◌+◌, ◌≡◌, List, [], ◌∷◌, ◌++◌, Option, none, some, ◌==◌, if◌then◌else◌, replicate, blit,
  store16, store32, codes, length,
}
use shared_bike_server.Events.{Event, Message}
use shared_bike_server.Events.Codes.{eeventid_get_moblie_code_rsp, eeventid_exit_rsp}
use shared_bike_server.Events.Codec.{Codec}
use shared_bike_server.Net.Io.{Bufferevent}
use shared_bike_server.Net.Session.{Session, message_header_len}
use shared_bike_server.Net.Response.{Connection, Connections, send_response_message}

-- `sizeof(MESSAGE_HEADER_ID)` counts the NUL of the literal, which is copied too.
abbrev pub message_head_len : ℕ
message_head_len = 5

-- Lines 237 to 246: the header and the serialised message in the new buffer.
unfoldable pub response_frame : ℕ → List ℕ → List ℕ
response_frame len body =
    let buf = replicate (len + message_header_len) 0 in
    let magic = blit buf 0 (codes "BIKE" ++ 0 ∷ []) in
    let event = store16 magic message_head_len eeventid_get_moblie_code_rsp in
    blit (store32 event 6 len) message_header_len body

module _ (codec : Codec) (io : Bufferevent) where
  -- The session with its response: lines 233 to 246.
  abbrev pub answer_code : Event → Session → Session
  answer_code ev cs =
      let len = codec.byte_size ev.msg in
      record cs {
        response = some ev;
        message_len = len;
        write_buf = some (response_frame len (codec.serialize ev.msg));
      }

  abbrev pub answer_exit : Event → Session → Session
  answer_exit ev cs = record cs { response = some ev }

  -- What is done through `ev->get_args()`; a null or dangling session is undefined behaviour.
  abbrev through : (Session → Session) → Option ℕ → Connections → Option Connections
  through f none conns = none
  through f (some p) conns = elim (conns p) [
    | none ↦ none
    | some c ↦ send_response_message io p (record c { session = f c.session }) conns
  ]

  -- Lines 227 to 255.
  unfoldable pub answer : Event → Connections → Option Connections
  answer ev conns =
      if ev.eid == eeventid_get_moblie_code_rsp
      then through (answer_code ev) ev.args conns
      else if ev.eid == eeventid_exit_rsp
      then through (answer_exit ev) ev.args conns
      else some conns

  abbrev and_others : (Connections → Option Connections) → Option Connections → Option Connections
  and_others rest none = none
  and_others rest (some conns) = rest conns

  -- The loop over response_events, which is empty afterwards.
  unfoldable pub handle_all_response_event : List Event → Connections → Option Connections
  handle_all_response_event [] conns = some conns
  handle_all_response_event (ev ∷ evs) conns =
      and_others (λ c. handle_all_response_event evs c) (answer ev conns)
