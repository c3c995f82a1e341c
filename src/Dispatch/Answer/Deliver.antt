-- ===== src/Dispatch/Answer/Deliver.antt =====
-- What handleAllResponseEvent does for one response.
use shared_bike_server.Base.{
  ℕ, ◌+◌, ◌<◌, ◌^◌, ◌≡◌, refl, ap, ◌∙◌, List, [], ◌∷◌, ◌++◌, arith, length, take-all, add32, leb,
  ◌⊎◌, inl, inr, none, some, true,
}
use shared_bike_server.Events.{Event}
use shared_bike_server.Events.Codes.{
  eeventid_get_moblie_code_rsp, eeventid_exit_rsp, eeventid_login_rsp,
}
use shared_bike_server.Events.Codec.{Codec}
use shared_bike_server.Net.Io.{Bufferevent}
use shared_bike_server.Net.Session.{session_reset, ss_request}
use shared_bike_server.Net.Request.Invariant.{IsValid, received}
use shared_bike_server.Net.Response.{
  Connection, Connections, put, send_response_message, session_reset-IsValid, handle_error,
}
use shared_bike_server.Dispatch.Answer.{
  response_frame, answer, answer_code, handle_all_response_event,
}
use shared_bike_server.Dispatch.Answer.Frame.{response_frame_bytes}

length-response_frame :
    (len : ℕ) (body : List ℕ) → length body ≡ len → length (response_frame len body) ≡ len + 10
length-response_frame len body e = ap length (response_frame_bytes len body e) ∙ omega arith

module _ (codec : Codec) (io : Bufferevent) where
  -- What the session's connection is after a response that was sent.
  abbrev pub sent : Event → Connection → Connection
  sent ev c = record {
    session = session_reset (answer_code codec io ev c.session);
    input = c.input;
    output = c.output ++ response_frame (codec.byte_size ev.msg) (codec.serialize ev.msg);
  }

  send_response_message-answer_code :
      (ev : Event) (p : ℕ) (c : Connection) (conns : Connections)
      → codec.byte_size ev.msg + 10 < 2 ^ 32
      → send_response_message io p (record c { session = answer_code codec io ev c.session }) conns
        ≡ some (put conns p (some (sent ev c)))
  unfolding send_response_message
  send_response_message-answer_code ev p c conns small =
      let frame = response_frame (codec.byte_size ev.msg) (codec.serialize ev.msg) in
      let size =
        length-response_frame (codec.byte_size ev.msg) (codec.serialize ev.msg)
          (codec.length-serialize ev.msg) in
      let total : add32 (codec.byte_size ev.msg) 10 ≡ codec.byte_size ev.msg + 10 = omega arith in
      let fits : leb (codec.byte_size ev.msg + 10) (length frame) ≡ true = ground arith in
      rw (total, fits, io.write_lem, take-all (codec.byte_size ev.msg + 10) frame (omega arith))
        refl

  -- A response to a request for a code, shorter than 4 GB with its header, whose session is there
  -- with the eleven bytes for its header, goes out: exactly its header and its body are added to
  -- the output of the client, and its session is reset and waits for the next request, of which it
  -- has read nothing. The other clients and the input are not touched.
  pub answer-mobile_code_rsp :
      (ev : Event) (p : ℕ) (c : Connection) (conns : Connections)
      → ev.eid ≡ eeventid_get_moblie_code_rsp
      → ev.args ≡ some p
      → conns p ≡ some c
      → length c.session.header ≡ 11
      → codec.byte_size ev.msg + 10 < 2 ^ 32
      → (answer codec io ev conns ≡ some (put conns p (some (sent ev c))))
        × IsValid (sent ev c).session
        × (received (sent ev c).session ≡ [])
        × ((sent ev c).session.session_stat ≡ ss_request)
  unfolding answer
  answer-mobile_code_rsp ev p c conns kind at there size small =
      let run = send_response_message-answer_code ev p c conns small in
      let (valid, empty, ready) = session_reset-IsValid (answer_code codec io ev c.session) size in
      (ground (arith, kind, at, there, run), valid, empty, ready)

  -- The response to a request whose session was freed by handle_error while it was worked on is
  -- written through the freed session: the behaviour is undefined.
  pub answer-handle_error :
      (ev : Event) (p : ℕ) (conns : Connections)
      → (ev.eid ≡ eeventid_get_moblie_code_rsp) ⊎ (ev.eid ≡ eeventid_exit_rsp)
      → ev.args ≡ some p
      → answer codec io ev (handle_error p conns) ≡ none
  unfolding answer handle_error
  answer-handle_error ev p conns (inl kind) at = ground (arith, kind, at)
  answer-handle_error ev p conns (inr kind) at = ground (arith, kind, at)

  -- An exit response does not close the connection of a session without a buffer to send: the null
  -- buffer is written, and the behaviour is undefined.
  pub answer-exit_rsp :
      (ev : Event) (p : ℕ) (c : Connection) (conns : Connections)
      → ev.eid ≡ eeventid_exit_rsp
      → ev.args ≡ some p
      → conns p ≡ some c
      → c.session.write_buf ≡ none
      → answer codec io ev conns ≡ none
  unfolding answer send_response_message
  answer-exit_rsp ev p c conns kind at there null = ground (arith, kind, at, there, null)

  abbrev pub AreLoginRsp : List Event → Type 0
  AreLoginRsp [] = Unit
  AreLoginRsp (ev ∷ evs) = (ev.eid ≡ eeventid_login_rsp) × AreLoginRsp evs

  -- Responses to login requests are taken from the queue, however many, and nothing is sent: every
  -- connection is as before.
  pub handle_all_response_event-login_rsp :
      (evs : List Event) (conns : Connections)
      → AreLoginRsp evs
      → handle_all_response_event codec io evs conns ≡ some conns
  unfolding handle_all_response_event answer
  handle_all_response_event-login_rsp [] conns h = refl
  handle_all_response_event-login_rsp (ev ∷ evs) conns (kind, h) =
      rw (kind) (handle_all_response_event-login_rsp evs conns h)
