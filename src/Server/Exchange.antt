-- ===== src/Server/Exchange.antt =====
-- From the client's button to the event in the server.
use shared_bike_server.Base.{
  ℕ, ◌+◌, ◌≤◌, ◌<◌, ◌^◌, ◌≡◌, refl, List, [], some, arith, length, take-all,
}
use shared_bike_server.Events.{mobile_request, login_request, mobile_code_req_ev, login_req_ev}
use shared_bike_server.Events.Codec.{Codec}
use shared_bike_server.Protobuf.Instance.{Library, protobuf, parse-serialize}
use shared_bike_server.Net.Request.Deframe.{frame, deframe}
use shared_bike_server.Dispatch.Parse.{parse_event}
use shared_bike_server.Client.{own_mobile, send_mr, send_lr}
use shared_bike_server.Client.Requests.{deframe-request_bytes}

module _ (library : Library) where
  abbrev codec : Codec
  codec = protobuf library

  -- What the client writes for "send_lr" is one request for the server, and the event that it makes
  -- of it is the login of the client's number with the client's code; if the message has at least
  -- one byte and fits into the client's buffer of 1024 bytes, whatever was in there, and the code
  -- has 32 bits.
  pub send_lr-parse_event :
      (msg : List ℕ) (icode sn : ℕ)
      → length msg ≡ 1024
      → icode < 2 ^ 32
      → 1 ≤ codec.byte_size (login_request own_mobile icode)
      → codec.byte_size (login_request own_mobile icode) + 10 ≤ 1024
      → (body : List ℕ) × (deframe (send_lr codec msg icode) ≡ frame 3 body [])
        × (parse_event codec (some body) (length body) 3 sn
            ≡ (some (login_req_ev own_mobile icode sn).0, (login_req_ev own_mobile icode sn).1))
  unfolding send_lr parse_event
  send_lr-parse_event msg icode sn size small some_ fits =
      let m = login_request own_mobile icode in
      let body = codec.serialize m in
      let (mr, lr) = parse-serialize library own_mobile icode (omega arith) small in
      (
        body,
        deframe-request_bytes msg 3 (codec.byte_size m) body size (codec.length-serialize m) some_
            fits (omega arith),
        rw (take-all (length body) body (omega arith), lr) refl,
      )

  -- The same for "send_mr": the event is the request of a code for the client's number.
  pub send_mr-parse_event :
      (msg : List ℕ) (sn : ℕ)
      → length msg ≡ 1024
      → 1 ≤ codec.byte_size (mobile_request own_mobile)
      → codec.byte_size (mobile_request own_mobile) + 10 ≤ 1024
      → (body : List ℕ) × (deframe (send_mr codec msg) ≡ frame 1 body [])
        × (parse_event codec (some body) (length body) 1 sn
            ≡ (some (mobile_code_req_ev own_mobile sn).0, (mobile_code_req_ev own_mobile sn).1))
  unfolding send_mr parse_event
  send_mr-parse_event msg sn size some_ fits =
      let m = mobile_request own_mobile in
      let body = codec.serialize m in
      let (mr, lr) = parse-serialize library own_mobile 0 (omega arith) (omega arith) in
      (
        body,
        deframe-request_bytes msg 1 (codec.byte_size m) body size (codec.length-serialize m) some_
            fits (omega arith),
        rw (take-all (length body) body (omega arith), mr) refl,
      )
