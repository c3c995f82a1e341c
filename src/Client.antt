-- ===== src/Client.antt =====
-- client/client.cpp: the test client, which sends the two requests and reads the responses.
pub mod Requests
pub mod Responses
pub mod Commands
pub mod Connect
use shared_bike_server.Base.{
  ℕ, ◌+◌, List, [], ◌∷◌, Option, none, some, ◌==◌, if◌then◌else◌, replicate, blit, store16, store32,
  load16, load32, codes, take, drop, strncmp_eq, length,
}
use shared_bike_server.Events.{Message, mobile_request, login_request}
use shared_bike_server.Events.Codec.{Codec}

-- The fixed number of the client.
abbrev pub own_mobile : List ℕ
own_mobile = codes "15007819636"

-- Lines 91 to 99 and 107 to 114: what is written to the socket for an event id, in a buffer of
-- 1024 bytes whose old content is `msg`.
unfoldable pub request_bytes : List ℕ → ℕ → ℕ → List ℕ → List ℕ
request_bytes msg eid len body =
    let magic = blit msg 0 (codes "BIKE") in
    let event = store16 magic 4 eid in take (len + 10) (blit (store32 event 6 len) 10 body)

-- What the client makes of what it has read.
pub data Seen : Type 0 where
  mobile_response : Option (ℕ × ℕ × List ℕ) → Seen
  login_response : Option (ℕ × List ℕ) → Seen
  nothing : Seen

module _ (codec : Codec) where
  -- "send_mr" and "send_lr"; `icode` is the code of the last response.
  unfoldable pub send_mr : List ℕ → List ℕ
  send_mr msg =
      let mr = mobile_request own_mobile in
      request_bytes msg 1 (codec.byte_size mr) (codec.serialize mr)

  unfoldable pub send_lr : List ℕ → ℕ → List ℕ
  send_lr msg icode =
      let lr = login_request own_mobile icode in
      request_bytes msg 3 (codec.byte_size lr) (codec.serialize lr)

  -- socket_read_data, for the bytes of one read.
  unfoldable pub socket_read_data : List ℕ → Seen
  socket_read_data msg =
      if strncmp_eq msg (codes "BIKE") 4
      then (let len = load32 msg 6 in
          if load16 msg 4 == 2
          then mobile_response (codec.parse_mobile_response (take len (drop 10 msg)))
          else if load16 msg 4 == 4
          then login_response (codec.parse_login_response (take len (drop 10 msg)))
          else nothing)
      else nothing
