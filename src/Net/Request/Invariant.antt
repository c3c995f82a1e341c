-- ===== src/Net/Request/Invariant.antt =====
-- What holds of a session between two callbacks, and the bytes that it has taken in.
use shared_bike_server.Base.{
  ℕ, ◌≤◌, ◌<◌, ◌≡◌, refl, true, List, [], ◌++◌, Option, none, some, arith, length, take, load16,
  load32, strncmp_eq,
}
use shared_bike_server.Net.Session.{
  Session, SessionStatus, ss_request, ss_response, MessageStatus, ms_read_header, ms_read_message,
  ms_read_done, ms_sending, message_header_len, message_header_id, max_message_len, listener_cb,
}

-- While the header is read: not complete, and no buffer for a message.
pub record InHeader (cs : Session) : Type 0 where
  pub size : length cs.header ≡ 11
  pub partial : cs.read_header_len < message_header_len
  pub no_buf : cs.read_buf ≡ none

-- While the message is read: the header is a valid one and its fields are decoded; the buffer has
-- the announced size, and at least one byte of it is still to come.
pub record InMessage (cs : Session) (buf : List ℕ) : Type 0 where
  pub size : length cs.header ≡ 11
  pub whole : cs.read_header_len ≡ message_header_len
  pub magic : strncmp_eq cs.header message_header_id 4 ≡ true
  pub event : cs.eid ≡ load16 cs.header 4
  pub len : cs.message_len ≡ load32 cs.header 6
  pub bounded : cs.message_len ≤ max_message_len
  pub buf_is : cs.read_buf ≡ some buf
  pub allocated : length buf ≡ cs.message_len
  pub partial : cs.read_message_len < cs.message_len

-- While the response is awaited: the buffer of the message is gone.
pub record InResponse (cs : Session) : Type 0 where
  pub size : length cs.header ≡ 11
  pub no_buf : cs.read_buf ≡ none

abbrev pub InRequest : MessageStatus → Session → Type 0
InRequest ms_read_header cs = InHeader cs
InRequest ms_read_message cs = (buf : List ℕ) × InMessage cs buf
InRequest ms_read_done cs = ⊥
InRequest ms_sending cs = ⊥

abbrev pub Stage : SessionStatus → MessageStatus → Session → Type 0
Stage ss_request stat cs = InRequest stat cs
Stage ss_response stat cs = InResponse cs

pub Stage-InHeader :
    (cs : Session) {a : SessionStatus} {b : MessageStatus}
    → a ≡ ss_request
    → b ≡ ms_read_header
    → InHeader cs
    → Stage a b cs
Stage-InHeader cs ea eb v = rw (ea, eb) v

pub Stage-InMessage :
    (cs : Session) {a : SessionStatus} {b : MessageStatus} {buf : List ℕ}
    → a ≡ ss_request
    → b ≡ ms_read_message
    → InMessage cs buf
    → Stage a b cs
Stage-InMessage cs {buf} ea eb v = rw (ea, eb) (buf, v)

abbrev pub IsValid : Session → Type 0
IsValid cs = Stage cs.session_stat cs.req_stat cs

abbrev pub content : Option (List ℕ) → List ℕ
content none = []
content (some buf) = buf

-- The bytes of the current request that were read so far.
abbrev pub received : Session → List ℕ
received cs = take cs.read_header_len cs.header ++ take cs.read_message_len (content cs.read_buf)

-- A client that has connected starts with a valid session that has read nothing.
pub listener_cb-IsValid :
    (fd : ℕ) (ip : List ℕ) → IsValid (listener_cb fd ip) × (received (listener_cb fd ip) ≡ [])
unfolding listener_cb
listener_cb-IsValid fd ip = (record { size = refl; partial = omega arith; no_buf = refl }, refl)
