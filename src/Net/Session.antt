-- ===== src/Net/Session.antt =====
-- NetworkInterface.h: ConnectSession with its states, and session_init, session_reset and the
-- states that listener_cb sets.
use shared_bike_server.Base.{ℕ, List, [], Option, none, replicate, codes}
use shared_bike_server.Events.{Event}

abbrev pub message_header_len : ℕ
message_header_len = 10

abbrev pub message_header_id : List ℕ
message_header_id = codes "BIKE"

abbrev pub max_message_len : ℕ
max_message_len = 367280

pub data SessionStatus : Type 0 where
  ss_request ss_response : SessionStatus

pub data MessageStatus : Type 0 where
  ms_read_header ms_read_message ms_read_done ms_sending : MessageStatus

-- A buffer is `none` while its pointer is null. `bev` is the bufferevent, which the session shares
-- its life with; `remote_ip` is the text before its NUL.
pub record Session : Type 0 where
  pub remote_ip : List ℕ
  pub session_stat : SessionStatus
  pub request : Option Event
  pub req_stat : MessageStatus
  pub response : Option Event
  pub res_stat : MessageStatus
  pub eid : ℕ
  pub fd : ℕ
  pub read_buf : Option (List ℕ)
  pub message_len : ℕ
  pub read_message_len : ℕ
  pub header : List ℕ
  pub read_header_len : ℕ
  pub write_buf : Option (List ℕ)
  pub sent_len : ℕ

-- session_init: all fields zero but the descriptor.
unfoldable pub session_init : ℕ → Session
session_init fd = record {
  remote_ip = [];
  session_stat = ss_request;
  request = none;
  req_stat = ms_read_header;
  response = none;
  res_stat = ms_read_header;
  eid = 0;
  fd = fd;
  read_buf = none;
  message_len = 0;
  read_message_len = 0;
  header = replicate 11 0;
  read_header_len = 0;
  write_buf = none;
  sent_len = 0;
}

-- listener_cb: the session of a client that has connected.
unfoldable pub listener_cb : ℕ → List ℕ → Session
unfolding session_init
listener_cb fd ip = record (session_init fd) {
  session_stat = ss_request;
  req_stat = ms_read_header;
  remote_ip = ip;
}

-- session_reset: both buffers go, and the session waits for the header of the next request. What
-- `response` and `request` point to stays.
unfoldable pub session_reset : Session → Session
session_reset cs = record cs {
  read_buf = none;
  write_buf = none;
  session_stat = ss_request;
  req_stat = ms_read_header;
  message_len = 0;
  read_message_len = 0;
  read_header_len = 0;
}
