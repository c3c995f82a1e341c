-- ===== src/Net/Request.antt =====
-- NetworkInterface::handle_request, the callback for bytes that have arrived.
pub mod Deframe
pub mod Invariant
pub mod Header
pub mod Body
pub mod Refinement
pub mod Stream
use shared_bike_server.Base.{
  ℕ, Bool, true, false, ◌&&◌, ◌||◌, List, [], ◌∷◌, Option, none, some, ltb, ◌==◌, if◌then◌else◌,
  length, replicate, blit, load16, load32, strncmp_eq, add32, sub32,
}
use shared_bike_server.Events.{Event, set_args}
use shared_bike_server.Net.Io.{Bufferevent, Dispatcher}
use shared_bike_server.Net.Session.{
  Session, SessionStatus, ss_request, ss_response, MessageStatus, ms_read_header, ms_read_message,
  message_header_len, message_header_id, max_message_len,
}

-- What the callback leaves: a session with the input that it has not read, a session that was
-- freed together with its bufferevent, or undefined behaviour (a write through a null buffer).
pub data Handled (D : Type 0) : Type 0 where
  kept : Session → List ℕ → D → Handled D
  closed : D → Handled D
  fault : Handled D

abbrev pub is_reading_header : MessageStatus → Bool
is_reading_header ms_read_header = true
is_reading_header _ = false

abbrev pub is_reading_message : MessageStatus → Bool
is_reading_message ms_read_message = true
is_reading_message _ = false

abbrev pub wrong_length : ℕ → Bool
wrong_length len = ltb len 1 || ltb max_message_len len

-- A complete header: `none` where the request is invalid.
unfoldable pub accept_header : Session → Option Session
accept_header cs =
    if strncmp_eq cs.header message_header_id 4
    then (let len = load32 cs.header 6 in
        if wrong_length len
        then none
        else some (record cs {
          eid = load16 cs.header 4;
          message_len = len;
          read_buf = some (replicate len 0);
          req_stat = ms_read_message;
          read_message_len = 0;
        }))
    else none

abbrev pub with_input : Option Session → List ℕ → Option (Session × List ℕ)
with_input none input = none
with_input (some cs) input = some (cs, input)

-- The header's bytes go into `header` behind those that are there, with a NUL behind them.
abbrev pub put_header : Session → List ℕ → Session
put_header cs got =
    let n = add32 cs.read_header_len (length got) in
    record cs {
      header = blit (blit cs.header cs.read_header_len got) n (0 ∷ []);
      read_header_len = n;
    }

-- Lines 162 to 203: the session and the input for what follows, or `none` after a close.
unfoldable pub read_header : Bufferevent → Session → List ℕ → Option (Session × List ℕ)
read_header io cs input =
    if is_reading_header cs.req_stat
    then (let (got, rest) = io.read (sub32 message_header_len cs.read_header_len) input in
        let cs' = put_header cs got in
        if cs'.read_header_len == message_header_len
        then with_input (accept_header cs') rest
        else some (cs', rest))
    else some (cs, input)

abbrev pub put_message : Session → List ℕ → List ℕ → Session
put_message cs buf got = record cs {
  read_buf = some (blit buf cs.read_message_len got);
  read_message_len = add32 cs.read_message_len (length got);
}

abbrev pub answered : Session → Session
answered cs = record cs { session_stat = ss_response; read_buf = none; read_message_len = 0 }

module _ {D : Type 0} (dispatcher : Dispatcher D) where
  -- An event is posted with the session for its argument; the result of `enqueue` is not read.
  abbrev pub post : ℕ → Session → List ℕ → Option Event × D → Handled D
  post p cs input (none, d) = closed d
  post p cs input (some ev, d) = kept cs input (dispatcher.enqueue (set_args p ev) d).1

  -- Lines 214 to 233: the message is complete.
  unfoldable pub complete : ℕ → Session → List ℕ → D → Handled D
  complete p cs input d =
      post p (answered cs) input (dispatcher.parse_event cs.read_buf cs.read_message_len cs.eid d)

  abbrev pub read_into : ℕ → Session → List ℕ → List ℕ × List ℕ → D → Handled D
  read_into p cs buf (got, rest) d =
      let cs' = put_message cs buf got in
      if cs'.message_len == cs'.read_message_len then complete p cs' rest d else kept cs' rest d

module _ (io : Bufferevent) {D : Type 0} (dispatcher : Dispatcher D) where
  -- Lines 206 to 235.
  unfoldable pub read_message : ℕ → Session → List ℕ → D → Handled D
  read_message p cs input d =
      if is_reading_message cs.req_stat && ltb 0 (io.get_length input)
      then elim cs.read_buf [
        | none ↦ fault
        | some buf ↦
            read_into dispatcher p cs buf (io.read (sub32 cs.message_len cs.read_message_len) input)
              d
      ]
      else kept cs input d

  abbrev pub and_message : ℕ → Option (Session × List ℕ) → D → Handled D
  and_message p none d = closed d
  and_message p (some (cs, input)) d = read_message p cs input d

  abbrev pub by_status : SessionStatus → ℕ → Session → List ℕ → D → Handled D
  by_status ss_response p cs input d = kept cs input d
  by_status ss_request p cs input d = and_message p (read_header io cs input) d

  -- The session at address p, with what the bufferevent has received.
  unfoldable pub handle_request : ℕ → Session → List ℕ → D → Handled D
  handle_request p cs input d = by_status cs.session_stat p cs input d
