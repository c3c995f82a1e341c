-- ===== src/Net/Response.antt =====
-- NetworkInterface.cpp, the other direction: send_response_message, and handle_error with
-- session_free.
use shared_bike_server.Base.{
  ℕ, ◌≡◌, refl, List, [], Option, none, some, arith, leb, ◌==◌, if◌then◌else◌, length, take, add32,
}
use shared_bike_server.Events.{Event}
use shared_bike_server.Net.Io.{Bufferevent}
use shared_bike_server.Net.Session.{Session, message_header_len, session_reset, ss_request}
use shared_bike_server.Net.Request.Invariant.{IsValid, received}

-- A connected client: its session and the two ends of its bufferevent.
pub record Connection : Type 0 where
  pub session : Session
  pub input : List ℕ
  pub output : List ℕ

-- The connections by the address of their session. The session and the bufferevent are freed
-- together, so `none` is an address of which nothing is left.
abbrev pub Connections : Type 0
Connections = ℕ → Option Connection

abbrev pub put : Connections → ℕ → Option Connection → Connections
put conns p c q = if p == q then c else conns q

-- handle_error, whatever the condition that it logs, and session_free: both go.
unfoldable pub handle_error : ℕ → Connections → Connections
handle_error p conns = put conns p none

-- `bufferevent_write(bev, write_buf, size)`: undefined for a null buffer and past its end.
abbrev pub write_out : Bufferevent → Connection → Option (List ℕ) → ℕ → Option Connection
write_out io c none n = none
write_out io c (some buf) n =
    if leb n (length buf) then some (record c { output = io.write c.output (take n buf) }) else none

abbrev reset : Option Connection → Option Connection
reset none = none
reset (some c) = some (record c { session = session_reset c.session })

abbrev store : Connections → ℕ → Option Connection → Option Connections
store conns p none = none
store conns p (some c) = some (put conns p (some c))

abbrev respond : Bufferevent → ℕ → Connection → Connections → Option Event → Option Connections
respond io p c conns none = some (put conns p none)
respond io p c conns (some ev) =
    store conns p
      (reset (write_out io c c.session.write_buf (add32 c.session.message_len message_header_len)))

-- send_response_message for the session at address p: `none` is undefined behaviour.
unfoldable pub send_response_message :
    Bufferevent → ℕ → Connection → Connections → Option Connections
send_response_message io p c conns = respond io p c conns c.session.response

-- A session that was reset waits for a request, of which it has read nothing.
pub session_reset-IsValid :
    (cs : Session)
    → length cs.header ≡ 11
    → IsValid (session_reset cs)
      × (received (session_reset cs) ≡ [])
      × ((session_reset cs).session_stat ≡ ss_request)
unfolding session_reset
session_reset-IsValid cs size =
    (record { size = size; partial = omega arith; no_buf = refl }, refl, refl)
