-- ===== src/Net/Request/Deframe.antt =====
-- The protocol of NetworkInterface.cpp, lines 141 to 150, as a function of all bytes that a client
-- has sent since its last request was answered: what the request callback has to do, told without
-- buffers, counters and states.
use shared_bike_server.Base.{
  false, ℕ, ◌≤◌, ◌≡◌, List, ltb, if◌then◌else◌, length, take, drop, load16, load32, load16-take,
  load32-take, strncmp_eq, strncmp_eq-take-take, arith,
}
use shared_bike_server.Net.Session.{message_header_len, message_header_id}
use shared_bike_server.Net.Request.{wrong_length}

-- Too few bytes yet; no request of this protocol; or the event id and the body of a request, and
-- the bytes behind it.
pub data Verdict : Type 0 where
  more : Verdict
  invalid : Verdict
  frame : ℕ → List ℕ → List ℕ → Verdict

-- The header h of a request, and the bytes behind it.
abbrev pub deframe_body : List ℕ → List ℕ → Verdict
deframe_body h s =
    let len = load32 h 6 in
    if strncmp_eq h message_header_id 4
    then (if wrong_length len
        then invalid
        else if ltb (length s) len
        then more
        else frame (load16 h 4) (take len s) (drop len s))
    else invalid

unfoldable pub deframe : List ℕ → Verdict
deframe s =
    if ltb (length s) message_header_len
    then more
    else deframe_body (take message_header_len s) (drop message_header_len s)

-- Only the first ten bytes of the array that holds the header matter.
deframe_body-take : (h t : List ℕ) → deframe_body (take message_header_len h) t ≡ deframe_body h t
deframe_body-take h t =
    rw (load32-take h, load16-take h, strncmp_eq-take-take 10 4 h message_header_id (omega arith))

pub deframe-eq-deframe_body :
    (s h t : List ℕ)
    → message_header_len ≤ length s
    → take message_header_len s ≡ take message_header_len h
    → drop message_header_len s ≡ t
    → deframe s ≡ deframe_body h t
unfolding deframe
deframe-eq-deframe_body s h t enough same_header same_rest =
    let long : ltb (length s) message_header_len ≡ false = ground arith in
    rw (long, same_header, same_rest) (deframe_body-take h t)
