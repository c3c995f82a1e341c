-- ===== src/Client/Connect.antt =====
-- client.cpp: connect_server and main.
use shared_bike_server.Base.{
  Bool, false, ℕ, List, [], ◌∷◌, Option, none, some, ◌==◌, ltb, if◌then◌else◌,
}
use shared_bike_server.Base.Int.{ℤ, pos, negsuc}

-- What inet_aton returns; the descriptor of socket; and the errno of connect, `none` if it
-- succeeds. close may set errno too.
pub record Calls : Type 0 where
  pub inet_aton : ℕ
  pub socket : Option ℕ
  pub socket_errno : ℕ
  pub connect : Option ℕ
  pub close_errno : ℕ → ℕ

-- The result, errno, and the descriptors that were closed.
pub record Connected : Type 0 where
  pub result : ℤ
  pub errno : ℕ
  pub closed : List ℕ

abbrev pub einval : ℕ
einval = 22

-- Behind socket(): errno is saved around close.
abbrev connected : ℕ → ℕ → Option ℕ → (ℕ → ℕ) → Connected
connected errno fd none close_errno = record { result = pos fd; errno = errno; closed = [] }
connected errno fd (some e) close_errno =
    let save_errno = e in
    let after_close = close_errno e in
    let restored = save_errno in record { result = negsuc 0; errno = restored; closed = fd ∷ [] }

abbrev opened : ℕ → Calls → Option ℕ → Connected
opened errno c none = record { result = negsuc 0; errno = c.socket_errno; closed = [] }
opened errno c (some fd) = connected errno fd c.connect c.close_errno

unfoldable pub connect_server : ℕ → Calls → Connected
connect_server errno c =
    if c.inet_aton == 0
    then record { result = negsuc 0; errno = einval; closed = [] }
    else opened errno c c.socket

-- main: what it returns, `none` for while the events are dispatched; afterwards it returns 0.
abbrev is_minus_one : ℤ → Bool
is_minus_one (pos n) = false
is_minus_one (negsuc n) = n == 0

unfoldable pub main : ℕ → ℕ → Calls → Option ℤ
main argc errno c =
    if ltb argc 3
    then some (negsuc 0)
    else if is_minus_one (connect_server errno c).result
    then some (negsuc 0)
    else none
