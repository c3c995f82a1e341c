-- ===== src/Pool/Worker/Gone.antt =====
-- The threads that have ended.
use shared_bike_server.Base.{ℕ, ◌+◌, ◌≤◌, ◌≡◌, List, [], ◌∷◌, ◌++◌, arith, length}
use shared_bike_server.Pool.Worker.{
  Pool, Worker, exited, lost, Act, enter, wake, finish, exit_thread, moved, cycle,
}

-- A thread that has ended.
abbrev pub gone : Worker → ℕ
gone exited = 1
gone lost = 1
gone _ = 0

abbrev pub all_gone : List Worker → ℕ
all_gone [] = 0
all_gone (w ∷ ws) = gone w + all_gone ws

pub all_gone-middle :
    (ws : List Worker) (w : Worker) (vs : List Worker)
    → all_gone (ws ++ w ∷ vs) ≡ all_gone ws + gone w + all_gone vs
all_gone-middle [] w vs = omega arith
all_gone-middle (u ∷ ws) w vs = omega (arith, all_gone-middle ws w vs)

gone-le : (w : Worker) → gone w ≤ 1
gone-le exited = omega arith
gone-le lost = omega arith
gone-le w = omega arith

pub all_gone-le : (ws : List Worker) → all_gone ws ≤ length ws
all_gone-le [] = omega arith
all_gone-le (w ∷ ws) = omega (arith, all_gone-le ws, gone-le w)

module _ {J : Type 0} where
  pub cycle-gone :
      (act : Act) (w w' : Worker) (p q : Pool J) → cycle act w p ≡ moved w' q → gone w ≤ gone w'
  unfolding cycle
  cycle-gone (enter lock unlock) exited w' p q e = absurd cc
  cycle-gone (wake wait unlock) exited w' p q e = absurd cc
  cycle-gone finish exited w' p q e = absurd cc
  cycle-gone exit_thread exited w' p q e = absurd cc
  cycle-gone (enter lock unlock) lost w' p q e = absurd cc
  cycle-gone (wake wait unlock) lost w' p q e = absurd cc
  cycle-gone finish lost w' p q e = absurd cc
  cycle-gone exit_thread lost w' p q e = absurd cc
  cycle-gone act w w' p q e = omega arith
