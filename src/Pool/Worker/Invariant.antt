-- ===== src/Pool/Worker/Invariant.antt =====
-- What holds of the pool and its workers between two steps, for the queue's addresses xs.
use shared_bike_server.Base.{
  ℕ, ◌+◌, ◌≤◌, ◌≡◌, List, [], ◌∷◌, ◌++◌, none, arith, ◌==◌, ◌≢◌, if◌then◌else◌, length,
}
use shared_bike_server.Base.Int.{pos_part, neg_part}
use shared_bike_server.Pool.Task.{job_at}
use shared_bike_server.Pool.Chain.{QueueIs, occ}
use shared_bike_server.Pool.Worker.{Pool, Worker, at_top, blocked, running, lost}

-- A worker whose `waiting--` is not yet made good by a task.
abbrev pub sleeps : Worker → ℕ
sleeps blocked = 1
sleeps lost = 1
sleeps _ = 0

abbrev pub holds : ℕ → Worker → ℕ
holds a (running b) = if a == b then 1 else 0
holds a _ = 0

abbrev pub sleepers : List Worker → ℕ
sleepers [] = 0
sleepers (w ∷ ws) = sleeps w + sleepers ws

abbrev pub held : ℕ → List Worker → ℕ
held a [] = 0
held a (w ∷ ws) = holds a w + held a ws

pub sleepers-middle :
    (ws : List Worker) (w : Worker) (vs : List Worker)
    → sleepers (ws ++ w ∷ vs) ≡ sleepers ws + sleeps w + sleepers vs
sleepers-middle [] w vs = omega arith
sleepers-middle (u ∷ ws) w vs = omega (arith, sleepers-middle ws w vs)

pub held-middle :
    (a : ℕ) (ws : List Worker) (w : Worker) (vs : List Worker)
    → held a (ws ++ w ∷ vs) ≡ held a ws + holds a w + held a vs
held-middle a [] w vs = omega arith
held-middle a (u ∷ ws) w vs = omega (arith, held-middle a ws w vs)

sleeps-le : (w : Worker) → sleeps w ≤ 1
sleeps-le at_top = omega arith
sleeps-le w = omega arith

pub sleepers-le-length : (ws : List Worker) → sleepers ws ≤ length ws
sleepers-le-length [] = omega arith
sleepers-le-length (w ∷ ws) = omega (arith, sleepers-le-length ws, sleeps-le w)

module _ {J : Type 0} where
  -- The list in memory holds xs. `waiting` is the number of queued tasks less that of the sleeping
  -- workers. Each task is queued or in the hands of one worker, never both or twice, and a task in
  -- a worker's hands is live.
  pub record Inv (ws : List Worker) (p : Pool J) (xs : List ℕ) : Type 0 where
    pub queued : QueueIs (p.queue, p.cells) xs
    pub counted : pos_part p.waiting + sleepers ws ≡ neg_part p.waiting + length xs
    pub owned : (a : ℕ) → occ a xs + held a ws ≤ 1
    pub live : (a : ℕ) → 1 ≤ held a ws → job_at p.cells a ≢ none
    pub bounded : length xs ≤ p.max_queue + sleepers ws
