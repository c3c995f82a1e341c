-- ===== src/Tests/Draining.antt =====
-- The pool with one task, until all its workers wait.
use shared_bike_server.Base.{ℕ, [], ◌∷◌, Option, none, some}
use shared_bike_server.Pool.Locks.{Status}
use shared_bike_server.Pool.Worker.{
  Pool, Worker, at_top, blocked, running, enter, finish, Moved, moved, cycle, thread_task_post,
  thread_task_alloc, new_pool,
}
use shared_bike_server.Pool.Worker.Reach.{System, Reach}
use shared_bike_server.Pool.Worker.Drain.{Turn}
use shared_bike_server.Tests.{no_task}

abbrev posted : Option (Status × Pool ℕ) → Pool ℕ
posted none = new_pool no_task 0
posted (some (status, p)) = p

abbrev with_task : Pool ℕ
with_task = posted (thread_task_post 0 0 8 (thread_task_alloc 8 42 (new_pool no_task 0)))

abbrev pool_after : Moved ℕ → Pool ℕ
pool_after (moved w p) = p
pool_after _ = with_task

abbrev taken : Pool ℕ
taken = pool_after (cycle (enter 0 0) at_top with_task)

abbrev finished : Pool ℕ
finished = pool_after (cycle finish (running 8) taken)

abbrev entered : Pool ℕ → Pool ℕ
entered p = pool_after (cycle (enter 0 0) at_top p)

abbrev one_task : System ℕ
one_task = (at_top ∷ at_top ∷ at_top ∷ at_top ∷ [], with_task)

abbrev all_wait : System ℕ
all_wait =
    (blocked ∷ blocked ∷ blocked ∷ blocked ∷ [], entered (entered (entered (entered finished))))
