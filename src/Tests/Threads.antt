-- ===== src/Tests/Threads.antt =====
-- The pool at concrete states.
use shared_bike_server.Base.{
  ℕ, ◌≡◌, ◌≢◌, refl, [], ◌∷◌, Option, none, some, arith, ◌==◌, if◌then◌else◌, true,
}
use shared_bike_server.Base.Int.{pos, negsuc, ◌-ℤ◌}
use shared_bike_server.Pool.Locks.{Status, thread_mutex_create}
use shared_bike_server.Pool.Task.{Task, Queue, first_slot, next_of, update, push, pop, write_last}
use shared_bike_server.Pool.Chain.{QueueIs}
use shared_bike_server.Pool.Worker.{
  Pool, at_top, blocked, running, exited, enter, wake, Moved, moved, fault, cycle, thread_task_post,
  thread_task_alloc, wait_or_take, new_pool,
}
use shared_bike_server.Pool.Worker.Invariant.{Inv}
use shared_bike_server.Pool.Worker.Post.{Posted, thread_task_post-Posted}
use shared_bike_server.Pool.Worker.Cycle.{Cycled, cycle-Cycled}
use shared_bike_server.Pool.Worker.Reach.{System, started, work, Reach, here, next, Reach-no_fault}
use shared_bike_server.Pool.Lifecycle.{Calls, Prepared}
use shared_bike_server.Pool.Destroy.{
  Job, exit_handler, Steps, start, then_, post, exit_worker, free, posting, spinning, destroyed,
  thread_pool_destroy, thread_pool_destroy-all_gone,
}
use shared_bike_server.Pool.Worker.Gone.{all_gone}
use shared_bike_server.Pool.Destroy as Destroy
use shared_bike_server.Tests.{no_task}

abbrev task : Task ℕ
task = record { next = none; id = 0; job = 42 }

-- The memory with a task at address 8, not queued.
abbrev cells : ℕ → Option (Task ℕ)
cells = update no_task 8 (some task)

abbrev empty : Queue
empty = record { first = none; last = first_slot }

empty-QueueIs : QueueIs (empty, cells) []
empty-QueueIs = record { chain = refl; last_is = refl; distinct = λ a. omega arith }

abbrev one : Queue
one = record { first = some 8; last = next_of 8 }

one-QueueIs : QueueIs (one, cells) (8 ∷ [])
one-QueueIs = record {
  chain = (refl, task, refl, refl);
  last_is = refl;
  distinct = λ a. ground arith;
}

-- A pool with one worker at the head of its loop, and no task queued.
abbrev idle : Pool ℕ
idle = record {
  queue = empty;
  waiting = pos 0;
  threads = 4;
  max_queue = 65535;
  cells = cells;
  task_id = 0;
}

idle-Inv : Inv (at_top ∷ []) idle []
idle-Inv = record {
  queued = empty-QueueIs;
  counted = refl;
  owned = λ a. omega arith;
  live = λ a h. absurd (omega arith);
  bounded = omega arith;
}

thread_task_post-Posted_example :
    (r : Status × Pool ℕ) × (thread_task_post 0 0 8 idle ≡ some r)
    × Posted (at_top ∷ []) idle [] 8 r
thread_task_post-Posted_example =
    thread_task_post-Posted (at_top ∷ []) idle [] 8 0 0 task refl refl idle-Inv

cycle-Cycled_example : Cycled [] [] [] (cycle (enter 0 0) at_top idle)
cycle-Cycled_example = cycle-Cycled [] [] [] (enter 0 0) at_top idle idle-Inv

-- The first worker of a new pool has found no task, and waits.
abbrev waiting_one : System ℕ
waiting_one =
    (blocked ∷ at_top ∷ at_top ∷ at_top ∷ [], record idle { waiting = negsuc 0; cells = no_task })

one_waits : Reach (started no_task 0) waiting_one
unfolding new_pool cycle ◌-ℤ◌
one_waits =
    next here (work [] (at_top ∷ at_top ∷ at_top ∷ []) at_top blocked (enter 0 0) refl refl refl)

Reach-no_fault_example : cycle (wake 0 0) blocked waiting_one.1 ≢ fault
Reach-no_fault_example =
    Reach-no_fault no_task 0 [] (at_top ∷ at_top ∷ at_top ∷ []) blocked (wake 0 0) one_waits refl

-- Two threads can be created, and the third cannot.
abbrev third_fails : Calls
third_fails = record {
  calloc = true;
  mutexattr_init = 0;
  mutexattr_settype = 0;
  mutex_init = 0;
  mutexattr_destroy = 0;
  cond_init = 0;
  attr_init = 0;
  attr_setdetachstate = 0;
  create = λ n. if n == 2 then 11 else 0;
}

abbrev all_fine : Calls
all_fine = record third_fails { create = λ n. 0 }

all_fine-Prepared : Prepared all_fine
unfolding thread_mutex_create
all_fine-Prepared = record { alloc = refl; mutex = refl; cond = refl; attr = refl; detach = refl }

-- A pool with one worker, which is destroyed with a task at address 5 of the stack.
abbrev closing_pool : Pool (Job ℕ)
closing_pool = record {
  queue = record { first = none; last = first_slot };
  waiting = pos 0;
  threads = 1;
  max_queue = 65535;
  cells = no_task;
  task_id = 0;
}

abbrev posted : Option (Status × Pool (Job ℕ)) → Pool (Job ℕ)
posted none = closing_pool
posted (some (status, p)) = p

abbrev pool_after : Moved (Job ℕ) → Pool (Job ℕ)
pool_after (moved w p) = p
pool_after _ = closing_pool

abbrev prepared : Pool (Job ℕ)
prepared = thread_task_alloc 5 exit_handler closing_pool

abbrev with_task : Pool (Job ℕ)
with_task = posted (thread_task_post 0 0 5 prepared)

abbrev taken_off : Pool (Job ℕ)
taken_off = pool_after (cycle (enter 0 0) at_top with_task)

one_closes :
    Steps 5
      (thread_pool_destroy 5 (at_top ∷ [], closing_pool))
      (destroyed, (exited ∷ [], taken_off))
unfolding thread_pool_destroy thread_task_alloc thread_task_post push write_last cycle wait_or_take
    pop
one_closes =
    then_ {u = (destroyed, (exited ∷ [], taken_off))}
      (then_ {u = (posting 0, (exited ∷ [], taken_off))}
        (then_ {u = (spinning 0, (running 5 ∷ [], taken_off))}
          (then_ {u = (spinning 0, (at_top ∷ [], with_task))} start
            (post 0 0 0 refl refl refl refl))
          (Destroy.work [] [] at_top (running 5) (enter 0 0) (λ e. cc) refl refl refl refl))
        (exit_worker [] [] 5 0 refl refl refl refl refl refl))
      (free refl refl refl)

thread_pool_destroy-all_gone_example : all_gone (exited ∷ []) ≡ 1
thread_pool_destroy-all_gone_example =
    thread_pool_destroy-all_gone 5 (at_top ∷ [], closing_pool) refl one_closes refl
