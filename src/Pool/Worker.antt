-- ===== src/Pool/Worker.antt =====
-- thread_pool.cpp: posting a task, and the loop of a worker thread between its calls of pthread and
-- of the task's handler. The mutex makes each of these pieces one step: whatever the threads do is
-- a sequence of them.
pub mod Invariant
pub mod Post
pub mod Cycle
pub mod Reach
pub mod Gone
pub mod Turn
pub mod Drain
use shared_bike_server.Base.{ℕ, ◌+◌, ◌%◌, ◌^◌, List, Option, none, some, ◌==◌, if◌then◌else◌}
use shared_bike_server.Base.Int.{ℤ, pos, ◌+ℤ◌, ◌-ℤ◌, leb_ℤ}
use shared_bike_server.Pool.Locks.{
  Status, t_ok, t_error, is_ok, thread_mutex_lock, thread_mutex_unlock, thread_cond_signal,
  thread_cond_wait,
}
use shared_bike_server.Pool.Task.{Task, Queue, Memory, update, push, pop, thread_pool_queue_init}

abbrev pub default_threads_num : ℕ
default_threads_num = 4

abbrev pub default_queue_num : ℕ
default_queue_num = 65535

-- thread_pool_s with the heap of tasks and the counter thread_pool_task_id.
pub record Pool (J : Type 0) : Type 0 where
  pub queue : Queue
  pub waiting : ℤ
  pub threads : ℕ
  pub max_queue : ℕ
  pub cells : ℕ → Option (Task J)
  pub task_id : ℕ

module _ {J : Type 0} where
  -- What thread_pool_init makes before it creates the threads, with thread_pool_init_default; the
  -- heap and the counter are as they are.
  unfoldable pub new_pool : (ℕ → Option (Task J)) → ℕ → Pool J
  new_pool cells task_id = record {
    queue = thread_pool_queue_init;
    waiting = pos 0;
    threads = default_threads_num;
    max_queue = default_queue_num;
    cells = cells;
    task_id = task_id;
  }

  -- thread_task_alloc(0) at the address that calloc gives, with the handler and context that
  -- enqueue stores next.
  unfoldable pub thread_task_alloc : ℕ → J → Pool J → Pool J
  thread_task_alloc a job p = record p {
    cells = update p.cells a (some (record { next = none; id = 0; job = job }));
  }

  abbrev appended : Pool J → Option (Memory J) → Option (Status × Pool J)
  appended p none = none
  appended p (some (q, cells)) =
      some (t_ok, record p { queue = q; cells = cells; waiting = p.waiting +ℤ pos 1 })

  -- Lines 158 to 171, for the task that is at the address: `none` is a write to memory that is no
  -- task.
  abbrev post_task : ℕ → ℕ → Pool J → Option (Task J) → Option (Status × Pool J)
  post_task signal a p none = none
  post_task signal a p (some t) =
      let p' = record p {
        cells = update p.cells a (some (record t { id = p.task_id; next = none }));
        task_id = (p.task_id + 1) % 2 ^ 64;
      } in
      if is_ok (thread_cond_signal signal)
      then appended p' (push a (p'.queue, p'.cells))
      else some (t_error, p')

  -- thread_task_post(tp, task): the results of pthread_mutex_lock and pthread_cond_signal come
  -- first.
  unfoldable pub thread_task_post : ℕ → ℕ → ℕ → Pool J → Option (Status × Pool J)
  thread_task_post lock signal a p =
      if is_ok (thread_mutex_lock lock)
      then (if leb_ℤ (pos p.max_queue) p.waiting
          then some (t_error, p)
          else post_task signal a p (p.cells a))
      else some (t_error, p)

-- Where a worker stands in thread_pool_cycle: at the head of the loop, in pthread_cond_wait, in the
-- handler of a task, or returned; `lost` returned from a wait that failed.
pub data Worker : Type 0 where
  at_top : Worker
  blocked : Worker
  running : ℕ → Worker
  exited : Worker
  lost : Worker

-- What happens next: the worker takes the mutex, wakes up, its handler returns, or its handler
-- ends the thread. The numbers are results of pthread calls.
pub data Act : Type 0 where
  enter : ℕ → ℕ → Act
  wake : ℕ → ℕ → Act
  finish : Act
  exit_thread : Act

-- A step that the worker cannot make where it stands, undefined behaviour, or the new state.
pub data Moved (J : Type 0) : Type 0 where
  disabled : Moved J
  fault : Moved J
  moved : Worker → Pool J → Moved J

module _ {J : Type 0} where
  abbrev taken : ℕ → Pool J → Option (ℕ × Queue) → Moved J
  taken unlock p none = fault
  taken unlock p (some (a, q)) =
      moved (if is_ok (thread_mutex_unlock unlock) then running a else exited)
        (record p { queue = q })

  -- Lines 201 to 219: wait while there is no task, else take the first and unlock.
  unfoldable pub wait_or_take : ℕ → Pool J → Option ℕ → Moved J
  wait_or_take unlock p none = moved blocked p
  wait_or_take unlock p (some a) = taken unlock p (pop a (p.queue, p.cells))

  -- Lines 230 and 231: a write to the task, which then is freed.
  abbrev pub release : ℕ → Pool J → Option (Task J) → Moved J
  release a p none = fault
  release a p (some t) = moved at_top (record p { cells = update p.cells a none })

  unfoldable pub cycle : Act → Worker → Pool J → Moved J
  unfolding wait_or_take
  cycle (enter lock unlock) at_top p =
      if is_ok (thread_mutex_lock lock)
      then wait_or_take unlock (record p { waiting = p.waiting -ℤ pos 1 }) p.queue.first
      else moved exited p
  cycle (wake wait unlock) blocked p =
      if is_ok (thread_cond_wait wait) then wait_or_take unlock p p.queue.first else moved lost p
  cycle finish (running a) p = release a p (p.cells a)
  cycle exit_thread (running a) p = moved exited p
  cycle _ _ p = disabled
