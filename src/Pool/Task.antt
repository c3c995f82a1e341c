-- ===== src/Pool/Task.antt =====
-- thread_pool.h and thread_pool.cpp: tasks in memory and the queue of tasks, a linked list with a
-- pointer to the place where the next task is to be linked.
use shared_bike_server.Base.{ℕ, Option, none, some, ◌==◌, if◌then◌else◌}

-- thread_task_s; `handler` and `ctx` together are the job.
pub record Task (J : Type 0) : Type 0 where
  pub next : Option ℕ
  pub id : ℕ
  pub job : J

-- What `last` points to: the field `first` of the queue, or the field `next` of a task.
pub data Slot : Type 0 where
  first_slot : Slot
  next_of : ℕ → Slot

pub record Queue : Type 0 where
  pub first : Option ℕ
  pub last : Slot

module _ {J : Type 0} where
  -- The heap by address; `none` is memory that is not a live task.
  abbrev pub update : (ℕ → Option (Task J)) → ℕ → Option (Task J) → ℕ → Option (Task J)
  update cells a t b = if a == b then t else cells b

  abbrev pub job_of : Option (Task J) → Option J
  job_of none = none
  job_of (some t) = some t.job

  -- The job of the live task at an address.
  abbrev pub job_at : (ℕ → Option (Task J)) → ℕ → Option J
  job_at cells a = job_of (cells a)

  abbrev pub link : Task J → ℕ → Task J
  link t a = record t { next = some a }

-- thread_pool_queue_init
abbrev pub thread_pool_queue_init : Queue
thread_pool_queue_init = record { first = none; last = first_slot }

-- The queue once its first task is taken off.
abbrev pub after_first : Option ℕ → Slot → Queue
after_first none last = record { first = none; last = first_slot }
after_first (some b) last = record { first = some b; last = last }

abbrev pub Memory : Type 0 → Type 0
Memory J = Queue × (ℕ → Option (Task J))

module _ {J : Type 0} where
  -- `*queue.last = task`; a write into a task that is not live is a fault.
  unfoldable pub write_last : Slot → ℕ → Memory J → Option (Memory J)
  write_last first_slot a (q, cells) = some (record q { first = some a }, cells)
  write_last (next_of b) a (q, cells) = elim (cells b) [
    | none ↦ none
    | some t ↦ some (q, update cells b (some (link t a)))
  ]

  abbrev point_last : ℕ → Option (Memory J) → Option (Memory J)
  point_last a none = none
  point_last a (some (q, cells)) = some (record q { last = next_of a }, cells)

  -- thread_task_post, lines 166 and 167.
  unfoldable pub push : ℕ → Memory J → Option (Memory J)
  unfolding write_last
  push a (q, cells) = point_last a (write_last q.last a (q, cells))

  -- thread_pool_cycle, lines 210 to 215, for `first` not null: the task and the queue behind it.
  unfoldable pub pop : ℕ → Memory J → Option (ℕ × Queue)
  pop a (q, cells) = elim (cells a) [ none ↦ none | some t ↦ some (a, after_first t.next q.last) ]
