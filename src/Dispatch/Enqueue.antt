-- ===== src/Dispatch/Enqueue.antt =====
-- DispatchMsgService::enqueue: an event becomes a task of the pool.
use shared_bike_server.Base.{
  ℕ, ◌≡◌, ◌∙◌, List, [], ◌∷◌, ◌++◌, Option, none, some, arith, if◌then◌else◌, ◌==◌,
}
use shared_bike_server.Events.{Event}
use shared_bike_server.Pool.Locks.{Status, t_error, is_ok}
use shared_bike_server.Pool.Task.{job_at}
use shared_bike_server.Pool.Worker.{Pool, Worker, thread_task_alloc, thread_task_post}
use shared_bike_server.Pool.Worker.Invariant.{Inv}
use shared_bike_server.Pool.Worker.Post.{thread_task_post-Posted}
use shared_bike_server.Pool.Worker.Reach.{alloc-Inv, alloc_task, dead-fresh}

-- What the calls below enqueue return: calloc, pthread_mutex_lock and pthread_cond_signal.
pub record Calls : Type 0 where
  pub calloc : Option ℕ
  pub lock : ℕ
  pub signal : ℕ

abbrev post_at : Calls → Event → Pool Event → Option ℕ → Option (Status × Pool Event)
post_at c ev tp none = none
post_at c ev tp (some a) = thread_task_post c.lock c.signal a (thread_task_alloc a ev tp)

-- -1 is T_ERROR; `none` is a write through the null that calloc returned.
unfoldable pub enqueue : Calls → Option Event → Pool Event → Option (Status × Pool Event)
enqueue c none tp = some (t_error, tp)
enqueue c (some ev) tp = post_at c ev tp c.calloc

-- What enqueue does to the pool, with the jobs of the other tasks.
pub enqueue_jobs :
    (c : Calls) (ev : Event) (ws : List Worker) (tp : Pool Event) (xs : List ℕ) (a : ℕ)
    → Inv ws tp xs
    → c.calloc ≡ some a
    → tp.cells a ≡ none
    → (r : Status × Pool Event) × (enqueue c (some ev) tp ≡ some r)
      × Inv ws r.1 (if is_ok r.0 then xs ++ a ∷ [] else xs)
      × ((k : ℕ) → job_at r.1.cells k ≡ (if a == k then some ev else job_at tp.cells k))
unfolding enqueue thread_task_alloc
enqueue_jobs c ev ws tp xs a v at dead =
    let tp' = thread_task_alloc a ev tp in
    let (live, same_max) = alloc_task a ev tp in
    let (r, e, posted) =
      thread_task_post-Posted ws tp' xs a c.lock c.signal (record { next = none; id = 0; job = ev })
        live (dead-fresh ws tp xs a v dead) (alloc-Inv ws tp xs a ev v dead) in
    (r, rw at e, posted.inv, λ k. posted.same_jobs k ∙ ground arith)

-- In a pool that keeps its invariant, an event whose task calloc placed in memory that was not in
-- use is queued behind the others when the result is T_OK, with svc to be called on that event;
-- when it is T_ERROR the queue is as before. The invariant goes on to hold.
pub enqueue-Posted :
    (c : Calls) (ev : Event) (ws : List Worker) (tp : Pool Event) (xs : List ℕ) (a : ℕ)
    → Inv ws tp xs
    → c.calloc ≡ some a
    → tp.cells a ≡ none
    → (r : Status × Pool Event) × (enqueue c (some ev) tp ≡ some r)
      × Inv ws r.1 (if is_ok r.0 then xs ++ a ∷ [] else xs)
      × (job_at r.1.cells a ≡ some ev)
enqueue-Posted c ev ws tp xs a v at dead =
    let (r, e, inv, jobs) = enqueue_jobs c ev ws tp xs a v at dead in
    (r, e, inv, jobs a ∙ ground arith)
