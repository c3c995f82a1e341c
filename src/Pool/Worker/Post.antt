-- ===== src/Pool/Worker/Post.antt =====
-- The branches of thread_task_post and the pool's invariant.
use shared_bike_server.Base.{
  ℕ, ◌+◌, ◌%◌, ◌^◌, ◌<◌, ◌≡◌, ◌↔◌, refl, sym, ◌∙◌, inl, inr, false, List, [], ◌∷◌, ◌++◌, none, some,
  arith, if◌then◌else◌, length, length-append, Bool-cases,
}
use shared_bike_server.Base.Int.{pos, ◌+ℤ◌, +ℤ_parts, leb_ℤ}
use shared_bike_server.Pool.Locks.{
  Status, t_ok, t_error, is_ok, thread_mutex_lock, thread_cond_signal,
}
use shared_bike_server.Pool.Task.{Task, update, job_at}
use shared_bike_server.Pool.Chain.{Chain-update, push_lem, job_at-update, occ, occ-append}
use shared_bike_server.Pool.Worker.{Pool, Worker, thread_task_post, post_task}
use shared_bike_server.Pool.Worker.Invariant.{Inv, held, sleepers}

module _ {J : Type 0} (ws : List Worker) (p : Pool J) (xs : List ℕ) (a : ℕ) where
  -- The task is behind the others if it was accepted, and nothing is queued otherwise; no job in
  -- memory has changed.
  pub record Posted (r : Status × Pool J) : Type 0 where
    pub inv : Inv ws r.1 (if is_ok r.0 then xs ++ a ∷ [] else xs)
    pub same_max : r.1.max_queue ≡ p.max_queue
    pub same_jobs : (k : ℕ) → job_at r.1.cells k ≡ job_at p.cells k

  refused : Inv ws p xs → Posted (t_error, p)
  refused v = record { inv = v; same_max = refl; same_jobs = λ k. refl }

  -- The task gets its number before it is queued.
  abbrev numbered : Task J → Pool J
  numbered t = record p {
    cells = update p.cells a (some (record t { id = p.task_id; next = none }));
    task_id = (p.task_id + 1) % 2 ^ 64;
  }

  numbered-Inv :
      (t : Task J)
      → p.cells a ≡ some t
      → occ a xs + held a ws ≡ 0
      → Inv ws p xs
      → Inv ws (numbered t) xs × ((k : ℕ) → job_at (numbered t).cells k ≡ job_at p.cells k)
  numbered-Inv t live fresh v =
      let jobs = job_at-update p.cells a t (record t { id = p.task_id; next = none }) live refl in
      (
        record {
          queued = record {
            chain = Chain-update p.cells a _ p.queue.first xs (omega arith) v.queued.chain;
            last_is = v.queued.last_is;
            distinct = v.queued.distinct;
          };
          counted = v.counted;
          owned = v.owned;
          live = λ k h e. v.live k h (sym (jobs k) ∙ e);
          bounded = v.bounded;
        },
        jobs,
      )

  appended-Posted :
      (t : Task J)
      → p.cells a ≡ some t
      → occ a xs + held a ws ≡ 0
      → leb_ℤ (pos p.max_queue) p.waiting ≡ false
      → Inv ws p xs
      → (q : Pool J) × (post_task 0 a p (some t) ≡ some (t_ok, q)) × Posted (t_ok, q)
  appended-Posted t live fresh room v =
      let (v', jobs) = numbered-Inv t live fresh v in
      let (m, e, is, jobs') =
        push_lem a (record t { id = p.task_id; next = none }) p.queue (numbered t).cells xs
          v'.queued (omega arith) (ground arith) refl in
      let q : Pool J = record (numbered t) {
        queue = m.0;
        cells = m.1;
        waiting = p.waiting +ℤ pos 1;
      } in
      (
        q,
        rw e,
        record {
          inv = record {
            queued = is;
            counted =
                omega (arith, +ℤ_parts p.waiting (pos 1), v.counted, length-append xs (a ∷ []));
            owned = λ k. ground (arith, v.owned k, occ-append k xs (a ∷ []), fresh);
            live = λ k h e. v.live k h (sym (jobs' k ∙ jobs k) ∙ e);
            bounded = ground (arith, v.counted, length-append xs (a ∷ []));
          };
          same_max = refl;
          same_jobs = λ k. jobs' k ∙ jobs k;
        },
      )

  -- Posting a live task that is neither queued nor in a worker's hands, to a pool that keeps its
  -- invariant: there is no fault, and the invariant goes on to hold; a result T_OK means that the
  -- task is now the last of the queue, and T_ERROR that the queue is as it was.
  pub thread_task_post-Posted :
      (lock signal : ℕ) (t : Task J)
      → p.cells a ≡ some t
      → occ a xs + held a ws ≡ 0
      → Inv ws p xs
      → (r : Status × Pool J) × (thread_task_post lock signal a p ≡ some r) × Posted r
  unfolding thread_task_post
  thread_task_post-Posted lock signal t live fresh v =
      elim (Bool-cases (is_ok (thread_mutex_lock lock))) [
        | inl locked ↦ elim (Bool-cases (leb_ℤ (pos p.max_queue) p.waiting)) [
          | inl full ↦ ((t_error, p), rw (locked, full), refused v)
          | inr room ↦ elim (Bool-cases (is_ok (thread_cond_signal signal))) [
            | inl signalled ↦
                let (q, e, posted) = appended-Posted t live fresh room v in
                ((t_ok, q), rw (locked, room, live, signalled) e, posted)
            | inr silent ↦
                let (v', jobs) = numbered-Inv t live fresh v in
                (
                  (t_error, numbered t),
                  rw (locked, room, live, silent),
                  record { inv = v'; same_max = refl; same_jobs = jobs },
                )
          ]
        ]
        | inr unlocked ↦ ((t_error, p), rw unlocked, refused v)
      ]

  -- When pthread reports no error, such a task is accepted, by a pool that keeps its invariant,
  -- exactly while fewer are queued than max_queue and the sleeping workers make up together; it is
  -- live, and neither queued nor in a worker's hands.
  pub thread_task_post-accepts_iff :
      (t : Task J)
      → p.cells a ≡ some t
      → occ a xs + held a ws ≡ 0
      → Inv ws p xs
      → (r : Status × Pool J) × (thread_task_post 0 0 a p ≡ some r)
        × ((r.0 ≡ t_ok) ↔ (length xs < p.max_queue + sleepers ws))
  unfolding thread_task_post
  thread_task_post-accepts_iff t live fresh v =
      elim (Bool-cases (leb_ℤ (pos p.max_queue) p.waiting)) [
        | inl full ↦ ((t_error, p), rw full, (λ e. cc, λ h. absurd (ground (arith, v.counted))))
        | inr room ↦
            let (q, e, posted) = appended-Posted t live fresh room v in
            ((t_ok, q), rw (room, live) e, (λ _. ground (arith, v.counted), λ _. refl))
      ]
