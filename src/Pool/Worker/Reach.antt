-- ===== src/Pool/Worker/Reach.antt =====
-- The pool with its threads: every interleaving of the workers' steps and of posts.
use shared_bike_server.Base.{
  ℕ, ◌+◌, ◌≡◌, ◌≢◌, refl, sym, ap, subst, ◌∙◌, inl, inr, List, [], ◌∷◌, ◌++◌, Option, none, some,
  arith, ◌==◌, if◌then◌else◌, length, length-append, replicate, Bool-cases, ltb, some_eq,
}
use shared_bike_server.Pool.Locks.{Status, is_ok}
use shared_bike_server.Pool.Task.{Task, pop, job_of}
use shared_bike_server.Pool.Chain.{Chain, Chain-update, occ}
use shared_bike_server.Pool.Worker.{
  Pool, Worker, at_top, Act, enter, fault, moved, cycle, new_pool, thread_task_alloc,
  thread_task_post, default_threads_num, default_queue_num,
}
use shared_bike_server.Pool.Worker.Invariant.{Inv, held}
use shared_bike_server.Pool.Worker.Post.{Posted, thread_task_post-Posted}
use shared_bike_server.Pool.Worker.Cycle.{Cycled, cycle-Cycled}

abbrev pub System : Type 0 → Type 0
System J = List Worker × Pool J

module _ {J : Type 0} where
  -- The pool when its threads have been created.
  abbrev pub started : (ℕ → Option (Task J)) → ℕ → System J
  started cells id = (replicate default_threads_num at_top, new_pool cells id)

  -- A step of one worker, or the post of a task that calloc placed in memory that was not in use.
  pub data Step (s u : System J) : Type 0 where
    work :
        (ws vs : List Worker) (w w' : Worker) (act : Act)
        → s.0 ≡ ws ++ w ∷ vs
        → u.0 ≡ ws ++ w' ∷ vs
        → cycle act w s.1 ≡ moved w' u.1
        → Step s u
    post :
        (lock signal a : ℕ) (job : J) (status : Status)
        → s.1.cells a ≡ none
        → thread_task_post lock signal a (thread_task_alloc a job s.1) ≡ some (status, u.1)
        → u.0 ≡ s.0
        → Step s u

  pub data Reach (s : System J) : System J → Type 0 where
    here : Reach s s
    next : {t u : System J} → Reach s t → Step t u → Reach s u

  -- A queued task is live.
  occ-dead :
      (cells : ℕ → Option (Task J)) (a : ℕ) (start : Option ℕ) (xs : List ℕ)
      → cells a ≡ none
      → Chain cells start xs
      → occ a xs ≡ 0
  occ-dead cells a start [] dead c = refl
  occ-dead cells a start (x ∷ xs) dead (e, t, live, c) =
      ground (arith, occ-dead cells a t.next xs dead c)

  -- Memory that is not in use is neither queued nor in a worker's hands.
  pub dead-fresh :
      (ws : List Worker) (p : Pool J) (xs : List ℕ) (a : ℕ)
      → Inv ws p xs
      → p.cells a ≡ none
      → occ a xs + held a ws ≡ 0
  dead-fresh ws p xs a v dead = elim (Bool-cases (ltb 0 (held a ws))) [
    | inl busy ↦ absurd (v.live a (ground arith) (ap job_of dead))
    | inr idle ↦ ground (arith, occ-dead p.cells a p.queue.first xs dead v.queued.chain)
  ]

  pub alloc-Inv :
      (ws : List Worker) (p : Pool J) (xs : List ℕ) (a : ℕ) (job : J)
      → Inv ws p xs
      → p.cells a ≡ none
      → Inv ws (thread_task_alloc a job p) xs
  unfolding thread_task_alloc
  alloc-Inv ws p xs a job v dead = record {
    queued = record {
      chain =
          Chain-update p.cells a _ p.queue.first xs
            (occ-dead p.cells a p.queue.first xs dead v.queued.chain) v.queued.chain;
      last_is = v.queued.last_is;
      distinct = v.queued.distinct;
    };
    counted = v.counted;
    owned = v.owned;
    live = λ k h. elim (Bool-cases (a == k)) [
      | inl same ↦ rw same (λ e. cc)
      | inr other ↦ rw other (v.live k h)
    ];
    bounded = v.bounded;
  }

  pub alloc_task :
      (a : ℕ) (job : J) (p : Pool J)
      → ((thread_task_alloc a job p).cells a ≡ some (record { next = none; id = 0; job = job }))
        × ((thread_task_alloc a job p).max_queue ≡ p.max_queue)
  unfolding thread_task_alloc
  alloc_task a job p = (ground arith, refl)

  -- The invariant with the sizes that stay as they are.
  pub record Sound (s : System J) : Type 0 where
    pub xs : List ℕ
    pub inv : Inv s.0 s.1 xs
    pub same_threads : length s.0 ≡ default_threads_num
    pub same_max : s.1.max_queue ≡ default_queue_num

  cycle-max :
      (act : Act) (w : Worker) (p : Pool J) {w' : Worker} {q : Pool J}
      → cycle act w p ≡ moved w' q
      → q.max_queue ≡ p.max_queue
  unfolding cycle pop
  cycle-max (enter lock unlock) at_top p e = ground arith
  cycle-max _ _ p e = ground arith

  Step-Sound : {s u : System J} → Step s u → Sound s → Sound u
  Step-Sound {s} {u} (work ws vs w w' act before after e) v =
      let v' : Inv (ws ++ w ∷ vs) s.1 v.xs = subst (λ l. Inv l s.1 v.xs) before v.inv in
      let (xs', inv', order) = subst (Cycled ws vs v.xs) e (cycle-Cycled ws vs v.xs act w s.1 v') in
      record {
        xs = xs';
        inv = subst (λ l. Inv l u.1 xs') (sym after) inv';
        same_threads = omega (
          arith,
          ap length before,
          ap length after,
          length-append ws (w ∷ vs),
          length-append ws (w' ∷ vs),
          v.same_threads,
        );
        same_max = cycle-max act w s.1 e ∙ v.same_max;
      }
  Step-Sound {s} {u} (post lock signal a job status dead e same) v =
      let v' = alloc-Inv s.0 s.1 v.xs a job v.inv dead in
      let (r, e', posted) =
        thread_task_post-Posted s.0 (thread_task_alloc a job s.1) v.xs a lock signal
          (record { next = none; id = 0; job = job }) (alloc_task a job s.1).0
          (dead-fresh s.0 s.1 v.xs a v.inv dead) v' in
      let same_result : r ≡ (status, u.1) = some_eq (sym e' ∙ e) in
      let posted' = subst (Posted s.0 (thread_task_alloc a job s.1) v.xs a) same_result posted in
      let xs' = if is_ok status then v.xs ++ a ∷ [] else v.xs in
      record {
        xs = xs';
        inv = subst (λ l. Inv l u.1 xs') (sym same) posted'.inv;
        same_threads = ap length same ∙ v.same_threads;
        same_max = posted'.same_max ∙ (alloc_task a job s.1).1 ∙ v.same_max;
      }

  pub Reach-Sound :
      (cells : ℕ → Option (Task J)) (id : ℕ) {s : System J} → Reach (started cells id) s → Sound s
  unfolding new_pool
  Reach-Sound cells id here = record {
    xs = [];
    inv = record {
      queued = record { chain = refl; last_is = refl; distinct = λ a. omega arith };
      counted = omega arith;
      owned = λ a. omega arith;
      live = λ a h. absurd (omega arith);
      bounded = omega arith;
    };
    same_threads = refl;
    same_max = refl;
  }
  Reach-Sound cells id (next r st) = Step-Sound st (Reach-Sound cells id r)

  -- In every state that the threads can reach, no step of any of the workers has undefined
  -- behaviour: a task that is taken from the queue or is freed is a live one.
  pub Reach-no_fault :
      (cells : ℕ → Option (Task J)) (id : ℕ) {s : System J} (ws vs : List Worker) (w : Worker)
      (act : Act)
      → Reach (started cells id) s
      → s.0 ≡ ws ++ w ∷ vs
      → cycle act w s.1 ≢ fault
  Reach-no_fault cells id {s} ws vs w act r before e =
      let v = Reach-Sound cells id r in
      subst (Cycled ws vs v.xs) e
        (cycle-Cycled ws vs v.xs act w s.1 (subst (λ l. Inv l s.1 v.xs) before v.inv))
