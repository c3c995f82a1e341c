-- ===== src/Pool/Worker/Cycle.antt =====
-- The steps of thread_pool_cycle and the pool's invariant.
use shared_bike_server.Base.{
  ℕ, ◌≤◌, ◌≡◌, ◌≢◌, ◌⊎◌, refl, sym, ap, subst, inl, inr, List, [], ◌∷◌, ◌++◌, Option, none, some,
  arith, ◌==◌, ==_iff, Bool-cases, Option-cases,
}
use shared_bike_server.Base.Int.{pos, ◌-ℤ◌, -ℤ_parts}
use shared_bike_server.Pool.Locks.{is_ok, thread_mutex_lock, thread_mutex_unlock, thread_cond_wait}
use shared_bike_server.Pool.Task.{Task, Queue, update, job_at, job_of}
use shared_bike_server.Pool.Chain.{QueueIs, Chain-update, pop_lem, occ}
use shared_bike_server.Pool.Worker.{
  Pool, Worker, at_top, blocked, running, exited, lost, Act, enter, wake, finish, exit_thread,
  Moved, disabled, fault, moved, wait_or_take, release, cycle,
}
use shared_bike_server.Pool.Worker.Invariant.{
  Inv, held, holds, sleeps, held-middle, sleepers-middle,
}

-- The queue is as it was and the worker has no task, or its first task went to the worker (who drops
-- it, if it cannot unlock the mutex).
abbrev pub InOrder : List ℕ → List ℕ → Worker → Type 0
InOrder xs xs' w =
    ((xs' ≡ xs) × ((a : ℕ) → holds a w ≡ 0))
    ⊎ ((a : ℕ) × (xs ≡ a ∷ xs') × ((w ≡ running a) ⊎ (w ≡ exited)))

module _ {J : Type 0} (ws vs : List Worker) (xs : List ℕ) where
  abbrev pub Cycled : Moved J → Type 0
  Cycled disabled = Unit {0}
  Cycled fault = ⊥
  Cycled (moved w p) = (xs' : List ℕ) × Inv (ws ++ w ∷ vs) p xs' × InOrder xs xs' w

  -- A worker that changes its state without touching the heap or the counter.
  change-Inv :
      (w w' : Worker) (p : Pool J)
      → sleeps w' ≡ sleeps w
      → ((a : ℕ) → holds a w' ≤ holds a w)
      → Inv (ws ++ w ∷ vs) p xs
      → Inv (ws ++ w' ∷ vs) p xs
  change-Inv w w' p es eh v = record {
    queued = v.queued;
    counted = omega (arith, v.counted, es, sleepers-middle ws w vs, sleepers-middle ws w' vs);
    owned = λ a. omega (arith, v.owned a, eh a, held-middle a ws w vs, held-middle a ws w' vs);
    live = λ a h. v.live a (omega (arith, eh a, held-middle a ws w vs, held-middle a ws w' vs));
    bounded = omega (arith, v.bounded, es, sleepers-middle ws w vs, sleepers-middle ws w' vs);
  }

  -- `waiting--` makes the worker a sleeper.
  enter-Inv :
      (p : Pool J)
      → Inv (ws ++ at_top ∷ vs) p xs
      → Inv (ws ++ blocked ∷ vs) (record p { waiting = p.waiting -ℤ pos 1 }) xs
  enter-Inv p v = record {
    queued = v.queued;
    counted = omega (
      arith,
      v.counted,
      -ℤ_parts p.waiting (pos 1),
      sleepers-middle ws at_top vs,
      sleepers-middle ws blocked vs,
    );
    owned = λ a. omega (arith, v.owned a, held-middle a ws at_top vs, held-middle a ws blocked vs);
    live = λ a h. v.live a (omega (arith, held-middle a ws at_top vs, held-middle a ws blocked vs));
    bounded = omega (arith, v.bounded, sleepers-middle ws at_top vs, sleepers-middle ws blocked vs);
  }

live-job :
    {J : Type 0} (cells : ℕ → Option (Task J)) (a : ℕ) {t : Task J}
    → cells a ≡ some t
    → job_at cells a ≢ none
live-job cells a live e = cc (rw live at e)

-- The first task goes into the worker's hands.
take-Inv :
    {J : Type 0} (ws vs : List Worker) (x : ℕ) (xs : List ℕ) (p : Pool J) (q : Queue)
    → QueueIs (q, p.cells) xs
    → Inv (ws ++ blocked ∷ vs) p (x ∷ xs)
    → Inv (ws ++ running x ∷ vs) (record p { queue = q }) xs
take-Inv ws vs x xs p q is v = record {
  queued = is;
  counted =
      omega (arith, v.counted, sleepers-middle ws blocked vs, sleepers-middle ws (running x) vs);
  owned =
      λ a. omega (arith, v.owned a, held-middle a ws blocked vs, held-middle a ws (running x) vs);
  live = λ a h. elim (Bool-cases (a == x)) [
    | inl same ↦
        subst (λ k. job_at p.cells k ≢ none) (sym ((==_iff a x).0 same))
          (live-job p.cells x v.queued.chain.2)
    | inr other ↦
        v.live a (ground (arith, held-middle a ws blocked vs, held-middle a ws (running x) vs))
  ];
  bounded =
      omega (arith, v.bounded, sleepers-middle ws blocked vs, sleepers-middle ws (running x) vs);
}

wait_or_take-Cycled :
    {J : Type 0} (ws vs : List Worker) (xs : List ℕ) (unlock : ℕ) (p : Pool J)
    → Inv (ws ++ blocked ∷ vs) p xs
    → Cycled ws vs xs (wait_or_take unlock p p.queue.first)
unfolding wait_or_take
wait_or_take-Cycled ws vs [] unlock p v =
    subst (λ f. Cycled ws vs [] (wait_or_take unlock p f)) (sym v.queued.chain)
      ([], v, inl (refl, λ a. refl))
wait_or_take-Cycled ws vs (x ∷ xs) unlock p v =
    let (q, e, is) = pop_lem x p.queue p.cells xs v.queued in
    let v' = take-Inv ws vs x xs p q is v in
    subst (λ f. Cycled ws vs (x ∷ xs) (wait_or_take unlock p f)) (sym v.queued.chain.0)
      (rw e (elim (Bool-cases (is_ok (thread_mutex_unlock unlock))) [
        | inl unlocked ↦ rw unlocked (xs, v', inr (x, refl, inl refl))
        | inr stuck ↦ rw stuck (
          xs,
          change-Inv ws vs xs (running x) exited _ refl (λ a. omega arith) v',
          inr (x, refl, inr refl),
        )
      ]))

-- Freeing the task of a worker whose handler has returned.
release-Inv :
    {J : Type 0} (ws vs : List Worker) (xs : List ℕ) (a : ℕ) (p : Pool J)
    → Inv (ws ++ running a ∷ vs) p xs
    → Inv (ws ++ at_top ∷ vs) (record p { cells = update p.cells a none }) xs
release-Inv ws vs xs a p v =
    let mine : (occ a xs ≡ 0) × (held a ws ≡ 0) × (held a vs ≡ 0) =
      ground (arith, v.owned a, held-middle a ws (running a) vs) in
    record {
      queued = record {
        chain = Chain-update p.cells a none p.queue.first xs mine.0 v.queued.chain;
        last_is = v.queued.last_is;
        distinct = v.queued.distinct;
      };
      counted =
          omega (arith, v.counted, sleepers-middle ws (running a) vs, sleepers-middle ws at_top vs);
      owned = λ b.
          omega (arith, v.owned b, held-middle b ws (running a) vs, held-middle b ws at_top vs);
      live = λ b h. elim (Bool-cases (a == b)) [
        | inl same ↦
            absurd (
              ground
                (arith, v.owned b, held-middle b ws (running a) vs, held-middle b ws at_top vs))
        | inr other ↦
            rw other (
              v.live b (omega (arith, held-middle b ws (running a) vs, held-middle b ws at_top vs)))
      ];
      bounded =
          omega (arith, v.bounded, sleepers-middle ws (running a) vs, sleepers-middle ws at_top vs);
    }

-- Whatever step a worker makes in a pool that keeps its invariant: it touches no memory that is not
-- a live task, the invariant goes on to hold, and the queue loses its
-- first task to this worker, or is left as it was while the worker has no task.
pub cycle-Cycled :
    {J : Type 0} (ws vs : List Worker) (xs : List ℕ) (act : Act) (w : Worker) (p : Pool J)
    → Inv (ws ++ w ∷ vs) p xs
    → Cycled ws vs xs (cycle act w p)
unfolding cycle
cycle-Cycled ws vs xs (enter lock unlock) at_top p v =
    elim (Bool-cases (is_ok (thread_mutex_lock lock))) [
      | inl locked ↦ rw locked (wait_or_take-Cycled ws vs xs unlock _ (enter-Inv ws vs xs p v))
      | inr failed ↦
          rw failed (
            xs,
            change-Inv ws vs xs at_top exited p refl (λ a. omega arith) v,
            inl (refl, λ a. refl),
          )
    ]
cycle-Cycled ws vs xs (wake wait unlock) blocked p v =
    elim (Bool-cases (is_ok (thread_cond_wait wait))) [
      | inl woken ↦ rw woken (wait_or_take-Cycled ws vs xs unlock p v)
      | inr failed ↦
          rw failed (
            xs,
            change-Inv ws vs xs blocked lost p refl (λ a. omega arith) v,
            inl (refl, λ a. refl),
          )
    ]
cycle-Cycled ws vs xs finish (running a) p v = elim (Option-cases (p.cells a)) [
  | inl dead ↦ absurd (v.live a (ground (arith, held-middle a ws (running a) vs)) (ap job_of dead))
  | inr (t, live) ↦
      subst (λ c. Cycled ws vs xs (release a p c)) (sym live)
        (xs, release-Inv ws vs xs a p v, inl (refl, λ a. refl))
]
cycle-Cycled ws vs xs exit_thread (running a) p v =
    (xs, change-Inv ws vs xs (running a) exited p refl (λ b. omega arith) v, inl (refl, λ a. refl))
cycle-Cycled ws vs xs _ _ p v = tt
