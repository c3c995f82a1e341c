-- ===== src/Pool/Worker/Turn.antt =====
-- thread_pool.cpp: the steps of a worker that bring the work on, and what they leave to do.
use shared_bike_server.Base.{
  ℕ, ◌+◌, ◌*◌, ◌≤◌, ◌<◌, ◌≡◌, ◌≢◌, ◌⊎◌, refl, sym, ap, subst, ◌∙◌, inl, inr, List, [], ◌∷◌, ◌++◌,
  Option, none, some, arith, length, Option-cases, some_eq,
}
use shared_bike_server.Base.Int.{pos, ◌-ℤ◌}
use shared_bike_server.Pool.Task.{Task, Queue, job_of, update}
use shared_bike_server.Pool.Chain.{QueueIs, Chain, pop_lem}
use shared_bike_server.Pool.Worker.{
  Pool, Worker, at_top, blocked, running, exited, lost, Act, enter, wake, finish, exit_thread,
  Moved, moved, wait_or_take, release, cycle,
}
use shared_bike_server.Pool.Worker.Invariant.{Inv, held-middle}
use shared_bike_server.Pool.Worker.Cycle.{Cycled, cycle-Cycled}
use shared_bike_server.Pool.Worker.Gone.{gone}

-- A worker that can go on: the calls of pthread succeed, and no wake-up is for nothing.
abbrev pub Succeeds : {J : Type 0} → Act → Pool J → Type 0
Succeeds (enter lock unlock) p = (lock ≡ 0) × (unlock ≡ 0)
Succeeds (wake wait unlock) p = (wait ≡ 0) × (unlock ≡ 0) × (p.queue.first ≢ none)
Succeeds finish p = Unit {0}
Succeeds exit_thread p = ⊥

-- The task that a worker took from the queue in a step that led to this place.
abbrev pub got : Act → Worker → List ℕ
got (enter lock unlock) (running a) = a ∷ []
got (wake wait unlock) (running a) = a ∷ []
got act w = []

-- How many steps a worker can make at most before it is in its loop again or waits.
abbrev pub weight : Worker → ℕ
weight at_top = 1
weight (running a) = 2
weight w = 0

abbrev pub weights : List Worker → ℕ
weights [] = 0
weights (w ∷ ws) = weight w + weights ws

pub weights-middle :
    (ws : List Worker) (w : Worker) (vs : List Worker)
    → weights (ws ++ w ∷ vs) ≡ weights ws + weight w + weights vs
weights-middle [] w vs = omega arith
weights-middle (u ∷ ws) w vs = omega (arith, weights-middle ws w vs)

weight-le : (w : Worker) → weight w ≤ 2
weight-le at_top = omega arith
weight-le w = omega arith

pub weights-le : (ws : List Worker) → weights ws ≤ 2 * length ws
weights-le [] = omega arith
weights-le (w ∷ ws) = omega (arith, weights-le ws, weight-le w)

-- What a step of a worker does that brings the work on: w' is where the worker is then, and xs'
-- what is queued.
abbrev pub Went : List ℕ → Act → Worker → Worker → List ℕ → Type 0
Went xs act w w' xs' =
    (xs ≡ got act w' ++ xs')
    × (3 * length xs' + weight w' < 3 * length xs + weight w)
    × (gone w' ≡ 0)

module _ {J : Type 0} where
  pub Chain-unique :
      (cells : ℕ → Option (Task J)) (start : Option ℕ) (xs ys : List ℕ)
      → Chain cells start xs
      → Chain cells start ys
      → xs ≡ ys
  Chain-unique cells start [] [] c d = refl
  Chain-unique cells start [] (y ∷ ys) c (e, t, l, d) = absurd cc
  Chain-unique cells start (x ∷ xs) [] (e, t, l, c) d = absurd cc
  Chain-unique cells start (x ∷ xs) (y ∷ ys) (ex, t, lx, c) (ey, u, ly, d) =
      let same : x ≡ y = some_eq (sym ex ∙ ey) in
      let same_task : t ≡ u = some_eq (sym lx ∙ ap cells same ∙ ly) in
      let rest : xs ≡ ys =
        Chain-unique cells t.next xs ys c (subst (λ k. Chain cells k.next ys) (sym same_task) d) in
      λ i. same i ∷ rest i

  wait_or_take_turn :
      (p : Pool J) (xs : List ℕ)
      → QueueIs (p.queue, p.cells) xs
      → ((xs ≡ []) × (wait_or_take 0 p p.queue.first ≡ moved blocked p))
        ⊎ ((x : ℕ) × (ys : List ℕ) × (q : Queue) × (xs ≡ x ∷ ys)
            × (wait_or_take 0 p p.queue.first ≡ moved (running x) (record p { queue = q }))
            × QueueIs (q, p.cells) ys)
  unfolding wait_or_take
  wait_or_take_turn p [] is = inl (refl, rw is.chain refl)
  wait_or_take_turn p (x ∷ xs) is =
      let (q, e, is') = pop_lem x p.queue p.cells xs is in
      (inr (
        x,
        xs,
        q,
        refl,
        subst (λ f. wait_or_take 0 p f ≡ moved (running x) (record p { queue = q }))
            (sym is.chain.0) (rw e refl),
        is',
      ))

module _ {J : Type 0} (ws vs : List Worker) (xs : List ℕ) (act : Act) (w : Worker) where
  abbrev pub Advanced : Moved J → Type 0
  Advanced (moved w' q) = (xs' : List ℕ) × Inv (ws ++ w' ∷ vs) q xs' × Went xs act w w' xs'
  Advanced _ = Unit

  landed :
      (p q : Pool J) (w' : Worker) (ys : List ℕ)
      → Inv (ws ++ w ∷ vs) p xs
      → cycle act w p ≡ moved w' q
      → QueueIs (q.queue, q.cells) ys
      → Went xs act w w' ys
      → Advanced (cycle act w p)
  landed p q w' ys v e is went =
      let (xs', inv, order) = subst (Cycled ws vs xs) e (cycle-Cycled ws vs xs act w p v) in
      let same : xs' ≡ ys = Chain-unique q.cells q.queue.first xs' ys inv.queued.chain is.chain in
      subst Advanced (sym e) (ys, subst (Inv (ws ++ w' ∷ vs) q) same inv, went)

pub release-at_top :
    {J : Type 0} (a : ℕ) (p : Pool J) (c : Option (Task J)) {w' : Worker} {q : Pool J}
    → release a p c ≡ moved w' q
    → w' ≡ at_top
release-at_top a p none e = absurd cc
release-at_top a p (some t) e = cc

module _ {J : Type 0} (ws vs : List Worker) (xs : List ℕ) where
  -- Where a worker is that has taken the mutex or was woken up.
  waited :
      (act : Act) (w : Worker) (p p' : Pool J)
      → Inv (ws ++ w ∷ vs) p xs
      → QueueIs (p'.queue, p'.cells) xs
      → cycle act w p ≡ wait_or_take 0 p' p'.queue.first
      → ((a : ℕ) → got act (running a) ≡ a ∷ [])
      → (got act blocked ≡ [])
      → weight w ≤ 1
      → ((xs ≡ []) → weight w ≡ 1)
      → Advanced ws vs xs act w (cycle act w p)
  waited act w p p' v is e takes not_ light waits = elim (wait_or_take_turn p' xs is) [
    | inl (none_left, f) ↦
        landed ws vs xs act w p p' blocked xs v (e ∙ f) is
          (rw not_ refl, omega (arith, waits none_left), refl)
    | inr (x, ys, q, some_left, f, is') ↦
        landed ws vs xs act w p (record p' { queue = q }) (running x) ys v (e ∙ f) is'
          (
            some_left ∙ ap (λ l. l ++ ys) (sym (takes x)),
            omega (arith, light, ap length some_left),
            refl,
          )
  ]

  -- A step that brings the work on keeps the invariant, takes the first task or none, and leaves
  -- less to do.
  pub turn_lem :
      (act : Act) (w w' : Worker) (p q : Pool J)
      → Inv (ws ++ w ∷ vs) p xs
      → Succeeds act p
      → cycle act w p ≡ moved w' q
      → (xs' : List ℕ) × Inv (ws ++ w' ∷ vs) q xs' × Went xs act w w' xs'
  unfolding cycle
  turn_lem (enter lock unlock) at_top w' p q v (ok, ok') e =
      subst (Advanced ws vs xs (enter lock unlock) at_top) e (
        waited (enter lock unlock) at_top p (record p { waiting = p.waiting -ℤ pos 1 }) v v.queued
          (rw (ok, ok') refl) (λ a. refl) refl (omega arith) (λ _. refl))
  turn_lem (wake wait unlock) blocked w' p q v (ok, ok', found) e =
      subst (Advanced ws vs xs (wake wait unlock) blocked) e (
        waited (wake wait unlock) blocked p p v v.queued (rw (ok, ok') refl) (λ a. refl) refl
          (omega arith)
          (λ none_left.
            absurd (found (subst (Chain p.cells p.queue.first) none_left v.queued.chain))))
  turn_lem finish (running a) w' p q v ok e =
      let (xs', inv, order) =
        subst (Cycled ws vs xs) e (cycle-Cycled ws vs xs finish (running a) p v) in
      let top : w' ≡ at_top = release-at_top a p (p.cells a) e in
      elim order [
        | inl (same, _) ↦
            (xs', inv, (sym same, omega (arith, ap weight top, ap length same), ap gone top))
        | inr (b, _, inl here) ↦ absurd cc
        | inr (b, _, inr here) ↦ absurd cc
      ]
  turn_lem exit_thread w w' p q v ok e = absurd ok
  turn_lem _ _ w' p q v ok e = absurd cc

-- No worker has anything to do: each waits while nothing is queued, or has ended.
abbrev pub Idle : Option ℕ → Worker → Type 0
Idle first at_top = ⊥
Idle first blocked = first ≡ none
Idle first (running a) = ⊥
Idle first w = Unit

abbrev pub AllIdle : Option ℕ → List Worker → Type 0
AllIdle first [] = Unit
AllIdle first (w ∷ ws) = Idle first w × AllIdle first ws

module _ {J : Type 0} (p : Pool J) (xs : List ℕ) where
  abbrev pub CanTurn : Worker → Type 0
  CanTurn w =
      (act : Act) × Succeeds act p × (w' : Worker) × (q : Pool J) × (cycle act w p ≡ moved w' q)

  takes :
      (act : Act) (w : Worker) (p' : Pool J)
      → QueueIs (p'.queue, p'.cells) xs
      → Succeeds act p
      → cycle act w p ≡ wait_or_take 0 p' p'.queue.first
      → CanTurn w
  takes act w p' is ok e = elim (wait_or_take_turn p' xs is) [
    | inl (_, f) ↦ (act, ok, blocked, p', e ∙ f)
    | inr (x, ys, q, _, f, _) ↦ (act, ok, running x, record p' { queue = q }, e ∙ f)
  ]

  pub can_turn :
      (ws vs : List Worker) (w : Worker)
      → Inv (ws ++ w ∷ vs) p xs
      → Idle p.queue.first w ⊎ CanTurn w
  unfolding cycle
  can_turn ws vs at_top v = inr (
      takes (enter 0 0) at_top (record p { waiting = p.waiting -ℤ pos 1 }) v.queued (refl, refl)
        refl)
  can_turn ws vs blocked v = elim (Option-cases p.queue.first) [
    | inl empty ↦ inl empty
    | inr (x, found) ↦ inr (takes (wake 0 0) blocked p v.queued (refl, refl, λ e. cc) refl)
  ]
  can_turn ws vs (running a) v = elim (Option-cases (p.cells a)) [
    | inl dead ↦
        absurd (v.live a (ground (arith, held-middle a ws (running a) vs)) (ap job_of dead))
    | inr (t, live) ↦
        inr (finish, tt, at_top, record p { cells = update p.cells a none }, rw live refl)
  ]
  can_turn ws vs exited v = inl tt
  can_turn ws vs lost v = inl tt
