-- ===== src/Pool/Worker/Drain.antt =====
-- thread_pool.cpp: what becomes of the queued tasks when nothing more is posted, the handlers return
-- and the calls of pthread succeed, in whatever order the workers take their turns.
use shared_bike_server.Base.{
  ℕ, zero, suc, ◌+◌, ◌*◌, ◌≤◌, ◌<◌, ◌≡◌, ◌⊎◌, refl, sym, ap, subst, ◌∙◌, inl, inr, List, [], ◌∷◌,
  ◌++◌, Option, none, arith, length, length-append,
}
use mathlib.Core.List.{append-nil, append_assoc}
use shared_bike_server.Pool.Task.{Task}
use shared_bike_server.Pool.Chain.{QueueIs, Chain}
use shared_bike_server.Pool.Worker.{
  Pool, Worker, at_top, blocked, running, exited, lost, Act, cycle, moved,
}
use shared_bike_server.Pool.Worker.Invariant.{Inv}
use shared_bike_server.Pool.Worker.Reach.{System, started, Reach, Reach-Sound}
use shared_bike_server.Pool.Worker.Gone.{gone, all_gone, all_gone-middle, cycle-gone}
use shared_bike_server.Pool.Worker.Turn.{
  Succeeds, got, weights, weights-middle, weights-le, turn_lem, Chain-unique, Idle, AllIdle,
  CanTurn, can_turn,
}

module _ {J : Type 0} where
  -- One worker brings the work on, and is at w' then.
  pub record Turn (s t : System J) (act : Act) (w' : Worker) : Type 0 where
    pub ws : List Worker
    pub vs : List Worker
    pub w : Worker
    pub ok : Succeeds act s.1
    pub before : s.0 ≡ ws ++ w ∷ vs
    pub after : t.0 ≡ ws ++ w' ∷ vs
    pub moves : cycle act w s.1 ≡ moved w' t.1

  -- From s to u in n turns, in which these tasks were taken.
  pub data Runs (u : System J) : System J → ℕ → List ℕ → Type 0 where
    stop : Runs u u 0 []
    turn :
        {s t : System J} {act : Act} {w' : Worker} {n : ℕ} {ts : List ℕ}
        → Turn s t act w'
        → Runs u t n ts
        → Runs u s (suc n) (got act w' ++ ts)

  abbrev pub to_do : System J → List ℕ → ℕ
  to_do s xs = 3 * length xs + weights s.0

  -- What a turn, or more of them, leave of what was queued.
  pub record Left (s u : System J) (xs : List ℕ) (n : ℕ) (ts : List ℕ) : Type 0 where
    pub xs' : List ℕ
    pub inv : Inv u.0 u.1 xs'
    pub taken : xs ≡ ts ++ xs'
    pub less : n + to_do u xs' ≤ to_do s xs
    pub same_threads : length u.0 ≡ length s.0
    pub same_gone : all_gone u.0 ≡ all_gone s.0

  pub Turn-Left :
      {s t : System J} {act : Act} {w' : Worker} (xs : List ℕ)
      → Turn s t act w'
      → Inv s.0 s.1 xs
      → Left s t xs 1 (got act w')
  Turn-Left {s} {t} {act} {w'} xs k v =
      let (xs', inv, (taken, less, alive)) =
        turn_lem k.ws k.vs xs act k.w w' s.1 t.1 (subst (λ l. Inv l s.1 xs) k.before v) k.ok
          k.moves in
      record {
        xs' = xs';
        inv = subst (λ l. Inv l t.1 xs') (sym k.after) inv;
        taken = taken;
        less = omega (
          arith,
          less,
          ap weights k.before,
          ap weights k.after,
          weights-middle k.ws k.w k.vs,
          weights-middle k.ws w' k.vs,
        );
        same_threads = omega (
          arith,
          ap length k.before,
          ap length k.after,
          length-append k.ws (k.w ∷ k.vs),
          length-append k.ws (w' ∷ k.vs),
        );
        same_gone = omega (
          arith,
          alive,
          cycle-gone act k.w w' s.1 t.1 k.moves,
          ap all_gone k.before,
          ap all_gone k.after,
          all_gone-middle k.ws k.w k.vs,
          all_gone-middle k.ws w' k.vs,
        );
      }

  Runs-Left :
      {u s : System J} {n : ℕ} {ts : List ℕ} (xs : List ℕ)
      → Runs u s n ts
      → Inv s.0 s.1 xs
      → Left s u xs n ts
  Runs-Left xs stop v = record {
    xs' = xs;
    inv = v;
    taken = refl;
    less = omega arith;
    same_threads = refl;
    same_gone = refl;
  }
  Runs-Left xs (turn {s} {t} {act} {w'} {n} {ts} k r) v =
      let first = Turn-Left xs k v in
      let rest = Runs-Left first.xs' r first.inv in
      record {
        xs' = rest.xs';
        inv = rest.inv;
        taken =
            first.taken
            ∙ ap (λ l. got act w' ++ l) rest.taken
            ∙ sym (append_assoc (got act w') ts rest.xs');
        less = omega (arith, first.less, rest.less);
        same_threads = rest.same_threads ∙ first.same_threads;
        same_gone = rest.same_gone ∙ first.same_gone;
      }

Idle-gone : (first : Option ℕ) (w : Worker) → Idle first w → (first ≡ none) ⊎ (gone w ≡ 1)
Idle-gone first at_top i = absurd i
Idle-gone first blocked i = inl i
Idle-gone first (running a) i = absurd i
Idle-gone first exited i = inr refl
Idle-gone first lost i = inr refl

pub AllIdle-empty :
    (first : Option ℕ) (ws : List Worker)
    → AllIdle first ws
    → all_gone ws < length ws
    → first ≡ none
AllIdle-empty first [] i h = absurd (omega arith)
AllIdle-empty first (w ∷ ws) (i, is) h = elim (Idle-gone first w i) [
  | inl empty ↦ empty
  | inr ended ↦ AllIdle-empty first ws is (omega arith)
]

module _ {J : Type 0} where
  -- The first worker of vs that can go on, behind ws, if there is one.
  pub someone_can :
      (p : Pool J) (xs : List ℕ) (ws vs : List Worker)
      → Inv (ws ++ vs) p xs
      → AllIdle p.queue.first vs
        ⊎ ((ws' : List Worker) × (w : Worker) × (vs' : List Worker) × (ws ++ vs ≡ ws' ++ w ∷ vs')
            × CanTurn p xs w)
  someone_can p xs ws [] v = inl tt
  someone_can p xs ws (w ∷ vs) v = elim (can_turn p xs ws vs w v) [
    | inl idle ↦
        let e : (ws ++ w ∷ []) ++ vs ≡ ws ++ w ∷ vs = append_assoc ws (w ∷ []) vs in
        elim (someone_can p xs (ws ++ w ∷ []) vs (subst (λ l. Inv l p xs) (sym e) v)) [
          | inl others ↦ inl (idle, others)
          | inr (ws', w', vs', e', can) ↦ inr (ws', w', vs', sym e ∙ e', can)
        ]
    | inr can ↦ inr (ws, w, vs, refl, can)
  ]

  Turn-of :
      (s : System J) (xs : List ℕ) (ws vs : List Worker) (w : Worker)
      → s.0 ≡ ws ++ w ∷ vs
      → (can : CanTurn s.1 xs w) → (t : System J) × Turn s t can.0 can.2
  Turn-of s xs ws vs w before (act, ok, w', q, moves) = (
    (ws ++ w' ∷ vs, q),
    record { ws = ws; vs = vs; w = w; ok = ok; before = before; after = refl; moves = moves },
  )

  drained_by :
      (k : ℕ) (s : System J) (xs : List ℕ)
      → Inv s.0 s.1 xs
      → to_do s xs ≤ k
      → (u : System J) × (n : ℕ) × (ts : List ℕ) × Runs u s n ts × AllIdle u.1.queue.first u.0
  drained_by zero s xs v h = elim (someone_can s.1 xs [] s.0 v) [
    | inl idle ↦ (s, 0, [], stop, idle)
    | inr (ws, w, vs, before, can) ↦
        let (t, k) = Turn-of s xs ws vs w before can in
        absurd (omega (arith, (Turn-Left xs k v).less))
  ]
  drained_by (suc k) s xs v h = elim (someone_can s.1 xs [] s.0 v) [
    | inl idle ↦ (s, 0, [], stop, idle)
    | inr (ws, w, vs, before, can) ↦
        let (t, first) = Turn-of s xs ws vs w before can in
        let left = Turn-Left xs first v in
        let (u, n, ts, rest, idle) = drained_by k t left.xs' left.inv (omega (arith, left.less)) in
        (u, suc n, got can.0 can.2 ++ ts, turn first rest, idle)
  ]

  module _ (cells : ℕ → Option (Task J)) (id : ℕ) {s : System J} (xs : List ℕ)
      (r : Reach (started cells id) s) (queued : QueueIs (s.1.queue, s.1.cells) xs) where
    reached-Inv : Inv s.0 s.1 xs
    reached-Inv =
        let v = Reach-Sound cells id r in
        subst (Inv s.0 s.1)
          (Chain-unique s.1.cells s.1.queue.first v.xs xs v.inv.queued.chain queued.chain) v.inv

    pub Runs-drained :
        {u : System J} {n : ℕ} {ts : List ℕ}
        → Runs u s n ts
        → AllIdle u.1.queue.first u.0
        → all_gone s.0 < length s.0
        → (ts ≡ xs) × (u.1.queue.first ≡ none) × (n ≤ 3 * length xs + 8)
    Runs-drained {u} {n} {ts} turns idle alive =
        let left = Runs-Left xs turns reached-Inv in
        let empty : u.1.queue.first ≡ none =
          AllIdle-empty u.1.queue.first u.0 idle
            (omega (arith, left.same_threads, left.same_gone)) in
        let none_left : left.xs' ≡ [] =
          Chain-unique u.1.cells none left.xs' []
            (subst (λ f. Chain u.1.cells f left.xs') empty left.inv.queued.chain) refl in
        (
          sym (left.taken ∙ ap (λ l. ts ++ l) none_left ∙ append-nil ts),
          empty,
          omega (arith, left.less, weights-le s.0, (Reach-Sound cells id r).same_threads),
        )

    -- From every state that the threads can reach in which a worker has not ended, there are at most
    -- three turns for each queued task and eight more, with succeeding calls of pthread, that take
    -- all queued tasks in their order, after which every handler that was called has returned and
    -- each worker waits or has ended.
    pub Reach-drains :
        all_gone s.0 < length s.0
        → (u : System J) × (n : ℕ) × Runs u s n xs
          × (n ≤ 3 * length xs + 8)
          × (u.1.queue.first ≡ none)
          × AllIdle none u.0
    Reach-drains alive =
        let (u, n, ts, turns, idle) = drained_by (to_do s xs) s xs reached-Inv (omega arith) in
        let (same, empty, few) = Runs-drained turns idle alive in
        (u, n, subst (Runs u s n) same turns, few, empty, subst (λ f. AllIdle f u.0) empty idle)
