-- ===== src/Server/Run/Pending.antt =====
-- The requests of a session that are on their way: queued, in the hands of a worker, or answered by a
-- response that is not yet sent.
use shared_bike_server.Base.{
  ℕ, ◌+◌, ◌≡◌, refl, List, [], ◌∷◌, ◌++◌, Option, none, some, arith, ◌==◌, if◌then◌else◌, ap, false,
}
use shared_bike_server.Events.{Event}
use shared_bike_server.Pool.Chain.{occ}
use shared_bike_server.Pool.Worker.{Worker, running}
use shared_bike_server.Pool.Worker.Invariant.{held}

abbrev pub names : ℕ → Option ℕ → ℕ
names p none = 0
names p (some q) = if p == q then 1 else 0

-- Whether it is an event of the session at address p.
abbrev pub of_session : ℕ → Option Event → ℕ
of_session p none = 0
of_session p (some ev) = names p ev.args

module _ (p : ℕ) where
  module _ (jobs : ℕ → Option Event) where
    abbrev pub queued : List ℕ → ℕ
    queued [] = 0
    queued (x ∷ xs) = of_session p (jobs x) + queued xs

    abbrev pub in_hand : Worker → ℕ
    in_hand (running a) = of_session p (jobs a)
    in_hand w = 0

    abbrev pub in_hands : List Worker → ℕ
    in_hands [] = 0
    in_hands (w ∷ ws) = in_hand w + in_hands ws

    pub queued-snoc :
        (xs : List ℕ) (a : ℕ) → queued (xs ++ a ∷ []) ≡ queued xs + of_session p (jobs a)
    queued-snoc [] a = omega arith
    queued-snoc (x ∷ xs) a = omega (arith, queued-snoc xs a)

    pub in_hands-middle :
        (ws : List Worker) (w : Worker) (vs : List Worker)
        → in_hands (ws ++ w ∷ vs) ≡ in_hands ws + in_hand w + in_hands vs
    in_hands-middle [] w vs = omega arith
    in_hands-middle (u ∷ ws) w vs = omega (arith, in_hands-middle ws w vs)

  -- Tasks that are neither queued nor held do not count.
  module _ (jobs jobs' : ℕ → Option Event) (a : ℕ)
      (same : (k : ℕ) → (a == k) ≡ false → jobs' k ≡ jobs k) where
    pub queued-same : (xs : List ℕ) → occ a xs ≡ 0 → queued jobs' xs ≡ queued jobs xs
    queued-same [] fresh = refl
    queued-same (x ∷ xs) fresh =
        omega (arith, queued-same xs (ground arith), ap (of_session p) (same x (ground arith)))

    pub in_hands-same : (ws : List Worker) → held a ws ≡ 0 → in_hands jobs' ws ≡ in_hands jobs ws
    in_hands-same [] fresh = refl
    in_hands-same (running b ∷ ws) fresh =
        omega (arith, in_hands-same ws (ground arith), ap (of_session p) (same b (ground arith)))
    in_hands-same (w ∷ ws) fresh = omega (arith, in_hands-same ws (ground arith))

  abbrev pub answered : List Event → ℕ
  answered [] = 0
  answered (ev ∷ evs) = of_session p (some ev) + answered evs

  pub answered-snoc :
      (evs : List Event) (ev : Event)
      → answered (evs ++ ev ∷ []) ≡ answered evs + of_session p (some ev)
  answered-snoc [] ev = omega arith
  answered-snoc (e ∷ evs) ev = omega (arith, answered-snoc evs ev)

-- All of them.
abbrev pub pending : ℕ → (ℕ → Option Event) → List ℕ → List Worker → List Event → ℕ
pending p jobs xs ws evs = queued p jobs xs + in_hands p jobs ws + answered p evs
