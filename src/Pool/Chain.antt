-- ===== src/Pool/Chain.antt =====
-- The linked list of tasks as a queue of addresses.
use shared_bike_server.Base.{
  ℕ, ◌+◌, ◌≤◌, ◌≡◌, refl, List, [], ◌∷◌, ◌++◌, Option, none, some, arith, ◌==◌, ==_iff,
  if◌then◌else◌, inl, inr, Bool-cases,
}
use shared_bike_server.Pool.Task.{
  Task, Slot, first_slot, next_of, Queue, Memory, update, link, push, pop, thread_pool_queue_init,
  job_at,
}

-- How often an address is in a list.
abbrev pub occ : ℕ → List ℕ → ℕ
occ a [] = 0
occ a (x ∷ xs) = (if a == x then 1 else 0) + occ a xs

pub occ-append : (a : ℕ) (xs ys : List ℕ) → occ a (xs ++ ys) ≡ occ a xs + occ a ys
occ-append a [] ys = omega arith
occ-append a (x ∷ xs) ys = omega (arith, occ-append a xs ys)

abbrev pub IsLast : Slot → List ℕ → Type 0
IsLast slot [] = slot ≡ first_slot
IsLast slot (x ∷ []) = slot ≡ next_of x
IsLast slot (x ∷ y ∷ xs) = IsLast slot (y ∷ xs)

IsLast-snoc : (a x : ℕ) (xs : List ℕ) → IsLast (next_of a) (x ∷ xs ++ a ∷ [])
IsLast-snoc a x [] = refl
IsLast-snoc a x (y ∷ xs) = IsLast-snoc a y xs

module _ {J : Type 0} where
  -- From `start` the links lead through the addresses and end in null.
  abbrev pub Chain : (ℕ → Option (Task J)) → Option ℕ → List ℕ → Type 0
  Chain cells start [] = start ≡ none
  Chain cells start (x ∷ xs) =
      (start ≡ some x) × (t : Task J) × (cells x ≡ some t) × Chain cells t.next xs

  -- The queue holds the tasks at these addresses, in this order, none of them twice.
  pub record QueueIs (m : Memory J) (xs : List ℕ) : Type 0 where
    pub chain : Chain m.1 m.0.first xs
    pub last_is : IsLast m.0.last xs
    pub distinct : (a : ℕ) → occ a xs ≤ 1

  -- A change of a task that is not in the list leaves the list.
  pub Chain-update :
      (cells : ℕ → Option (Task J)) (a : ℕ) (t : Option (Task J)) (start : Option ℕ) (xs : List ℕ)
      → occ a xs ≡ 0
      → Chain cells start xs
      → Chain (update cells a t) start xs
  Chain-update cells a t start [] fresh c = c
  Chain-update cells a t start (x ∷ xs) fresh (e, u, live, c) =
      (e, u, ground arith, Chain-update cells a t u.next xs (ground arith) c)

  -- Linking a live task behind the last one.
  Chain-link :
      (cells : ℕ → Option (Task J)) (a : ℕ) (ta : Task J) (start : Option ℕ) (x : ℕ) (xs : List ℕ)
      (slot : Slot)
      → cells a ≡ some ta
      → ta.next ≡ none
      → Chain cells start (x ∷ xs)
      → IsLast slot (x ∷ xs)
      → ((b : ℕ) → occ b (x ∷ xs ++ a ∷ []) ≤ 1)
      → (b : ℕ) × (tb : Task J) × (slot ≡ next_of b)
        × (cells b ≡ some tb)
        × (1 ≤ occ b (x ∷ xs))
        × Chain (update cells b (some (link tb a))) start (x ∷ xs ++ a ∷ [])
  Chain-link cells a ta start x [] slot live null (e, t, lx, c) last once = (
    x,
    t,
    last,
    lx,
    ground arith,
    (e, link t a, ground arith, (refl, ta, ground (arith, once a), null)),
  )
  Chain-link cells a ta start x (y ∷ xs) slot live null (e, t, lx, c) last once =
      let (b, tb, eb, lb, in_, c') =
        Chain-link cells a ta t.next y xs slot live null c last (λ k. omega (arith, once k)) in
      (b, tb, eb, lb, ground arith, (e, t, ground (arith, once b, occ-append b xs (a ∷ [])), c'))

  pub job_at-update :
      (cells : ℕ → Option (Task J)) (b : ℕ) (t t' : Task J)
      → cells b ≡ some t
      → t'.job ≡ t.job
      → (k : ℕ) → job_at (update cells b (some t')) k ≡ job_at cells k
  job_at-update cells b t t' live same_job k = elim (Bool-cases (b == k)) [
    | inl same ↦ rw (same, ← (==_iff b k).0 same, live, same_job)
    | inr other ↦ rw other
  ]

  -- Linking a live task that is not queued and whose next is null puts it behind all others, and
  -- changes no job.
  pub push_lem :
      (a : ℕ) (ta : Task J) (q : Queue) (cells : ℕ → Option (Task J)) (xs : List ℕ)
      → QueueIs (q, cells) xs
      → occ a xs ≡ 0
      → cells a ≡ some ta
      → ta.next ≡ none
      → (m : Memory J) × (push a (q, cells) ≡ some m)
        × QueueIs m (xs ++ a ∷ [])
        × ((k : ℕ) → job_at m.1 k ≡ job_at cells k)
  unfolding push
  push_lem a ta q cells [] is fresh live null = (
    (record { first = some a; last = next_of a }, cells),
    ground (arith, is.last_is),
    record { chain = (refl, ta, live, null); last_is = refl; distinct = λ b. ground arith },
    λ k. refl,
  )
  push_lem a ta q cells (x ∷ xs) is fresh live null =
      let once : (b : ℕ) → occ b (x ∷ xs ++ a ∷ []) ≤ 1 =
        λ b. ground (arith, is.distinct b, occ-append b xs (a ∷ [])) in
      let (b, tb, eb, lb, in_, c) =
        Chain-link cells a ta q.first x xs q.last live null is.chain is.last_is once in
      (
        (record q { last = next_of a }, update cells b (some (link tb a))),
        ground (arith, eb, lb),
        record { chain = c; last_is = IsLast-snoc a x xs; distinct = once },
        job_at-update cells b tb (link tb a) lb refl,
      )

  -- Taking the first task of a queue gives that task and leaves the others in their order.
  pub pop_lem :
      (x : ℕ) (q : Queue) (cells : ℕ → Option (Task J)) (xs : List ℕ)
      → QueueIs (q, cells) (x ∷ xs)
      → (q' : Queue) × (pop x (q, cells) ≡ some (x, q')) × QueueIs (q', cells) xs
  unfolding pop
  pop_lem x q cells [] is =
      let (e, t, lx, n) = is.chain in
      (
        thread_pool_queue_init,
        ground (arith, lx, n),
        record { chain = refl; last_is = refl; distinct = λ b. omega arith },
      )
  pop_lem x q cells (y ∷ xs) is =
      let (e, t, lx, rest) = is.chain in
      (
        record { first = some y; last = q.last },
        ground (arith, lx, rest.0),
        record {
          chain = (refl, rest.1, rest.2, rest.3);
          last_is = is.last_is;
          distinct = λ b. omega (arith, is.distinct b);
        },
      )
