-- ===== src/Protobuf/Total.antt =====
-- The end of the loop over the fields.
use shared_bike_server.Base.{
  ℕ, zero, suc, ◌≤◌, ◌<◌, ◌≡◌, ◌≢◌, refl, inl, inr, List, ◌++◌, Option, none, some, arith, ◌==◌,
  length, ◌/◌, ◌%◌, if◌then◌else◌, Bool-cases, ap,
}
use shared_bike_server.Protobuf.{
  Wire, Primitive, Parsed, Field, unusual, failed, read, Merged, no_fuel, set_field, loop,
  merge_partial, skipped, handle_unusual, by_field,
}

module _ (wire : Wire) {F : Type 0} (step : ℕ → F → List ℕ → Field F) where
  -- A case of the switch that reads a field has a tag, and does not add to the input.
  abbrev pub Shortens : Type 0
  Shortens =
      (tag : ℕ) (x : F) (s : List ℕ) (x' : F) (rest : List ℕ)
      → step tag x s ≡ read x' rest
      → (tag ≢ 0) × (length rest ≤ length s)

  -- The rest of the loop ends on inputs below n bytes.
  abbrev Ends : ℕ → (Parsed F → List ℕ → Merged F) → Type 0
  Ends n again = (m : Parsed F) (s : List ℕ) → length s < n → again m s ≢ no_fuel

  skipped-Ends :
      (n : ℕ) (again : Parsed F → List ℕ → Merged F) (m : Parsed F) (tag : ℕ) (s : List ℕ)
      (o : Option (List ℕ × List ℕ))
      → Ends n again
      → length s < n
      → wire.skip_field tag s ≡ o
      → skipped wire step again m o ≢ no_fuel
  skipped-Ends n again m tag s none ends h e = λ bad. cc
  skipped-Ends n again m tag s (some (bytes, rest)) ends h e =
      let shorter = wire.skip_field-shorter tag s bytes rest e in
      ends (record m { unknown = m.unknown ++ bytes }) rest (omega arith)

  handle_unusual-Ends :
      (n : ℕ) (again : Parsed F → List ℕ → Merged F) (m : Parsed F) (tag : ℕ) (whole s : List ℕ)
      → Ends n again
      → (tag ≢ 0 → length s < n)
      → handle_unusual wire step again tag m whole s ≢ no_fuel
  handle_unusual-Ends n again m tag whole s ends h = elim (Bool-cases (tag == 0)) [
    | inl last ↦ rw last (λ bad. cc)
    | inr more ↦ rw more (
        skipped-Ends n again m tag s (wire.skip_field tag s) ends
          (h (λ e. absurd (ground (arith, e, more)))) refl)
  ]

  by_field-Ends :
      (n : ℕ) (again : Parsed F → List ℕ → Merged F) (m : Parsed F) (tag : ℕ) (whole s : List ℕ)
      (f : Field F)
      → Ends n again
      → Shortens
      → (tag ≢ 0 → length s < n)
      → step tag m.fields s ≡ f
      → by_field wire step again tag m whole s f ≢ no_fuel
  by_field-Ends n again m tag whole s unusual ends steps h e =
      handle_unusual-Ends n again m tag whole s ends h
  by_field-Ends n again m tag whole s failed ends steps h e = λ bad. cc
  by_field-Ends n again m tag whole s (read x rest) ends steps h e =
      let (some_tag, shorter) = steps tag m.fields s x rest e in
      let bound = h some_tag in ends (record m { fields = x }) rest (omega arith)

  loop-Ends : (fuel : ℕ) → Shortens → Ends fuel (λ m s. loop wire step fuel m s)
  unfolding loop
  loop-Ends zero steps m s h = absurd (omega arith)
  loop-Ends (suc fuel) steps m s h =
      let (tag, known, rest) = wire.read_tag s in
      let shorter : tag ≢ 0 → length rest < fuel =
        λ some_tag. (let less = wire.read_tag-shorter s some_tag in omega arith) in
      elim (Bool-cases known) [
        | inl is_known ↦ rw is_known (
            by_field-Ends fuel (λ m' s'. loop wire step fuel m' s') m tag s rest
              (step tag m.fields rest) (loop-Ends fuel steps) steps shorter refl)
        | inr unknown ↦ rw unknown (
            handle_unusual-Ends fuel (λ m' s'. loop wire step fuel m' s') m tag s rest
              (loop-Ends fuel steps) shorter)
      ]

  pub merge_partial-Ends :
      (m : Parsed F) (s : List ℕ) → Shortens → merge_partial wire step m s ≢ no_fuel
  unfolding merge_partial
  merge_partial-Ends m s steps = loop-Ends (suc (length s)) steps m s (omega arith)

module _ (wire : Wire) {F : Type 0} where
  pub set_field-shorter :
      {A : Type 0} (set : A → F) (s : List ℕ) (x' : F) (rest : List ℕ) (o : Option (A × List ℕ))
      → ((a : A) (rest' : List ℕ) → o ≡ some (a, rest') → length rest' ≤ length s)
      → set_field set o ≡ read x' rest
      → length rest ≤ length s
  set_field-shorter set s x' rest none h f = absurd cc
  set_field-shorter set s x' rest (some (a, rest')) h f =
      let same : rest' ≡ rest = cc in omega (arith, ap length same, h a rest' refl)

  pub field-shorter :
      {A : Type 0} {Fits : A → Type 0} {typed : ℕ} (type : Primitive wire.read_tag A Fits typed)
      (set : A → F) (s : List ℕ) (x' : F) (rest : List ℕ)
      → set_field set (type.parse s) ≡ read x' rest
      → length rest ≤ length s
  field-shorter type set s x' rest =
      set_field-shorter set s x' rest (type.parse s) (λ a t. type.parse-shorter s a t)

  -- One case of the switch in front of the others.
  pub case-shorter :
      (tag number typed : ℕ) (s : List ℕ) (x' : F) (rest : List ℕ) (f others : Field F)
      → 1 ≤ number
      → (f ≡ read x' rest → length rest ≤ length s)
      → (others ≡ read x' rest → (tag ≢ 0) × (length rest ≤ length s))
      → (if tag / 8 == number then (if tag % 256 == typed then f else unusual) else others)
        ≡ read x' rest
      → (tag ≢ 0) × (length rest ≤ length s)
  case-shorter tag number typed s x' rest f others first own rest_of e =
      elim (Bool-cases (tag / 8 == number)) [
        | inl here ↦ elim (Bool-cases (tag % 256 == typed)) [
          | inl fits ↦ (ground arith, own (rw (here, fits) at e))
          | inr misfit ↦ absurd (let g = rw (here, misfit) at e in cc)
        ]
        | inr elsewhere ↦ rest_of (rw elsewhere at e)
      ]
