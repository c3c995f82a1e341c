-- ===== src/Protobuf/Loop.antt =====
-- One turn of the loop over the fields of a message.
use shared_bike_server.Base.{
  ℕ, zero, suc, ◌+◌, ◌*◌, ◌^◌, ◌≤◌, ◌<◌, ◌≡◌, refl, ap, ◌∙◌, true, List, [], ◌++◌, Option, none,
  some, arith, length, length-append,
}
use shared_bike_server.Protobuf.{
  Wire, Primitive, Parsed, Field, read, Merged, merged, set_field, loop,
}
use shared_bike_server.Protobuf.Fields.{write_field}

-- If it is set.
abbrev pub When : {A : Type 0} → (A → Type 0) → Option A → Type 0
When P none = Unit
When P (some a) = P a

abbrev pub Short : Option (List ℕ) → Type 0
Short o = When (λ s. length s < 2 ^ 31) o

abbrev pub Small : Option ℕ → Type 0
Small o = When (λ v. v < 2 ^ 32) o

abbrev pub Small64 : Option ℕ → Type 0
Small64 o = When (λ v. v < 2 ^ 64) o

module _ (wire : Wire) {F : Type 0} (step : ℕ → F → List ℕ → Field F) where
  pub loop-end :
      (fuel : ℕ) (m : Parsed F) → length {A = ℕ} [] < fuel → loop wire step fuel m [] ≡ merged m []
  unfolding loop
  loop-end zero m h = absurd (omega arith)
  loop-end (suc fuel) m h = rw (wire.read_tag-end) refl

  -- The loop at the bytes of a field that is read into x'.
  pub loop-read :
      (fuel tag : ℕ) (bytes value rest unknown : List ℕ) (x x' : F)
      → wire.read_tag bytes ≡ (tag, true, value)
      → step tag x value ≡ read x' rest
      → loop wire step (suc fuel) (record { fields = x; unknown = unknown }) bytes
        ≡ loop wire step fuel (record { fields = x'; unknown = unknown }) rest
  unfolding loop
  loop-read fuel tag bytes value rest unknown x x' tagged reads = rw (tagged, reads) refl

module _ (wire : Wire) {F : Type 0} (step : ℕ → F → List ℕ → Field F) {A : Type 0}
    {Fits : A → Type 0} {typed : ℕ} (type : Primitive wire.read_tag A Fits typed) where
  -- A field that is read into x, and the rest of the loop, which has enough fuel again.
  pub loop-field :
      {fuel : ℕ} {result : Merged F} (number : ℕ) (o : Option A) (rest unknown : List ℕ)
      (set : Option A → F)
      → 1 ≤ number
      → number ≤ 15
      → When Fits o
      → ((value : List ℕ)
          → step (number * 8 + typed) (set none) value
            ≡ set_field (λ a. set (some a)) (type.parse value))
      → length (write_field type number o ++ rest) < fuel
      → ((fuel' : ℕ)
          → length rest < fuel'
          → loop wire step fuel' (record { fields = set o; unknown = unknown }) rest ≡ result)
      → loop wire step fuel
          (record { fields = set none; unknown = unknown })
          (write_field type number o ++ rest)
        ≡ result
  loop-field {fuel = fuel} number none rest unknown set first last h steps enough ends =
      ends fuel enough
  loop-field {fuel = zero} number (some a) rest unknown set first last h steps enough ends =
      absurd (omega arith)
  loop-field {fuel = suc fuel} number (some a) rest unknown set first last h steps enough ends =
      let (value, tag, reads) = type.parse-print number a rest first last h in
      loop-read wire step fuel (number * 8 + typed) (type.print number a ++ rest) value rest unknown
        (set none) (set (some a)) tag (steps value ∙ ap (set_field (λ b. set (some b))) reads)
      ∙ ends fuel
          (omega (arith, length-append (type.print number a) rest, type.length-print number a last))
