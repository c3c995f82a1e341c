-- ===== src/Protobuf.antt =====
-- src/SourceFiles/bike.pb.cpp: the messages in use. What the generated code calls of libprotobuf is
-- an interface; the loop over the fields of a message has the same form in each of them.
pub mod Fields
pub mod Loop
pub mod Messages
pub mod Total
pub mod MobileRequest
pub mod MobileResponse
pub mod LoginRequest
pub mod LoginResponse
pub mod RechargeRequest
pub mod RechargeResponse
pub mod AccountBalanceRequest
pub mod AccountBalanceResponse
pub mod ListAccountRecordsRequest
pub mod ListTravelRecordsRequest
pub mod AccountRecord
pub mod ListAccountRecordsResponse
pub mod TravelRecord
pub mod ListTravelRecordsResponse
pub mod Instance
use shared_bike_server.Base.{
  ℕ, zero, suc, ◌+◌, ◌*◌, ◌^◌, ◌≤◌, ◌<◌, ◌≡◌, ◌≢◌, Bool, true, false, List, [], ◌∷◌, ◌++◌, Option,
  none, some, ◌==◌, if◌then◌else◌, length,
}

-- A message: its fields, each with its bit in _has_bits_, and the bytes of the unknown fields.
pub record Parsed (F : Type 0) : Type 0 where
  pub fields : F
  pub unknown : List ℕ

-- What a case of the switch does: `goto handle_unusual`, `goto failure`, or a field is read.
pub data Field (F : Type 0) : Type 0 where
  unusual : Field F
  failed : Field F
  read : F → List ℕ → Field F

-- The result of MergePartialFromCodedStream: the message with the input from the tag on that ended
-- the loop, of which nothing is left unless that tag is a byte of zero; `no_fuel` is a loop that was
-- cut off.
pub data Merged (F : Type 0) : Type 0 where
  merged : Parsed F → List ℕ → Merged F
  failure : Merged F
  no_fuel : Merged F

-- A type of values on the wire: how one is read, how a field is written with its tag, and the size
-- that is announced for it. The values that fit are read back.
pub record Primitive (read_tag : List ℕ → ℕ × Bool × List ℕ) (A : Type 0) (Fits : A → Type 0)
    (typed : ℕ) : Type 0 where
  pub parse : List ℕ → Option (A × List ℕ)
  pub print : ℕ → A → List ℕ
  pub size : A → ℕ
  pub parse-print :
      (number : ℕ) (a : A) (rest : List ℕ)
      → 1 ≤ number
      → number ≤ 15
      → Fits a
      → (value : List ℕ) × (read_tag (print number a ++ rest) ≡ (number * 8 + typed, true, value))
        × (parse value ≡ some (a, rest))
  pub length-print : (number : ℕ) (a : A) → number ≤ 15 → length (print number a) ≡ 1 + size a
  pub parse-shorter :
      (s : List ℕ) (a : A) (rest : List ℕ) → parse s ≡ some (a, rest) → length rest ≤ length s

-- The wire format as libprotobuf documents it: a field is a tag, eight times its number and its wire
-- type, and a value. A tag is read with whether it is below the cutoff of 127; at the end of the
-- input it is zero. `skip_field` gives the bytes of the field that it passes over. A double is the
-- number of its 64 bits. `read_message` lets a loop read the bytes of a message within another, which
-- it has to read to their end; `write_message` writes the size that is announced before the bytes.
pub record Wire : Type 1 where
  pub read_tag : List ℕ → ℕ × Bool × List ℕ
  pub string : Primitive read_tag (List ℕ) (λ s. length s < 2 ^ 31) 2
  pub int32 : Primitive read_tag ℕ (λ v. v < 2 ^ 32) 0
  pub uint32 : Primitive read_tag ℕ (λ v. v < 2 ^ 32) 0
  pub uint64 : Primitive read_tag ℕ (λ v. v < 2 ^ 64) 0
  pub double : Primitive read_tag ℕ (λ v. v < 2 ^ 64) 1
  pub skip_field : ℕ → List ℕ → Option (List ℕ × List ℕ)
  pub read_message : (F : Type 0) → (List ℕ → Merged F) → List ℕ → Option (Parsed F × List ℕ)
  pub all_are_initialized : (F : Type 0) → (F → Bool) → List (Parsed F) → Bool
  pub write_message : ℕ → ℕ → List ℕ → List ℕ
  pub message_size : ℕ → ℕ
  pub read_tag-end : read_tag [] ≡ (0, false, [])
  pub double_size : (v : ℕ) → double.size v ≡ 8
  pub message_lem :
      (F : Type 0) (merge : List ℕ → Merged F) (m : Parsed F) (number : ℕ) (body rest : List ℕ)
      → 1 ≤ number
      → number ≤ 15
      → length body < 2 ^ 31
      → merge body ≡ merged m []
      → (value : List ℕ) × (read_tag (write_message number (length body) body ++ rest)
          ≡ (number * 8 + 2, true, value))
        × (read_message F merge value ≡ some (m, rest))
  pub length-write_message :
      (number : ℕ) (body : List ℕ)
      → number ≤ 15
      → length (write_message number (length body) body) ≡ 1 + message_size (length body)
  pub read_tag-shorter : (s : List ℕ) → (read_tag s).0 ≢ 0 → length (read_tag s).2 < length s
  pub skip_field-shorter :
      (tag : ℕ) (s t rest : List ℕ) → skip_field tag s ≡ some (t, rest) → length rest ≤ length s
  pub read_message-shorter :
      (F : Type 0) (merge : List ℕ → Merged F) (s : List ℕ) (m : Parsed F) (rest : List ℕ)
      → read_message F merge s ≡ some (m, rest)
      → length rest ≤ length s

-- ReadPrimitive, ReadString or ReadMessage into a field: `goto failure`, or the value is stored.
abbrev pub set_field : {A F : Type 0} → (A → F) → Option (A × List ℕ) → Field F
set_field set none = failed
set_field set (some (a, rest)) = read (set a) rest

module _ (wire : Wire) {F : Type 0} (step : ℕ → F → List ℕ → Field F) where
  abbrev pub skipped :
      (Parsed F → List ℕ → Merged F) → Parsed F → Option (List ℕ × List ℕ) → Merged F
  skipped again m none = failure
  skipped again m (some (bytes, rest)) = again (record m { unknown = m.unknown ++ bytes }) rest

  abbrev pub handle_unusual :
      (Parsed F → List ℕ → Merged F) → ℕ → Parsed F → List ℕ → List ℕ → Merged F
  handle_unusual again tag m s rest =
      if tag == 0 then merged m s else skipped again m (wire.skip_field tag rest)

  abbrev pub by_field :
      (Parsed F → List ℕ → Merged F) → ℕ → Parsed F → List ℕ → List ℕ → Field F → Merged F
  by_field again tag m s rest unusual = handle_unusual again tag m s rest
  by_field again tag m s rest failed = failure
  by_field again tag m s rest (read x rest') = again (record m { fields = x }) rest'

  abbrev pub by_tag :
      (Parsed F → List ℕ → Merged F) → Parsed F → List ℕ → ℕ × Bool × List ℕ → Merged F
  by_tag again m s (tag, known, rest) =
      if known
      then by_field again tag m s rest (step tag m.fields rest)
      else handle_unusual again tag m s rest

  -- `for (;;)`
  unfoldable pub loop : ℕ → Parsed F → List ℕ → Merged F
  loop zero m s = no_fuel
  loop (suc fuel) m s = by_tag (λ m' s'. loop fuel m' s') m s (wire.read_tag s)

  -- MergePartialFromCodedStream over all bytes of an array.
  unfoldable pub merge_partial : Parsed F → List ℕ → Merged F
  merge_partial m s = loop (suc (length s)) m s
