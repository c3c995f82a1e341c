-- ===== src/Protobuf/TravelRecord.antt =====
-- bike.pb.cpp: tianyun::list_travel_records_response_travel_record.
use mathlib.Core.List.{append-nil}
use shared_bike_server.Base.{
  ℕ, ◌+◌, ◌/◌, ◌%◌, ◌≡◌, refl, ap, ◌∙◌, Bool, ◌&&◌, List, [], ◌++◌, Option, none, some, arith, ◌==◌,
  if◌then◌else◌, length, ◌≢◌, length-append,
}
use shared_bike_server.Protobuf.{
  Wire, Parsed, Field, unusual, merged, no_fuel, set_field, merge_partial,
}
use shared_bike_server.Protobuf.Fields.{
  other, other-none, is_set, or_zero, write_field, field_size, length-write_field,
}
use shared_bike_server.Protobuf.Total.{Shortens, merge_partial-Ends, case-shorter, field-shorter}
use shared_bike_server.Protobuf.Loop.{Small, Small64, loop-end, loop-field}

pub record TravelRecord : Type 0 where
  pub stm : Option ℕ
  pub duration : Option ℕ
  pub amount : Option ℕ

-- A new message, and one after Clear: no field is set.
abbrev pub clear : Parsed TravelRecord
clear = record { fields = record { stm = none; duration = none; amount = none }; unknown = [] }

unfoldable pub is_initialized : TravelRecord → Bool
is_initialized x = is_set x.stm && is_set x.duration && is_set x.amount

-- MergeFrom: the fields that are set there replace those that are here.
unfoldable pub merge_from : Parsed TravelRecord → Parsed TravelRecord → Parsed TravelRecord
merge_from from m = record {
  fields = record {
    stm = other from.fields.stm m.fields.stm;
    duration = other from.fields.duration m.fields.duration;
    amount = other from.fields.amount m.fields.amount;
  };
  unknown = m.unknown ++ from.unknown;
}

-- No unknown fields, and numbers of 32 or 64 bits.
abbrev pub IsPlain : Parsed TravelRecord → Type 0
IsPlain m =
    (m.unknown ≡ []) × Small64 m.fields.stm × Small m.fields.duration × Small m.fields.amount

module _ (wire : Wire) where
  -- The switch of MergePartialFromCodedStream.
  unfoldable pub step : ℕ → TravelRecord → List ℕ → Field TravelRecord
  step tag x rest =
      if tag / 8 == 1
      then (if tag % 256 == 8
          then set_field (λ v. record x { stm = some v }) (wire.uint64.parse rest)
          else unusual)
      else if tag / 8 == 2
      then (if tag % 256 == 16
          then set_field (λ v. record x { duration = some v }) (wire.uint32.parse rest)
          else unusual)
      else if tag / 8 == 3
      then (if tag % 256 == 24
          then set_field (λ v. record x { amount = some v }) (wire.uint32.parse rest)
          else unusual)
      else unusual

  -- SerializeWithCachedSizes, and the same into an array.
  unfoldable pub serialize : Parsed TravelRecord → List ℕ
  serialize m =
      write_field wire.uint64 1 m.fields.stm
      ++ (write_field wire.uint32 2 m.fields.duration
          ++ (write_field wire.uint32 3 m.fields.amount ++ m.unknown))

  unfoldable pub required_fields_byte_size_fallback : TravelRecord → ℕ
  required_fields_byte_size_fallback x =
      field_size wire.uint64 x.stm
      + field_size wire.uint32 x.duration
      + field_size wire.uint32 x.amount

  -- When all required fields are set their sizes are added up without looking at each bit.
  abbrev pub required_size : TravelRecord → ℕ
  required_size x =
      if is_set x.stm && is_set x.duration && is_set x.amount
      then (1 + wire.uint64.size (or_zero x.stm))
        + (1 + wire.uint32.size (or_zero x.duration))
        + (1 + wire.uint32.size (or_zero x.amount))
      else required_fields_byte_size_fallback x

  unfoldable pub byte_size_long : Parsed TravelRecord → ℕ
  byte_size_long m = length m.unknown + required_size m.fields

  -- On each way the sizes of the required fields are those of what is written for them.
  required_size-fields :
      (x : TravelRecord)
      → required_size x
        ≡ field_size wire.uint64 x.stm
          + field_size wire.uint32 x.duration
          + field_size wire.uint32 x.amount
  unfolding required_fields_byte_size_fallback
  required_size-fields x = by_bits x.stm x.duration x.amount
    where
      by_bits :
          (stm : Option ℕ) (duration : Option ℕ) (amount : Option ℕ)
          → (if is_set stm && is_set duration && is_set amount
              then (1 + wire.uint64.size (or_zero stm))
                + (1 + wire.uint32.size (or_zero duration))
                + (1 + wire.uint32.size (or_zero amount))
              else field_size wire.uint64 stm
                + field_size wire.uint32 duration
                + field_size wire.uint32 amount)
            ≡ field_size wire.uint64 stm
              + field_size wire.uint32 duration
              + field_size wire.uint32 amount
      by_bits none duration amount = refl
      by_bits (some a0) none amount = refl
      by_bits (some a0) (some a1) none = refl
      by_bits (some a0) (some a1) (some a2) = refl

  -- The size that is announced for a record of a travel is that of its bytes, whichever fields are
  -- set, and on each way of computing it.
  pub travel_record_byte_size_long :
      (m : Parsed TravelRecord) → byte_size_long m ≡ length (serialize m)
  unfolding byte_size_long serialize required_fields_byte_size_fallback
  travel_record_byte_size_long m =
      rw (length-append, length-append, length-append)
        (omega (
          arith,
          required_size-fields m.fields,
          length-write_field wire.uint64 1 m.fields.stm (omega arith),
          length-write_field wire.uint32 2 m.fields.duration (omega arith),
          length-write_field wire.uint32 3 m.fields.amount (omega arith),
        ))

  -- The bytes of a record of a travel, whichever of its fields are set, are read into a message as
  -- MergeFrom merges the two: its fields replace those that are there, and the others stay. The
  -- condition is that its numbers have 32 or 64 bits.
  pub merge_partial-merge_from_travel_record :
      (x : TravelRecord) (m : Parsed TravelRecord)
      → Small64 x.stm
      → Small x.duration
      → Small x.amount
      → merge_partial wire step m (serialize (record { fields = x; unknown = [] }))
        ≡ merged (merge_from (record { fields = x; unknown = [] }) m) []
  unfolding merge_partial serialize step merge_from
  merge_partial-merge_from_travel_record x m h1 h2 h3 =
      loop-field wire step wire.uint64 1 x.stm _ _
        (λ o. record m.fields { stm = other o m.fields.stm }) (omega arith) (omega arith) h1
        (λ rest. refl) (omega arith)
        (λ n1 s1.
          (loop-field wire step wire.uint32 2 x.duration _ _
            (λ o. record m.fields {
              stm = other x.stm m.fields.stm;
              duration = other o m.fields.duration;
            })
            (omega arith) (omega arith) h2 (λ rest. refl) s1
            (λ n2 s2.
              (loop-field wire step wire.uint32 3 x.amount _ _
                (λ o. record m.fields {
                  stm = other x.stm m.fields.stm;
                  duration = other x.duration m.fields.duration;
                  amount = other o m.fields.amount;
                })
                (omega arith) (omega arith) h3 (λ rest. refl) s2
                (λ n3 s3.
                  (rw (append-nil m.unknown) (
                    loop-end wire step n3
                      (record {
                        fields = record {
                          stm = other x.stm m.fields.stm;
                          duration = other x.duration m.fields.duration;
                          amount = other x.amount m.fields.amount;
                        };
                        unknown = m.unknown;
                      })
                      s3)))))))

  pub IsPlain-reads :
      (m : Parsed TravelRecord)
      → IsPlain m
      → merge_partial wire step clear (serialize m) ≡ merged m []
  unfolding merge_from
  IsPlain-reads m (known, h1, h2, h3) =
      let same : m ≡ record { fields = m.fields; unknown = [] } = rw known refl in
      ap (λ r. merge_partial wire step clear (serialize r)) same
      ∙ merge_partial-merge_from_travel_record m.fields clear h1 h2 h3
      ∙ rw
          (other-none m.fields.stm, other-none m.fields.duration, other-none m.fields.amount, known)
          refl

  step-Shortens : Shortens wire step
  unfolding step
  step-Shortens tag x s x' rest e =
      case-shorter wire tag 1 8 s x' rest _ _ (omega arith)
        (field-shorter wire wire.uint64 (λ v. record x { stm = some v }) s x' rest)
        (λ e1.
          case-shorter wire tag 2 16 s x' rest _ _ (omega arith)
            (field-shorter wire wire.uint32 (λ v. record x { duration = some v }) s x' rest)
            (λ e2.
              case-shorter wire tag 3 24 s x' rest _ _ (omega arith)
                (field-shorter wire wire.uint32 (λ v. record x { amount = some v }) s x' rest)
                (λ e3. absurd cc) e2)
            e1)
        e

  -- The loop that reads a record of a travel ends on every input, in at most as many turns as there
  -- are bytes and one more.
  pub merge_partial_travel_record_total :
      (m : Parsed TravelRecord) (s : List ℕ) → merge_partial wire step m s ≢ no_fuel
  merge_partial_travel_record_total m s = merge_partial-Ends wire step m s step-Shortens
