-- ===== src/Protobuf/AccountRecord.antt =====
-- bike.pb.cpp: tianyun::list_account_records_response_account_record.
use mathlib.Core.List.{append-nil}
use shared_bike_server.Base.{
  ℕ, ◌+◌, ◌/◌, ◌%◌, ◌≡◌, refl, ap, ◌∙◌, Bool, ◌&&◌, List, [], ◌++◌, Option, none, some, arith, ◌==◌,
  if◌then◌else◌, length, ◌≢◌, length-append,
}
use shared_bike_server.Protobuf.{
  Wire, Parsed, Field, unusual, merged, no_fuel, set_field, merge_partial,
}
use shared_bike_server.Protobuf.Fields.{
  other, other-none, is_set, or_zero, write_field, field_size, length-write_field,
}
use shared_bike_server.Protobuf.Total.{Shortens, merge_partial-Ends, case-shorter, field-shorter}
use shared_bike_server.Protobuf.Loop.{Small, Small64, loop-end, loop-field}

pub record AccountRecord : Type 0 where
  pub type : Option ℕ
  pub limit : Option ℕ
  pub timestamp : Option ℕ

-- A new message, and one after Clear: no field is set.
abbrev pub clear : Parsed AccountRecord
clear = record { fields = record { type = none; limit = none; timestamp = none }; unknown = [] }

unfoldable pub is_initialized : AccountRecord → Bool
is_initialized x = is_set x.type && is_set x.limit && is_set x.timestamp

-- MergeFrom: the fields that are set there replace those that are here.
unfoldable pub merge_from : Parsed AccountRecord → Parsed AccountRecord → Parsed AccountRecord
merge_from from m = record {
  fields = record {
    type = other from.fields.type m.fields.type;
    limit = other from.fields.limit m.fields.limit;
    timestamp = other from.fields.timestamp m.fields.timestamp;
  };
  unknown = m.unknown ++ from.unknown;
}

-- No unknown fields, and numbers of 32 or 64 bits.
abbrev pub IsPlain : Parsed AccountRecord → Type 0
IsPlain m =
    (m.unknown ≡ []) × Small m.fields.type × Small m.fields.limit × Small64 m.fields.timestamp

module _ (wire : Wire) where
  -- The switch of MergePartialFromCodedStream.
  unfoldable pub step : ℕ → AccountRecord → List ℕ → Field AccountRecord
  step tag x rest =
      if tag / 8 == 1
      then (if tag % 256 == 8
          then set_field (λ v. record x { type = some v }) (wire.int32.parse rest)
          else unusual)
      else if tag / 8 == 2
      then (if tag % 256 == 16
          then set_field (λ v. record x { limit = some v }) (wire.int32.parse rest)
          else unusual)
      else if tag / 8 == 3
      then (if tag % 256 == 24
          then set_field (λ v. record x { timestamp = some v }) (wire.uint64.parse rest)
          else unusual)
      else unusual

  -- SerializeWithCachedSizes, and the same into an array.
  unfoldable pub serialize : Parsed AccountRecord → List ℕ
  serialize m =
      write_field wire.int32 1 m.fields.type
      ++ (write_field wire.int32 2 m.fields.limit
          ++ (write_field wire.uint64 3 m.fields.timestamp ++ m.unknown))

  unfoldable pub required_fields_byte_size_fallback : AccountRecord → ℕ
  required_fields_byte_size_fallback x =
      field_size wire.int32 x.type
      + field_size wire.int32 x.limit
      + field_size wire.uint64 x.timestamp

  -- When all required fields are set their sizes are added up without looking at each bit.
  abbrev pub required_size : AccountRecord → ℕ
  required_size x =
      if is_set x.type && is_set x.limit && is_set x.timestamp
      then (1 + wire.int32.size (or_zero x.type))
        + (1 + wire.int32.size (or_zero x.limit))
        + (1 + wire.uint64.size (or_zero x.timestamp))
      else required_fields_byte_size_fallback x

  unfoldable pub byte_size_long : Parsed AccountRecord → ℕ
  byte_size_long m = length m.unknown + required_size m.fields

  -- On each way the sizes of the required fields are those of what is written for them.
  required_size-fields :
      (x : AccountRecord)
      → required_size x
        ≡ field_size wire.int32 x.type
          + field_size wire.int32 x.limit
          + field_size wire.uint64 x.timestamp
  unfolding required_fields_byte_size_fallback
  required_size-fields x = by_bits x.type x.limit x.timestamp
    where
      by_bits :
          (type : Option ℕ) (limit : Option ℕ) (timestamp : Option ℕ)
          → (if is_set type && is_set limit && is_set timestamp
              then (1 + wire.int32.size (or_zero type))
                + (1 + wire.int32.size (or_zero limit))
                + (1 + wire.uint64.size (or_zero timestamp))
              else field_size wire.int32 type
                + field_size wire.int32 limit
                + field_size wire.uint64 timestamp)
            ≡ field_size wire.int32 type
              + field_size wire.int32 limit
              + field_size wire.uint64 timestamp
      by_bits none limit timestamp = refl
      by_bits (some a0) none timestamp = refl
      by_bits (some a0) (some a1) none = refl
      by_bits (some a0) (some a1) (some a2) = refl

  -- The size that is announced for a record of an account is that of its bytes, whichever fields are
  -- set, and on each way of computing it.
  pub account_record_byte_size_long :
      (m : Parsed AccountRecord) → byte_size_long m ≡ length (serialize m)
  unfolding byte_size_long serialize required_fields_byte_size_fallback
  account_record_byte_size_long m =
      rw (length-append, length-append, length-append)
        (omega (
          arith,
          required_size-fields m.fields,
          length-write_field wire.int32 1 m.fields.type (omega arith),
          length-write_field wire.int32 2 m.fields.limit (omega arith),
          length-write_field wire.uint64 3 m.fields.timestamp (omega arith),
        ))

  -- The bytes of a record of an account, whichever of its fields are set, are read into a message
  -- as MergeFrom merges the two: its fields replace those that are there, and the others stay. The
  -- condition is that its numbers have 32 or 64 bits.
  pub merge_partial-merge_from_account_record :
      (x : AccountRecord) (m : Parsed AccountRecord)
      → Small x.type
      → Small x.limit
      → Small64 x.timestamp
      → merge_partial wire step m (serialize (record { fields = x; unknown = [] }))
        ≡ merged (merge_from (record { fields = x; unknown = [] }) m) []
  unfolding merge_partial serialize step merge_from
  merge_partial-merge_from_account_record x m h1 h2 h3 =
      loop-field wire step wire.int32 1 x.type _ _
        (λ o. record m.fields { type = other o m.fields.type }) (omega arith) (omega arith) h1
        (λ rest. refl) (omega arith)
        (λ n1 s1.
          (loop-field wire step wire.int32 2 x.limit _ _
            (λ o. record m.fields {
              type = other x.type m.fields.type;
              limit = other o m.fields.limit;
            })
            (omega arith) (omega arith) h2 (λ rest. refl) s1
            (λ n2 s2.
              (loop-field wire step wire.uint64 3 x.timestamp _ _
                (λ o. record m.fields {
                  type = other x.type m.fields.type;
                  limit = other x.limit m.fields.limit;
                  timestamp = other o m.fields.timestamp;
                })
                (omega arith) (omega arith) h3 (λ rest. refl) s2
                (λ n3 s3.
                  (rw (append-nil m.unknown) (
                    loop-end wire step n3
                      (record {
                        fields = record {
                          type = other x.type m.fields.type;
                          limit = other x.limit m.fields.limit;
                          timestamp = other x.timestamp m.fields.timestamp;
                        };
                        unknown = m.unknown;
                      })
                      s3)))))))

  pub IsPlain-reads :
      (m : Parsed AccountRecord)
      → IsPlain m
      → merge_partial wire step clear (serialize m) ≡ merged m []
  unfolding merge_from
  IsPlain-reads m (known, h1, h2, h3) =
      let same : m ≡ record { fields = m.fields; unknown = [] } = rw known refl in
      ap (λ r. merge_partial wire step clear (serialize r)) same
      ∙ merge_partial-merge_from_account_record m.fields clear h1 h2 h3
      ∙ rw
          (
            other-none m.fields.type,
            other-none m.fields.limit,
            other-none m.fields.timestamp,
            known,
          )
          refl

  step-Shortens : Shortens wire step
  unfolding step
  step-Shortens tag x s x' rest e =
      case-shorter wire tag 1 8 s x' rest _ _ (omega arith)
        (field-shorter wire wire.int32 (λ v. record x { type = some v }) s x' rest)
        (λ e1.
          case-shorter wire tag 2 16 s x' rest _ _ (omega arith)
            (field-shorter wire wire.int32 (λ v. record x { limit = some v }) s x' rest)
            (λ e2.
              case-shorter wire tag 3 24 s x' rest _ _ (omega arith)
                (field-shorter wire wire.uint64 (λ v. record x { timestamp = some v }) s x' rest)
                (λ e3. absurd cc) e2)
            e1)
        e

  -- The loop that reads a record of an account ends on every input, in at most as many turns as there
  -- are bytes and one more.
  pub merge_partial_account_record_total :
      (m : Parsed AccountRecord) (s : List ℕ) → merge_partial wire step m s ≢ no_fuel
  merge_partial_account_record_total m s = merge_partial-Ends wire step m s step-Shortens
