-- ===== src/Protobuf/MobileResponse.antt =====
-- bike.pb.cpp: tianyun::mobile_response, whose field `data` is called reason here.
use mathlib.Core.List.{append-nil}
use shared_bike_server.Base.{
  ℕ, ◌+◌, ◌/◌, ◌%◌, ◌≡◌, refl, Bool, ◌&&◌, List, [], ◌++◌, Option, none, some, arith, ◌==◌,
  if◌then◌else◌, length, ◌≢◌, length-append,
}
use shared_bike_server.Protobuf.{
  Wire, Parsed, Field, unusual, merged, no_fuel, set_field, merge_partial,
}
use shared_bike_server.Protobuf.Fields.{
  other, is_set, or_zero, or_empty, write_field, field_size, length-write_field,
}
use shared_bike_server.Protobuf.Total.{Shortens, merge_partial-Ends, case-shorter, field-shorter}
use shared_bike_server.Protobuf.Loop.{Short, Small, loop-end, loop-field}

pub record MobileResponse : Type 0 where
  pub code : Option ℕ
  pub icode : Option ℕ
  pub reason : Option (List ℕ)

-- A new message, and one after Clear: no field is set.
abbrev pub clear : Parsed MobileResponse
clear = record { fields = record { code = none; icode = none; reason = none }; unknown = [] }

unfoldable pub is_initialized : MobileResponse → Bool
is_initialized x = is_set x.code && is_set x.icode

-- MergeFrom: the fields that are set there replace those that are here.
unfoldable pub merge_from : Parsed MobileResponse → Parsed MobileResponse → Parsed MobileResponse
merge_from from m = record {
  fields = record {
    code = other from.fields.code m.fields.code;
    icode = other from.fields.icode m.fields.icode;
    reason = other from.fields.reason m.fields.reason;
  };
  unknown = m.unknown ++ from.unknown;
}

-- The accessors that are in use.
abbrev pub set_code : ℕ → Parsed MobileResponse → Parsed MobileResponse
set_code v m = record m { fields = record m.fields { code = some v } }

abbrev pub get_code : Parsed MobileResponse → ℕ
get_code m = or_zero m.fields.code

abbrev pub set_icode : ℕ → Parsed MobileResponse → Parsed MobileResponse
set_icode v m = record m { fields = record m.fields { icode = some v } }

abbrev pub get_icode : Parsed MobileResponse → ℕ
get_icode m = or_zero m.fields.icode

abbrev pub set_reason : List ℕ → Parsed MobileResponse → Parsed MobileResponse
set_reason s m = record m { fields = record m.fields { reason = some s } }

abbrev pub get_reason : Parsed MobileResponse → List ℕ
get_reason m = or_empty m.fields.reason

module _ (wire : Wire) where
  -- The switch of MergePartialFromCodedStream.
  unfoldable pub step : ℕ → MobileResponse → List ℕ → Field MobileResponse
  step tag x rest =
      if tag / 8 == 1
      then (if tag % 256 == 8
          then set_field (λ v. record x { code = some v }) (wire.int32.parse rest)
          else unusual)
      else if tag / 8 == 2
      then (if tag % 256 == 16
          then set_field (λ v. record x { icode = some v }) (wire.int32.parse rest)
          else unusual)
      else if tag / 8 == 3
      then (if tag % 256 == 26
          then set_field (λ s. record x { reason = some s }) (wire.string.parse rest)
          else unusual)
      else unusual

  -- SerializeWithCachedSizes, and the same into an array.
  unfoldable pub serialize : Parsed MobileResponse → List ℕ
  serialize m =
      write_field wire.int32 1 m.fields.code
      ++ (write_field wire.int32 2 m.fields.icode
          ++ (write_field wire.string 3 m.fields.reason ++ m.unknown))

  unfoldable pub required_fields_byte_size_fallback : MobileResponse → ℕ
  required_fields_byte_size_fallback x =
      field_size wire.int32 x.code + field_size wire.int32 x.icode

  -- When all required fields are set their sizes are added up without looking at each bit.
  abbrev pub required_size : MobileResponse → ℕ
  required_size x =
      if is_set x.code && is_set x.icode
      then (1 + wire.int32.size (or_zero x.code)) + (1 + wire.int32.size (or_zero x.icode))
      else required_fields_byte_size_fallback x

  unfoldable pub byte_size_long : Parsed MobileResponse → ℕ
  byte_size_long m =
      length m.unknown + required_size m.fields + field_size wire.string m.fields.reason

  -- On each way the sizes of the required fields are those of what is written for them.
  required_size-fields :
      (x : MobileResponse)
      → required_size x ≡ field_size wire.int32 x.code + field_size wire.int32 x.icode
  unfolding required_fields_byte_size_fallback
  required_size-fields x = by_bits x.code x.icode
    where
      by_bits :
          (code : Option ℕ) (icode : Option ℕ)
          → (if is_set code && is_set icode
              then (1 + wire.int32.size (or_zero code)) + (1 + wire.int32.size (or_zero icode))
              else field_size wire.int32 code + field_size wire.int32 icode)
            ≡ field_size wire.int32 code + field_size wire.int32 icode
      by_bits none icode = refl
      by_bits (some a0) none = refl
      by_bits (some a0) (some a1) = refl

  -- The size that is announced for a mobile response is that of its bytes, whichever fields are
  -- set, and on each way of computing it.
  pub mobile_response_byte_size_long :
      (m : Parsed MobileResponse) → byte_size_long m ≡ length (serialize m)
  unfolding byte_size_long serialize required_fields_byte_size_fallback
  mobile_response_byte_size_long m =
      rw (length-append, length-append, length-append)
        (omega (
          arith,
          required_size-fields m.fields,
          length-write_field wire.int32 1 m.fields.code (omega arith),
          length-write_field wire.int32 2 m.fields.icode (omega arith),
          length-write_field wire.string 3 m.fields.reason (omega arith),
        ))

  -- The bytes of a mobile response, whichever of its fields are set, are read into a message as
  -- MergeFrom merges the two: its fields replace those that are there, and the others stay. The
  -- condition is that its texts are shorter than 2 GB and its numbers have 32 bits.
  pub merge_partial-merge_from_mobile_response :
      (x : MobileResponse) (m : Parsed MobileResponse)
      → Small x.code
      → Small x.icode
      → Short x.reason
      → merge_partial wire step m (serialize (record { fields = x; unknown = [] }))
        ≡ merged (merge_from (record { fields = x; unknown = [] }) m) []
  unfolding merge_partial serialize step merge_from
  merge_partial-merge_from_mobile_response x m h1 h2 h3 =
      loop-field wire step wire.int32 1 x.code _ _
        (λ o. record m.fields { code = other o m.fields.code }) (omega arith) (omega arith) h1
        (λ rest. refl) (omega arith)
        (λ n1 s1.
          (loop-field wire step wire.int32 2 x.icode _ _
            (λ o. record m.fields {
              code = other x.code m.fields.code;
              icode = other o m.fields.icode;
            })
            (omega arith) (omega arith) h2 (λ rest. refl) s1
            (λ n2 s2.
              (loop-field wire step wire.string 3 x.reason _ _
                (λ o. record m.fields {
                  code = other x.code m.fields.code;
                  icode = other x.icode m.fields.icode;
                  reason = other o m.fields.reason;
                })
                (omega arith) (omega arith) h3 (λ rest. refl) s2
                (λ n3 s3.
                  (rw (append-nil m.unknown) (
                    loop-end wire step n3
                      (record {
                        fields = record {
                          code = other x.code m.fields.code;
                          icode = other x.icode m.fields.icode;
                          reason = other x.reason m.fields.reason;
                        };
                        unknown = m.unknown;
                      })
                      s3)))))))

  step-Shortens : Shortens wire step
  unfolding step
  step-Shortens tag x s x' rest e =
      case-shorter wire tag 1 8 s x' rest _ _ (omega arith)
        (field-shorter wire wire.int32 (λ v. record x { code = some v }) s x' rest)
        (λ e1.
          case-shorter wire tag 2 16 s x' rest _ _ (omega arith)
            (field-shorter wire wire.int32 (λ v. record x { icode = some v }) s x' rest)
            (λ e2.
              case-shorter wire tag 3 26 s x' rest _ _ (omega arith)
                (field-shorter wire wire.string (λ s. record x { reason = some s }) s x' rest)
                (λ e3. absurd cc) e2)
            e1)
        e

  -- The loop that reads a mobile response ends on every input, in at most as many turns as there
  -- are bytes and one more.
  pub merge_partial_mobile_response_total :
      (m : Parsed MobileResponse) (s : List ℕ) → merge_partial wire step m s ≢ no_fuel
  merge_partial_mobile_response_total m s = merge_partial-Ends wire step m s step-Shortens
