-- ===== src/Protobuf/RechargeRequest.antt =====
-- bike.pb.cpp: tianyun::recharge_request.
use mathlib.Core.List.{append-nil}
use shared_bike_server.Base.{
  ℕ, ◌+◌, ◌/◌, ◌%◌, ◌≡◌, refl, Bool, ◌&&◌, List, [], ◌++◌, Option, none, some, arith, ◌==◌,
  if◌then◌else◌, length, ◌≢◌, length-append,
}
use shared_bike_server.Protobuf.{
  Wire, Parsed, Field, unusual, merged, no_fuel, set_field, merge_partial,
}
use shared_bike_server.Protobuf.Fields.{
  other, is_set, or_zero, or_empty, write_field, field_size, length-write_field,
}
use shared_bike_server.Protobuf.Total.{Shortens, merge_partial-Ends, case-shorter, field-shorter}
use shared_bike_server.Protobuf.Loop.{Short, Small, loop-end, loop-field}

pub record RechargeRequest : Type 0 where
  pub mobile : Option (List ℕ)
  pub amount : Option ℕ

-- A new message, and one after Clear: no field is set.
abbrev pub clear : Parsed RechargeRequest
clear = record { fields = record { mobile = none; amount = none }; unknown = [] }

unfoldable pub is_initialized : RechargeRequest → Bool
is_initialized x = is_set x.mobile && is_set x.amount

-- MergeFrom: the fields that are set there replace those that are here.
unfoldable pub merge_from : Parsed RechargeRequest → Parsed RechargeRequest → Parsed RechargeRequest
merge_from from m = record {
  fields = record {
    mobile = other from.fields.mobile m.fields.mobile;
    amount = other from.fields.amount m.fields.amount;
  };
  unknown = m.unknown ++ from.unknown;
}

module _ (wire : Wire) where
  -- The switch of MergePartialFromCodedStream.
  unfoldable pub step : ℕ → RechargeRequest → List ℕ → Field RechargeRequest
  step tag x rest =
      if tag / 8 == 1
      then (if tag % 256 == 10
          then set_field (λ s. record x { mobile = some s }) (wire.string.parse rest)
          else unusual)
      else if tag / 8 == 2
      then (if tag % 256 == 16
          then set_field (λ v. record x { amount = some v }) (wire.int32.parse rest)
          else unusual)
      else unusual

  -- SerializeWithCachedSizes, and the same into an array.
  unfoldable pub serialize : Parsed RechargeRequest → List ℕ
  serialize m =
      write_field wire.string 1 m.fields.mobile
      ++ (write_field wire.int32 2 m.fields.amount ++ m.unknown)

  unfoldable pub required_fields_byte_size_fallback : RechargeRequest → ℕ
  required_fields_byte_size_fallback x =
      field_size wire.string x.mobile + field_size wire.int32 x.amount

  -- When all required fields are set their sizes are added up without looking at each bit.
  abbrev pub required_size : RechargeRequest → ℕ
  required_size x =
      if is_set x.mobile && is_set x.amount
      then (1 + wire.string.size (or_empty x.mobile)) + (1 + wire.int32.size (or_zero x.amount))
      else required_fields_byte_size_fallback x

  unfoldable pub byte_size_long : Parsed RechargeRequest → ℕ
  byte_size_long m = length m.unknown + required_size m.fields

  -- On each way the sizes of the required fields are those of what is written for them.
  required_size-fields :
      (x : RechargeRequest)
      → required_size x ≡ field_size wire.string x.mobile + field_size wire.int32 x.amount
  unfolding required_fields_byte_size_fallback
  required_size-fields x = by_bits x.mobile x.amount
    where
      by_bits :
          (mobile : Option (List ℕ)) (amount : Option ℕ)
          → (if is_set mobile && is_set amount
              then (1 + wire.string.size (or_empty mobile)) + (1 + wire.int32.size (or_zero amount))
              else field_size wire.string mobile + field_size wire.int32 amount)
            ≡ field_size wire.string mobile + field_size wire.int32 amount
      by_bits none amount = refl
      by_bits (some a0) none = refl
      by_bits (some a0) (some a1) = refl

  -- The size that is announced for a recharge request is that of its bytes, whichever fields are
  -- set, and on each way of computing it.
  pub recharge_request_byte_size_long :
      (m : Parsed RechargeRequest) → byte_size_long m ≡ length (serialize m)
  unfolding byte_size_long serialize required_fields_byte_size_fallback
  recharge_request_byte_size_long m =
      rw (length-append, length-append)
        (omega (
          arith,
          required_size-fields m.fields,
          length-write_field wire.string 1 m.fields.mobile (omega arith),
          length-write_field wire.int32 2 m.fields.amount (omega arith),
        ))

  -- The bytes of a recharge request, whichever of its fields are set, are read into a message as
  -- MergeFrom merges the two: its fields replace those that are there, and the others stay. The
  -- condition is that its texts are shorter than 2 GB and its numbers have 32 bits.
  pub merge_partial-merge_from_recharge_request :
      (x : RechargeRequest) (m : Parsed RechargeRequest)
      → Short x.mobile
      → Small x.amount
      → merge_partial wire step m (serialize (record { fields = x; unknown = [] }))
        ≡ merged (merge_from (record { fields = x; unknown = [] }) m) []
  unfolding merge_partial serialize step merge_from
  merge_partial-merge_from_recharge_request x m h1 h2 =
      loop-field wire step wire.string 1 x.mobile _ _
        (λ o. record m.fields { mobile = other o m.fields.mobile }) (omega arith) (omega arith) h1
        (λ rest. refl) (omega arith)
        (λ n1 s1.
          (loop-field wire step wire.int32 2 x.amount _ _
            (λ o. record m.fields {
              mobile = other x.mobile m.fields.mobile;
              amount = other o m.fields.amount;
            })
            (omega arith) (omega arith) h2 (λ rest. refl) s1
            (λ n2 s2.
              (rw (append-nil m.unknown) (
                loop-end wire step n2
                  (record {
                    fields = record {
                      mobile = other x.mobile m.fields.mobile;
                      amount = other x.amount m.fields.amount;
                    };
                    unknown = m.unknown;
                  })
                  s2)))))

  step-Shortens : Shortens wire step
  unfolding step
  step-Shortens tag x s x' rest e =
      case-shorter wire tag 1 10 s x' rest _ _ (omega arith)
        (field-shorter wire wire.string (λ s. record x { mobile = some s }) s x' rest)
        (λ e1.
          case-shorter wire tag 2 16 s x' rest _ _ (omega arith)
            (field-shorter wire wire.int32 (λ v. record x { amount = some v }) s x' rest)
            (λ e2. absurd cc) e1)
        e

  -- The loop that reads a recharge request ends on every input, in at most as many turns as there
  -- are bytes and one more.
  pub merge_partial_recharge_request_total :
      (m : Parsed RechargeRequest) (s : List ℕ) → merge_partial wire step m s ≢ no_fuel
  merge_partial_recharge_request_total m s = merge_partial-Ends wire step m s step-Shortens
