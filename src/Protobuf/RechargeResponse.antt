-- ===== src/Protobuf/RechargeResponse.antt =====
-- bike.pb.cpp: tianyun::recharge_response.
use mathlib.Core.List.{append-nil}
use shared_bike_server.Base.{
  ℕ, ◌+◌, ◌/◌, ◌%◌, ◌≡◌, refl, Bool, ◌&&◌, List, [], ◌++◌, Option, none, some, arith, ◌==◌,
  if◌then◌else◌, length, ◌≢◌, length-append,
}
use shared_bike_server.Protobuf.{
  Wire, Parsed, Field, unusual, merged, no_fuel, set_field, merge_partial,
}
use shared_bike_server.Protobuf.Fields.{
  other, is_set, or_zero, write_field, field_size, length-write_field,
}
use shared_bike_server.Protobuf.Total.{Shortens, merge_partial-Ends, case-shorter, field-shorter}
use shared_bike_server.Protobuf.Loop.{Short, Small, loop-end, loop-field}

pub record RechargeResponse : Type 0 where
  pub code : Option ℕ
  pub desc : Option (List ℕ)
  pub balance : Option ℕ

-- A new message, and one after Clear: no field is set.
abbrev pub clear : Parsed RechargeResponse
clear = record { fields = record { code = none; desc = none; balance = none }; unknown = [] }

unfoldable pub is_initialized : RechargeResponse → Bool
is_initialized x = is_set x.code && is_set x.balance

-- MergeFrom: the fields that are set there replace those that are here.
unfoldable pub merge_from :
    Parsed RechargeResponse → Parsed RechargeResponse → Parsed RechargeResponse
merge_from from m = record {
  fields = record {
    code = other from.fields.code m.fields.code;
    desc = other from.fields.desc m.fields.desc;
    balance = other from.fields.balance m.fields.balance;
  };
  unknown = m.unknown ++ from.unknown;
}

module _ (wire : Wire) where
  -- The switch of MergePartialFromCodedStream.
  unfoldable pub step : ℕ → RechargeResponse → List ℕ → Field RechargeResponse
  step tag x rest =
      if tag / 8 == 1
      then (if tag % 256 == 8
          then set_field (λ v. record x { code = some v }) (wire.int32.parse rest)
          else unusual)
      else if tag / 8 == 2
      then (if tag % 256 == 18
          then set_field (λ s. record x { desc = some s }) (wire.string.parse rest)
          else unusual)
      else if tag / 8 == 3
      then (if tag % 256 == 24
          then set_field (λ v. record x { balance = some v }) (wire.int32.parse rest)
          else unusual)
      else unusual

  -- SerializeWithCachedSizes, and the same into an array.
  unfoldable pub serialize : Parsed RechargeResponse → List ℕ
  serialize m =
      write_field wire.int32 1 m.fields.code
      ++ (write_field wire.string 2 m.fields.desc
          ++ (write_field wire.int32 3 m.fields.balance ++ m.unknown))

  unfoldable pub required_fields_byte_size_fallback : RechargeResponse → ℕ
  required_fields_byte_size_fallback x =
      field_size wire.int32 x.code + field_size wire.int32 x.balance

  -- When all required fields are set their sizes are added up without looking at each bit.
  abbrev pub required_size : RechargeResponse → ℕ
  required_size x =
      if is_set x.code && is_set x.balance
      then (1 + wire.int32.size (or_zero x.code)) + (1 + wire.int32.size (or_zero x.balance))
      else required_fields_byte_size_fallback x

  unfoldable pub byte_size_long : Parsed RechargeResponse → ℕ
  byte_size_long m =
      length m.unknown + required_size m.fields + field_size wire.string m.fields.desc

  -- On each way the sizes of the required fields are those of what is written for them.
  required_size-fields :
      (x : RechargeResponse)
      → required_size x ≡ field_size wire.int32 x.code + field_size wire.int32 x.balance
  unfolding required_fields_byte_size_fallback
  required_size-fields x = by_bits x.code x.balance
    where
      by_bits :
          (code : Option ℕ) (balance : Option ℕ)
          → (if is_set code && is_set balance
              then (1 + wire.int32.size (or_zero code)) + (1 + wire.int32.size (or_zero balance))
              else field_size wire.int32 code + field_size wire.int32 balance)
            ≡ field_size wire.int32 code + field_size wire.int32 balance
      by_bits none balance = refl
      by_bits (some a0) none = refl
      by_bits (some a0) (some a1) = refl

  -- The size that is announced for a recharge response is that of its bytes, whichever fields are
  -- set, and on each way of computing it.
  pub recharge_response_byte_size_long :
      (m : Parsed RechargeResponse) → byte_size_long m ≡ length (serialize m)
  unfolding byte_size_long serialize required_fields_byte_size_fallback
  recharge_response_byte_size_long m =
      rw (length-append, length-append, length-append)
        (omega (
          arith,
          required_size-fields m.fields,
          length-write_field wire.int32 1 m.fields.code (omega arith),
          length-write_field wire.string 2 m.fields.desc (omega arith),
          length-write_field wire.int32 3 m.fields.balance (omega arith),
        ))

  -- The bytes of a recharge response, whichever of its fields are set, are read into a message as
  -- MergeFrom merges the two: its fields replace those that are there, and the others stay. The
  -- condition is that its texts are shorter than 2 GB and its numbers have 32 bits.
  pub merge_partial-merge_from_recharge_response :
      (x : RechargeResponse) (m : Parsed RechargeResponse)
      → Small x.code
      → Short x.desc
      → Small x.balance
      → merge_partial wire step m (serialize (record { fields = x; unknown = [] }))
        ≡ merged (merge_from (record { fields = x; unknown = [] }) m) []
  unfolding merge_partial serialize step merge_from
  merge_partial-merge_from_recharge_response x m h1 h2 h3 =
      loop-field wire step wire.int32 1 x.code _ _
        (λ o. record m.fields { code = other o m.fields.code }) (omega arith) (omega arith) h1
        (λ rest. refl) (omega arith)
        (λ n1 s1.
          (loop-field wire step wire.string 2 x.desc _ _
            (λ o. record m.fields {
              code = other x.code m.fields.code;
              desc = other o m.fields.desc;
            })
            (omega arith) (omega arith) h2 (λ rest. refl) s1
            (λ n2 s2.
              (loop-field wire step wire.int32 3 x.balance _ _
                (λ o. record m.fields {
                  code = other x.code m.fields.code;
                  desc = other x.desc m.fields.desc;
                  balance = other o m.fields.balance;
                })
                (omega arith) (omega arith) h3 (λ rest. refl) s2
                (λ n3 s3.
                  (rw (append-nil m.unknown) (
                    loop-end wire step n3
                      (record {
                        fields = record {
                          code = other x.code m.fields.code;
                          desc = other x.desc m.fields.desc;
                          balance = other x.balance m.fields.balance;
                        };
                        unknown = m.unknown;
                      })
                      s3)))))))

  step-Shortens : Shortens wire step
  unfolding step
  step-Shortens tag x s x' rest e =
      case-shorter wire tag 1 8 s x' rest _ _ (omega arith)
        (field-shorter wire wire.int32 (λ v. record x { code = some v }) s x' rest)
        (λ e1.
          case-shorter wire tag 2 18 s x' rest _ _ (omega arith)
            (field-shorter wire wire.string (λ s. record x { desc = some s }) s x' rest)
            (λ e2.
              case-shorter wire tag 3 24 s x' rest _ _ (omega arith)
                (field-shorter wire wire.int32 (λ v. record x { balance = some v }) s x' rest)
                (λ e3. absurd cc) e2)
            e1)
        e

  -- The loop that reads a recharge response ends on every input, in at most as many turns as there
  -- are bytes and one more.
  pub merge_partial_recharge_response_total :
      (m : Parsed RechargeResponse) (s : List ℕ) → merge_partial wire step m s ≢ no_fuel
  merge_partial_recharge_response_total m s = merge_partial-Ends wire step m s step-Shortens
