-- ===== src/Protobuf/LoginRequest.antt =====
-- bike.pb.cpp: tianyun::login_request.
use mathlib.Core.List.{append-nil}
use shared_bike_server.Base.{
  ℕ, ◌+◌, ◌/◌, ◌%◌, ◌≡◌, refl, Bool, ◌&&◌, List, [], ◌++◌, Option, none, some, arith, ◌==◌,
  if◌then◌else◌, length, ◌≢◌, length-append,
}
use shared_bike_server.Protobuf.{
  Wire, Parsed, Field, unusual, merged, no_fuel, set_field, merge_partial,
}
use shared_bike_server.Protobuf.Fields.{
  other, is_set, or_zero, or_empty, write_field, field_size, length-write_field,
}
use shared_bike_server.Protobuf.Total.{Shortens, merge_partial-Ends, case-shorter, field-shorter}
use shared_bike_server.Protobuf.Loop.{Short, Small, loop-end, loop-field}

pub record LoginRequest : Type 0 where
  pub mobile : Option (List ℕ)
  pub icode : Option ℕ

-- A new message, and one after Clear: no field is set.
abbrev pub clear : Parsed LoginRequest
clear = record { fields = record { mobile = none; icode = none }; unknown = [] }

unfoldable pub is_initialized : LoginRequest → Bool
is_initialized x = is_set x.mobile && is_set x.icode

-- MergeFrom: the fields that are set there replace those that are here.
unfoldable pub merge_from : Parsed LoginRequest → Parsed LoginRequest → Parsed LoginRequest
merge_from from m = record {
  fields = record {
    mobile = other from.fields.mobile m.fields.mobile;
    icode = other from.fields.icode m.fields.icode;
  };
  unknown = m.unknown ++ from.unknown;
}

-- The accessors that are in use.
abbrev pub set_mobile : List ℕ → Parsed LoginRequest → Parsed LoginRequest
set_mobile s m = record m { fields = record m.fields { mobile = some s } }

abbrev pub get_mobile : Parsed LoginRequest → List ℕ
get_mobile m = or_empty m.fields.mobile

abbrev pub set_icode : ℕ → Parsed LoginRequest → Parsed LoginRequest
set_icode v m = record m { fields = record m.fields { icode = some v } }

abbrev pub get_icode : Parsed LoginRequest → ℕ
get_icode m = or_zero m.fields.icode

module _ (wire : Wire) where
  -- The switch of MergePartialFromCodedStream.
  unfoldable pub step : ℕ → LoginRequest → List ℕ → Field LoginRequest
  step tag x rest =
      if tag / 8 == 1
      then (if tag % 256 == 10
          then set_field (λ s. record x { mobile = some s }) (wire.string.parse rest)
          else unusual)
      else if tag / 8 == 2
      then (if tag % 256 == 16
          then set_field (λ v. record x { icode = some v }) (wire.int32.parse rest)
          else unusual)
      else unusual

  -- SerializeWithCachedSizes, and the same into an array.
  unfoldable pub serialize : Parsed LoginRequest → List ℕ
  serialize m =
      write_field wire.string 1 m.fields.mobile
      ++ (write_field wire.int32 2 m.fields.icode ++ m.unknown)

  unfoldable pub required_fields_byte_size_fallback : LoginRequest → ℕ
  required_fields_byte_size_fallback x =
      field_size wire.string x.mobile + field_size wire.int32 x.icode

  -- When all required fields are set their sizes are added up without looking at each bit.
  abbrev pub required_size : LoginRequest → ℕ
  required_size x =
      if is_set x.mobile && is_set x.icode
      then (1 + wire.string.size (or_empty x.mobile)) + (1 + wire.int32.size (or_zero x.icode))
      else required_fields_byte_size_fallback x

  unfoldable pub byte_size_long : Parsed LoginRequest → ℕ
  byte_size_long m = length m.unknown + required_size m.fields

  -- On each way the sizes of the required fields are those of what is written for them.
  required_size-fields :
      (x : LoginRequest)
      → required_size x ≡ field_size wire.string x.mobile + field_size wire.int32 x.icode
  unfolding required_fields_byte_size_fallback
  required_size-fields x = by_bits x.mobile x.icode
    where
      by_bits :
          (mobile : Option (List ℕ)) (icode : Option ℕ)
          → (if is_set mobile && is_set icode
              then (1 + wire.string.size (or_empty mobile)) + (1 + wire.int32.size (or_zero icode))
              else field_size wire.string mobile + field_size wire.int32 icode)
            ≡ field_size wire.string mobile + field_size wire.int32 icode
      by_bits none icode = refl
      by_bits (some a0) none = refl
      by_bits (some a0) (some a1) = refl

  -- The size that is announced for a login request is that of its bytes, whichever fields are
  -- set, and on each way of computing it.
  pub login_request_byte_size_long :
      (m : Parsed LoginRequest) → byte_size_long m ≡ length (serialize m)
  unfolding byte_size_long serialize required_fields_byte_size_fallback
  login_request_byte_size_long m =
      rw (length-append, length-append)
        (omega (
          arith,
          required_size-fields m.fields,
          length-write_field wire.string 1 m.fields.mobile (omega arith),
          length-write_field wire.int32 2 m.fields.icode (omega arith),
        ))

  -- The bytes of a login request, whichever of its fields are set, are read into a message as
  -- MergeFrom merges the two: its fields replace those that are there, and the others stay. The
  -- condition is that its texts are shorter than 2 GB and its numbers have 32 bits.
  pub merge_partial-merge_from_login_request :
      (x : LoginRequest) (m : Parsed LoginRequest)
      → Short x.mobile
      → Small x.icode
      → merge_partial wire step m (serialize (record { fields = x; unknown = [] }))
        ≡ merged (merge_from (record { fields = x; unknown = [] }) m) []
  unfolding merge_partial serialize step merge_from
  merge_partial-merge_from_login_request x m h1 h2 =
      loop-field wire step wire.string 1 x.mobile _ _
        (λ o. record m.fields { mobile = other o m.fields.mobile }) (omega arith) (omega arith) h1
        (λ rest. refl) (omega arith)
        (λ n1 s1.
          (loop-field wire step wire.int32 2 x.icode _ _
            (λ o. record m.fields {
              mobile = other x.mobile m.fields.mobile;
              icode = other o m.fields.icode;
            })
            (omega arith) (omega arith) h2 (λ rest. refl) s1
            (λ n2 s2.
              (rw (append-nil m.unknown) (
                loop-end wire step n2
                  (record {
                    fields = record {
                      mobile = other x.mobile m.fields.mobile;
                      icode = other x.icode m.fields.icode;
                    };
                    unknown = m.unknown;
                  })
                  s2)))))

  step-Shortens : Shortens wire step
  unfolding step
  step-Shortens tag x s x' rest e =
      case-shorter wire tag 1 10 s x' rest _ _ (omega arith)
        (field-shorter wire wire.string (λ s. record x { mobile = some s }) s x' rest)
        (λ e1.
          case-shorter wire tag 2 16 s x' rest _ _ (omega arith)
            (field-shorter wire wire.int32 (λ v. record x { icode = some v }) s x' rest)
            (λ e2. absurd cc) e1)
        e

  -- The loop that reads a login request ends on every input, in at most as many turns as there
  -- are bytes and one more.
  pub merge_partial_login_request_total :
      (m : Parsed LoginRequest) (s : List ℕ) → merge_partial wire step m s ≢ no_fuel
  merge_partial_login_request_total m s = merge_partial-Ends wire step m s step-Shortens
