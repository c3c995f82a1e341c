-- ===== src/Protobuf/MobileRequest.antt =====
-- bike.pb.cpp: tianyun::mobile_request.
use mathlib.Core.List.{append-nil}
use shared_bike_server.Base.{
  ℕ, ◌+◌, ◌/◌, ◌%◌, ◌≡◌, refl, Bool, List, [], ◌++◌, Option, none, some, arith, ◌==◌, if◌then◌else◌,
  length, ◌≢◌, length-append,
}
use shared_bike_server.Protobuf.{
  Wire, Parsed, Field, unusual, merged, no_fuel, set_field, merge_partial,
}
use shared_bike_server.Protobuf.Fields.{
  other, is_set, or_empty, write_field, field_size, length-write_field,
}
use shared_bike_server.Protobuf.Total.{Shortens, merge_partial-Ends, case-shorter, field-shorter}
use shared_bike_server.Protobuf.Loop.{Short, loop-end, loop-field}

pub record MobileRequest : Type 0 where
  pub mobile : Option (List ℕ)

-- A new message, and one after Clear: no field is set.
abbrev pub clear : Parsed MobileRequest
clear = record { fields = record { mobile = none }; unknown = [] }

unfoldable pub is_initialized : MobileRequest → Bool
is_initialized x = is_set x.mobile

-- MergeFrom: the fields that are set there replace those that are here.
unfoldable pub merge_from : Parsed MobileRequest → Parsed MobileRequest → Parsed MobileRequest
merge_from from m = record {
  fields = record { mobile = other from.fields.mobile m.fields.mobile };
  unknown = m.unknown ++ from.unknown;
}

-- The accessors that are in use.
abbrev pub set_mobile : List ℕ → Parsed MobileRequest → Parsed MobileRequest
set_mobile s m = record m { fields = record m.fields { mobile = some s } }

abbrev pub get_mobile : Parsed MobileRequest → List ℕ
get_mobile m = or_empty m.fields.mobile

module _ (wire : Wire) where
  -- The switch of MergePartialFromCodedStream.
  unfoldable pub step : ℕ → MobileRequest → List ℕ → Field MobileRequest
  step tag x rest =
      if tag / 8 == 1
      then (if tag % 256 == 10
          then set_field (λ s. record x { mobile = some s }) (wire.string.parse rest)
          else unusual)
      else unusual

  -- SerializeWithCachedSizes, and the same into an array.
  unfoldable pub serialize : Parsed MobileRequest → List ℕ
  serialize m = write_field wire.string 1 m.fields.mobile ++ m.unknown

  unfoldable pub byte_size_long : Parsed MobileRequest → ℕ
  byte_size_long m = length m.unknown + field_size wire.string m.fields.mobile

  -- The size that is announced for a mobile request is that of its bytes, whichever fields are
  -- set, and on each way of computing it.
  pub mobile_request_byte_size_long :
      (m : Parsed MobileRequest) → byte_size_long m ≡ length (serialize m)
  unfolding byte_size_long serialize
  mobile_request_byte_size_long m =
      rw (length-append)
        (omega (arith, length-write_field wire.string 1 m.fields.mobile (omega arith)))

  -- The bytes of a mobile request, whichever of its fields are set, are read into a message as
  -- MergeFrom merges the two: its fields replace those that are there, and the others stay. The
  -- condition is that its texts are shorter than 2 GB.
  pub merge_partial-merge_from_mobile_request :
      (x : MobileRequest) (m : Parsed MobileRequest)
      → Short x.mobile
      → merge_partial wire step m (serialize (record { fields = x; unknown = [] }))
        ≡ merged (merge_from (record { fields = x; unknown = [] }) m) []
  unfolding merge_partial serialize step merge_from
  merge_partial-merge_from_mobile_request x m h1 =
      loop-field wire step wire.string 1 x.mobile _ _
        (λ o. record m.fields { mobile = other o m.fields.mobile }) (omega arith) (omega arith) h1
        (λ rest. refl) (omega arith)
        (λ n1 s1.
          (rw (append-nil m.unknown) (
            loop-end wire step n1
              (record {
                fields = record { mobile = other x.mobile m.fields.mobile };
                unknown = m.unknown;
              })
              s1)))

  step-Shortens : Shortens wire step
  unfolding step
  step-Shortens tag x s x' rest e =
      case-shorter wire tag 1 10 s x' rest _ _ (omega arith)
        (field-shorter wire wire.string (λ s. record x { mobile = some s }) s x' rest)
        (λ e1. absurd cc) e

  -- The loop that reads a mobile request ends on every input, in at most as many turns as there
  -- are bytes and one more.
  pub merge_partial_mobile_request_total :
      (m : Parsed MobileRequest) (s : List ℕ) → merge_partial wire step m s ≢ no_fuel
  merge_partial_mobile_request_total m s = merge_partial-Ends wire step m s step-Shortens
