-- ===== src/Protobuf/LoginResponse.antt =====
-- bike.pb.cpp: tianyun::login_response.
use mathlib.Core.List.{append-nil}
use shared_bike_server.Base.{
  ℕ, ◌+◌, ◌/◌, ◌%◌, ◌≡◌, refl, Bool, List, [], ◌++◌, Option, none, some, arith, ◌==◌, if◌then◌else◌,
  length, ◌≢◌, length-append,
}
use shared_bike_server.Protobuf.{
  Wire, Parsed, Field, unusual, merged, no_fuel, set_field, merge_partial,
}
use shared_bike_server.Protobuf.Fields.{
  other, is_set, or_zero, or_empty, write_field, field_size, length-write_field,
}
use shared_bike_server.Protobuf.Total.{Shortens, merge_partial-Ends, case-shorter, field-shorter}
use shared_bike_server.Protobuf.Loop.{Short, Small, loop-end, loop-field}

pub record LoginResponse : Type 0 where
  pub code : Option ℕ
  pub desc : Option (List ℕ)

-- A new message, and one after Clear: no field is set.
abbrev pub clear : Parsed LoginResponse
clear = record { fields = record { code = none; desc = none }; unknown = [] }

unfoldable pub is_initialized : LoginResponse → Bool
is_initialized x = is_set x.code

-- MergeFrom: the fields that are set there replace those that are here.
unfoldable pub merge_from : Parsed LoginResponse → Parsed LoginResponse → Parsed LoginResponse
merge_from from m = record {
  fields = record {
    code = other from.fields.code m.fields.code;
    desc = other from.fields.desc m.fields.desc;
  };
  unknown = m.unknown ++ from.unknown;
}

-- The accessors that are in use.
abbrev pub set_code : ℕ → Parsed LoginResponse → Parsed LoginResponse
set_code v m = record m { fields = record m.fields { code = some v } }

abbrev pub get_code : Parsed LoginResponse → ℕ
get_code m = or_zero m.fields.code

abbrev pub set_desc : List ℕ → Parsed LoginResponse → Parsed LoginResponse
set_desc s m = record m { fields = record m.fields { desc = some s } }

abbrev pub get_desc : Parsed LoginResponse → List ℕ
get_desc m = or_empty m.fields.desc

module _ (wire : Wire) where
  -- The switch of MergePartialFromCodedStream.
  unfoldable pub step : ℕ → LoginResponse → List ℕ → Field LoginResponse
  step tag x rest =
      if tag / 8 == 1
      then (if tag % 256 == 8
          then set_field (λ v. record x { code = some v }) (wire.int32.parse rest)
          else unusual)
      else if tag / 8 == 2
      then (if tag % 256 == 18
          then set_field (λ s. record x { desc = some s }) (wire.string.parse rest)
          else unusual)
      else unusual

  -- SerializeWithCachedSizes, and the same into an array.
  unfoldable pub serialize : Parsed LoginResponse → List ℕ
  serialize m =
      write_field wire.int32 1 m.fields.code
      ++ (write_field wire.string 2 m.fields.desc ++ m.unknown)

  unfoldable pub byte_size_long : Parsed LoginResponse → ℕ
  byte_size_long m =
      length m.unknown + field_size wire.int32 m.fields.code + field_size wire.string m.fields.desc

  -- The size that is announced for a login response is that of its bytes, whichever fields are
  -- set, and on each way of computing it.
  pub login_response_byte_size_long :
      (m : Parsed LoginResponse) → byte_size_long m ≡ length (serialize m)
  unfolding byte_size_long serialize
  login_response_byte_size_long m =
      rw (length-append, length-append)
        (omega (
          arith,
          length-write_field wire.int32 1 m.fields.code (omega arith),
          length-write_field wire.string 2 m.fields.desc (omega arith),
        ))

  -- The bytes of a login response, whichever of its fields are set, are read into a message as
  -- MergeFrom merges the two: its fields replace those that are there, and the others stay. The
  -- condition is that its texts are shorter than 2 GB and its numbers have 32 bits.
  pub merge_partial-merge_from_login_response :
      (x : LoginResponse) (m : Parsed LoginResponse)
      → Small x.code
      → Short x.desc
      → merge_partial wire step m (serialize (record { fields = x; unknown = [] }))
        ≡ merged (merge_from (record { fields = x; unknown = [] }) m) []
  unfolding merge_partial serialize step merge_from
  merge_partial-merge_from_login_response x m h1 h2 =
      loop-field wire step wire.int32 1 x.code _ _
        (λ o. record m.fields { code = other o m.fields.code }) (omega arith) (omega arith) h1
        (λ rest. refl) (omega arith)
        (λ n1 s1.
          (loop-field wire step wire.string 2 x.desc _ _
            (λ o. record m.fields {
              code = other x.code m.fields.code;
              desc = other o m.fields.desc;
            })
            (omega arith) (omega arith) h2 (λ rest. refl) s1
            (λ n2 s2.
              (rw (append-nil m.unknown) (
                loop-end wire step n2
                  (record {
                    fields = record {
                      code = other x.code m.fields.code;
                      desc = other x.desc m.fields.desc;
                    };
                    unknown = m.unknown;
                  })
                  s2)))))

  step-Shortens : Shortens wire step
  unfolding step
  step-Shortens tag x s x' rest e =
      case-shorter wire tag 1 8 s x' rest _ _ (omega arith)
        (field-shorter wire wire.int32 (λ v. record x { code = some v }) s x' rest)
        (λ e1.
          case-shorter wire tag 2 18 s x' rest _ _ (omega arith)
            (field-shorter wire wire.string (λ s. record x { desc = some s }) s x' rest)
            (λ e2. absurd cc) e1)
        e

  -- The loop that reads a login response ends on every input, in at most as many turns as there
  -- are bytes and one more.
  pub merge_partial_login_response_total :
      (m : Parsed LoginResponse) (s : List ℕ) → merge_partial wire step m s ≢ no_fuel
  merge_partial_login_response_total m s = merge_partial-Ends wire step m s step-Shortens
