-- ===== src/Protobuf/Fields.antt =====
-- bike.pb.cpp: how one field of a message is written, and the size that is announced for it.
use shared_bike_server.Base.{
  ℕ, ◌≤◌, ◌≡◌, refl, ◌+◌, arith, Bool, true, false, List, [], Option, none, some, length,
}
use shared_bike_server.Protobuf.{Wire, Primitive}

-- A field of one message over that of another.
abbrev pub other {ℓ} : {A : Type ℓ} → Option A → Option A → Option A
other none b = b
other (some a) b = some a

abbrev pub is_set {ℓ} : {A : Type ℓ} → Option A → Bool
is_set none = false
is_set (some a) = true

abbrev pub or_zero : Option ℕ → ℕ
or_zero none = 0
or_zero (some v) = v

abbrev pub or_empty : Option (List ℕ) → List ℕ
or_empty none = []
or_empty (some s) = s

module _ {read_tag : List ℕ → ℕ × Bool × List ℕ} {A : Type 0} {Fits : A → Type 0} {typed : ℕ}
    (type : Primitive read_tag A Fits typed) where
  -- A field is written if its bit is set.
  abbrev pub write_field : ℕ → Option A → List ℕ
  write_field number none = []
  write_field number (some a) = type.print number a

  abbrev pub field_size : Option A → ℕ
  field_size none = 0
  field_size (some a) = 1 + type.size a

  pub length-write_field :
      (number : ℕ) (o : Option A) → number ≤ 15 → length (write_field number o) ≡ field_size o
  length-write_field number none h = refl
  length-write_field number (some a) h = type.length-print number a h

-- The size of a double is written out.
abbrev pub double_field_size : Option ℕ → ℕ
double_field_size none = 0
double_field_size (some v) = 1 + 8

pub length-write_double_field :
    (wire : Wire) (number : ℕ) (o : Option ℕ)
    → number ≤ 15
    → length (write_field wire.double number o) ≡ double_field_size o
length-write_double_field wire number none h = refl
length-write_double_field wire number (some v) h =
    omega (arith, wire.double.length-print number v h, wire.double_size v)

pub other-none {ℓ} : {A : Type ℓ} (o : Option A) → other o none ≡ o
other-none none = refl
other-none (some a) = refl
