-- ===== src/Tests/Wire.antt =====
-- A concrete wire format, in which each number is one byte.
use shared_bike_server.Base.{
  ℕ, zero, suc, ◌+◌, ◌*◌, ◌^◌, ◌≤◌, ◌<◌, ◌≡◌, ◌≢◌, refl, ap, Bool, true, false, ◌&&◌, List, [], ◌∷◌,
  ◌++◌, Option, none, some, arith, ltb, leb, length, take, drop, take-append_le, drop-append_le,
  take-all, drop-all, some_eq,
}
use shared_bike_server.Protobuf.{Wire, Primitive, Parsed, Merged, merged, failure, no_fuel}
use shared_bike_server.Protobuf.Instance.{Library, accepted}

abbrev read_tag : List ℕ → ℕ × Bool × List ℕ
read_tag [] = (0, false, [])
read_tag (t ∷ s) = (t, ltb 0 t && leb t 127, s)

abbrev read_string : List ℕ → Option (List ℕ × List ℕ)
read_string [] = none
read_string (n ∷ s) = some (take n s, drop n s)

abbrev read_number : List ℕ → Option (ℕ × List ℕ)
read_number [] = none
read_number (v ∷ s) = some (v, s)

abbrev skip_field : ℕ → List ℕ → Option (List ℕ × List ℕ)
skip_field tag [] = none
skip_field tag (v ∷ s) = some (tag ∷ v ∷ [], s)

length-drop : (n : ℕ) (s : List ℕ) → length (drop n s) ≤ length s
length-drop zero s = omega arith
length-drop (suc n) [] = omega arith
length-drop (suc n) (x ∷ s) = omega (arith, length-drop n s)

pub read_tag-shorter : (s : List ℕ) → (read_tag s).0 ≢ 0 → length (read_tag s).2 < length s
read_tag-shorter [] h = absurd (h refl)
read_tag-shorter (t ∷ s) h = omega arith

pub read_string-shorter :
    (s t rest : List ℕ) → read_string s ≡ some (t, rest) → length rest ≤ length s
read_string-shorter [] t rest e = absurd cc
read_string-shorter (n ∷ s) t rest e =
    omega (arith, length-drop n s, ap (λ p. length p.1) (some_eq e))

pub read_number-shorter :
    (s : List ℕ) (v : ℕ) (rest : List ℕ) → read_number s ≡ some (v, rest) → length rest ≤ length s
read_number-shorter [] v rest e = absurd cc
read_number-shorter (w ∷ s) v rest e = omega (arith, ap (λ p. length p.1) (some_eq e))

pub skip_field-shorter :
    (tag : ℕ) (s t rest : List ℕ) → skip_field tag s ≡ some (t, rest) → length rest ≤ length s
skip_field-shorter tag [] t rest e = absurd cc
skip_field-shorter tag (v ∷ s) t rest e = omega (arith, ap (λ p. length p.1) (some_eq e))

pub tag-known : (tag : ℕ) → 1 ≤ tag → tag ≤ 127 → (ltb 0 tag && leb tag 127) ≡ true
tag-known tag first last = ground arith

pub read_string-length : (s rest : List ℕ) → read_string (length s ∷ s ++ rest) ≡ some (s, rest)
read_string-length s rest =
    rw
      (
        take-append_le (length s) s rest (omega arith),
        drop-append_le (length s) s rest (omega arith),
        take-all (length s) s (omega arith),
        drop-all (length s) s (omega arith),
      )
      refl

-- A number is one byte.
abbrev number_type : (bound typed : ℕ) → typed ≤ 5 → Primitive read_tag ℕ (λ v. v < bound) typed
number_type bound typed h = record {
  parse = read_number;
  print = λ number v. (number * 8 + typed) ∷ v ∷ [];
  size = λ v. 1;
  parse-print = λ number v rest first last small.
      (v ∷ rest, rw (tag-known (number * 8 + typed) (omega arith) (omega arith)) refl, refl);
  length-print = λ number v h. refl;
  parse-shorter = read_number-shorter;
}

-- A double takes eight bytes, the first of which has the number.
abbrev read_double : List ℕ → Option (ℕ × List ℕ)
read_double (v ∷ _ ∷ _ ∷ _ ∷ _ ∷ _ ∷ _ ∷ _ ∷ s) = some (v, s)
read_double _ = none

pub read_double-shorter :
    (s : List ℕ) (v : ℕ) (rest : List ℕ) → read_double s ≡ some (v, rest) → length rest ≤ length s
read_double-shorter (w ∷ _ ∷ _ ∷ _ ∷ _ ∷ _ ∷ _ ∷ _ ∷ s) v rest e =
    omega (arith, ap (λ p. length p.1) (some_eq e))
read_double-shorter _ v rest e = absurd cc

-- read_message over the bytes that the length in front announces.
abbrev read_within : (F : Type 0) → Merged F → List ℕ → Option (Parsed F × List ℕ)
read_within F (merged m []) rest = some (m, rest)
read_within F _ rest = none

abbrev read_message : (F : Type 0) → (List ℕ → Merged F) → List ℕ → Option (Parsed F × List ℕ)
read_message F merge [] = none
read_message F merge (n ∷ s) = read_within F (merge (take n s)) (drop n s)

read_within-same :
    (F : Type 0) (g : Merged F) (t : List ℕ) (m : Parsed F) (rest : List ℕ)
    → read_within F g t ≡ some (m, rest)
    → t ≡ rest
read_within-same F (merged x []) t m rest e = ap (λ p. p.1) (some_eq e)
read_within-same F (merged x (a ∷ l)) t m rest e = absurd cc
read_within-same F failure t m rest e = absurd cc
read_within-same F no_fuel t m rest e = absurd cc

pub read_message-shorter :
    (F : Type 0) (merge : List ℕ → Merged F) (s : List ℕ) (m : Parsed F) (rest : List ℕ)
    → read_message F merge s ≡ some (m, rest)
    → length rest ≤ length s
read_message-shorter F merge [] m rest e = absurd cc
read_message-shorter F merge (n ∷ s) m rest e =
    omega (
      arith,
      length-drop n s,
      ap length (read_within-same F (merge (take n s)) (drop n s) m rest e),
    )

abbrev all_are_initialized : (F : Type 0) → (F → Bool) → List (Parsed F) → Bool
all_are_initialized F is_initialized [] = true
all_are_initialized F is_initialized (r ∷ rs) =
    is_initialized r.fields && all_are_initialized F is_initialized rs

abbrev pub byte_wire : Wire
byte_wire = record {
  read_tag = read_tag;
  string = record {
    parse = read_string;
    print = λ number s. (number * 8 + 2) ∷ length s ∷ s;
    size = λ s. 1 + length s;
    parse-print = λ number s rest first last short. (
      length s ∷ s ++ rest,
      rw (tag-known (number * 8 + 2) (omega arith) (omega arith)) refl,
      read_string-length s rest,
    );
    length-print = λ number s h. omega arith;
    parse-shorter = read_string-shorter;
  };
  int32 = number_type (2 ^ 32) 0 (omega arith);
  uint32 = number_type (2 ^ 32) 0 (omega arith);
  uint64 = number_type (2 ^ 64) 0 (omega arith);
  double = record {
    parse = read_double;
    print = λ number v. (number * 8 + 1) ∷ v ∷ 0 ∷ 0 ∷ 0 ∷ 0 ∷ 0 ∷ 0 ∷ 0 ∷ [];
    size = λ v. 8;
    parse-print = λ number v rest first last small. (
      v ∷ 0 ∷ 0 ∷ 0 ∷ 0 ∷ 0 ∷ 0 ∷ 0 ∷ rest,
      rw (tag-known (number * 8 + 1) (omega arith) (omega arith)) refl,
      refl,
    );
    length-print = λ number v h. refl;
    parse-shorter = read_double-shorter;
  };
  skip_field = skip_field;
  read_message = read_message;
  all_are_initialized = all_are_initialized;
  write_message = λ number n s. (number * 8 + 2) ∷ n ∷ s;
  message_size = λ n. 1 + n;
  read_tag-end = refl;
  double_size = λ v. refl;
  message_lem = λ F merge m number body rest first last short merges. (
    length body ∷ body ++ rest,
    rw (tag-known (number * 8 + 2) (omega arith) (omega arith)) refl,
    rw
        (
          take-append_le (length body) body rest (omega arith),
          drop-append_le (length body) body rest (omega arith),
          take-all (length body) body (omega arith),
          drop-all (length body) body (omega arith),
          merges,
        )
        refl,
  );
  length-write_message = λ number body h. omega arith;
  read_tag-shorter = read_tag-shorter;
  skip_field-shorter = skip_field-shorter;
  read_message-shorter = read_message-shorter;
}

abbrev pub library : Library
library = record {
  wire = byte_wire;
  parse_from_array = λ F merge is_initialized s. accepted is_initialized (merge s);
  parse_from_array_lem = λ F merge is_initialized s. refl;
}
