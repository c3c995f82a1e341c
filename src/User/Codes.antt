-- ===== src/User/Codes.antt =====
-- The map of codes: what is found after an entry, and the range of the codes.
use shared_bike_server.Base.{
  ℕ, ◌≤◌, ◌<◌, ◌≡◌, refl, inl, inr, true, false, List, [], ◌∷◌, some, arith, if◌then◌else◌,
  string_eq, string_eq_iff, Bool-cases, subst,
}
use shared_bike_server.User.Handler.{CodeMap, find_code, set_code, code_gen}

pub string_eq_refl : (xs : List ℕ) → string_eq xs xs ≡ true
string_eq_refl xs = (string_eq_iff xs xs).1 refl

-- The code of a number is the last that was entered for it; the other numbers keep theirs.
pub find_code-set_code :
    (mobile other : List ℕ) (icode : ℕ) (m : CodeMap)
    → find_code other (set_code mobile icode m)
      ≡ (if string_eq mobile other then some icode else find_code other m)
unfolding find_code set_code
find_code-set_code mobile other icode [] = refl
find_code-set_code mobile other icode ((k, v) ∷ m) = elim (Bool-cases (string_eq k mobile)) [
  | inl same ↦ ground (arith, (string_eq_iff k mobile).0 same, same)
  | inr differ ↦ elim (Bool-cases (string_eq mobile other)) [
    | inl mine ↦
        (let e : mobile ≡ other = (string_eq_iff mobile other).0 mine in
          let apart : string_eq k other ≡ false = subst (λ o. string_eq k o ≡ false) e differ in
          ground (arith, differ, mine, apart, find_code-set_code mobile other icode m))
    | inr not_mine ↦ ground (arith, differ, not_mine, find_code-set_code mobile other icode m)
  ]
]

-- A code has six digits, and is never 999999.
pub code_gen_lem : (r : ℕ) → (100000 ≤ code_gen r) × (code_gen r < 999999)
unfolding code_gen
code_gen_lem r = omega arith
