-- ===== src/Base/Bytes.antt =====
-- Machine words and the bytes of a buffer. A byte is a number below 256; an `i32` is its bit
-- pattern, a number below 2 ^ 32; the order of the bytes is little-endian, as on x86 and ARM.
use Prim.Native.Nat.{ℕ, zero, suc, ◌+◌, ◌-◌, ◌*◌, ◌/◌, ◌%◌, ◌^◌, ◌≤◌}
use Prim.Native.String.{String}
use Prim.Native.Char.{code}
use mathlib.Core.Path.{◌≡◌, refl, sym, ap, ◌∙◌}
use native.Mathlib.Omega.{arith}
use mathlib.Core.Bool.{Bool, true, false}
use mathlib.Core.List.{List, [], ◌∷◌}
use shared_bike_server.Base.Tests.{◌==◌, if◌then◌else◌}
use shared_bike_server.Base.Lists.{get_or, take, blit, get_or-take, take-take}

-- `u32` arithmetic.
abbrev pub add32 : ℕ → ℕ → ℕ
add32 a b = (a + b) % 2 ^ 32

abbrev pub sub32 : ℕ → ℕ → ℕ
sub32 a b = (a + 2 ^ 32 - b) % 2 ^ 32

-- The bytes of a text literal, without the terminating NUL.
abbrev pub codes : String → List ℕ
codes String.[] = []
codes (String.◌∷◌ c s) = code c ∷ codes s

-- `*(u16*)(p + i)` and `*(i32*)(p + i)`, read.
abbrev pub load16 : List ℕ → ℕ → ℕ
load16 p i = get_or p i 0 + 256 * get_or p (i + 1) 0

abbrev pub load32 : List ℕ → ℕ → ℕ
load32 p i =
    get_or p i 0
    + 256 * get_or p (i + 1) 0
    + 65536 * get_or p (i + 2) 0
    + 16777216 * get_or p (i + 3) 0

abbrev pub bytes16 : ℕ → List ℕ
bytes16 v = v % 256 ∷ v / 256 % 256 ∷ []

abbrev pub bytes32 : ℕ → List ℕ
bytes32 v = v % 256 ∷ v / 256 % 256 ∷ v / 65536 % 256 ∷ v / 16777216 % 256 ∷ []

-- `*(u16*)(p + i) = v` and `*(i32*)(p + i) = v`.
abbrev pub store16 : List ℕ → ℕ → ℕ → List ℕ
store16 p i v = blit p i (bytes16 v)

abbrev pub store32 : List ℕ → ℕ → ℕ → List ℕ
store32 p i v = blit p i (bytes32 v)

-- `strncmp(s, t, n) == 0`: the comparison ends at a NUL that both have.
abbrev pub strncmp_eq : List ℕ → List ℕ → ℕ → Bool
strncmp_eq s t zero = true
strncmp_eq [] t (suc n) = false
strncmp_eq (x ∷ s) [] (suc n) = x == 0
strncmp_eq (x ∷ s) (y ∷ t) (suc n) =
    if x == y then (if x == 0 then true else strncmp_eq s t n) else false

pub strncmp_eq-take : (n : ℕ) (s t : List ℕ) → strncmp_eq (take n s) t n ≡ strncmp_eq s t n
strncmp_eq-take zero s t = refl
strncmp_eq-take (suc n) [] t = refl
strncmp_eq-take (suc n) (x ∷ s) [] = refl
strncmp_eq-take (suc n) (x ∷ s) (y ∷ t) = ground (arith, strncmp_eq-take n s t)

pub strncmp_eq-take-take :
    (m n : ℕ) (s t : List ℕ) → n ≤ m → strncmp_eq (take m s) t n ≡ strncmp_eq s t n
strncmp_eq-take-take m n s t h =
    sym (strncmp_eq-take n (take m s) t)
    ∙ ap (λ xs. strncmp_eq xs t n) (take-take n m s h)
    ∙ strncmp_eq-take n s t

-- What is read in the first ten bytes does not depend on what follows them.
pub load16-take : (s : List ℕ) → load16 (take 10 s) 4 ≡ load16 s 4
load16-take s = rw (get_or-take 10 4 s 0 (omega arith), get_or-take 10 5 s 0 (omega arith))

pub load32-take : (s : List ℕ) → load32 (take 10 s) 6 ≡ load32 s 6
load32-take s = rw (
  get_or-take 10 6 s 0 (omega arith),
  get_or-take 10 7 s 0 (omega arith),
  get_or-take 10 8 s 0 (omega arith),
  get_or-take 10 9 s 0 (omega arith),
)
