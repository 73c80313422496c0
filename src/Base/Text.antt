-- ===== src/Base/Text.antt =====
-- Text literals as lists of character codes, and numbers as printf writes them.
use Prim.Native.Char.{code}
use Prim.Native.Nat.{ℕ, zero, suc, ◌+◌, ◌-◌, ◌*◌, ◌/◌, ◌%◌, ◌^◌, ◌≤◌, ◌<◌}
use Prim.Native.String.{String}
use mathlib.Core.Bool.{Bool, true, not, ◌&&◌}
use mathlib.Core.List.{List, [], ◌∷◌, ◌++◌}
use mathlib.Core.Logic.{inl, inr}
use mathlib.Core.Path.{◌≡◌, refl, ap, ◌∙◌}
use native.Mathlib.Omega.{arith}
use xapm.Base.Lists.{length, length-append}
use xapm.Base.Tests.{ltb, leb, ◌==◌, if◌then◌else◌, Bool-cases, if_true, if_false}

abbrev pub codes : String → List ℕ
codes String.[] = []
codes (String.◌∷◌ c rest) = code c ∷ codes rest

-- The decimal digits of a number below 10 ^ `width`.
unfoldable pub print_nat : (width : ℕ) → ℕ → List ℕ
print_nat zero n = []
print_nat (suc width) n =
    let front = print_nat width (n / 10) in
    if ltb n 10 then (b'0' + n) ∷ [] else front ++ (b'0' + n % 10) ∷ []

-- `%d` of an `int`, given by its 32-bit pattern.
unfoldable pub print_int : ℕ → List ℕ
print_int w = if ltb w (2 ^ 31) then print_nat 10 w else b'-' ∷ print_nat 10 (2 ^ 32 - w)

-- What a reader makes of digits.
pub read_nat : ℕ → List ℕ → ℕ
read_nat n [] = n
read_nat n (c ∷ digits) = read_nat (n * 10 + (c - b'0')) digits

unfoldable pub read_int : List ℕ → ℕ
read_int [] = 0
read_int (c ∷ digits) = if c == b'-' then 2 ^ 32 - read_nat 0 digits else read_nat 0 (c ∷ digits)

abbrev ten_to : ℕ → ℕ
ten_to zero = 1
ten_to (suc width) = 10 * ten_to width

read_nat-append : (n : ℕ) (xs ys : List ℕ) → read_nat n (xs ++ ys) ≡ read_nat (read_nat n xs) ys
unfolding read_nat
read_nat-append n [] ys = refl
read_nat-append n (c ∷ xs) ys = read_nat-append (n * 10 + (c - b'0')) xs ys

small_digit :
    (front : List ℕ) (n : ℕ) → n < 10 → read_nat 0 (if ltb n 10 then (b'0' + n) ∷ [] else front) ≡ n
unfolding read_nat
small_digit front n h = ground arith

read_nat-print_nat :
    (width n : ℕ) → n < ten_to width → 0 < width → read_nat 0 (print_nat width n) ≡ n
unfolding print_nat read_nat
read_nat-print_nat zero n h w = absurd (omega arith)
read_nat-print_nat (suc zero) n h w = small_digit _ n (omega arith)
read_nat-print_nat (suc (suc width)) n h w = elim (Bool-cases (ltb n 10)) [
  | inl small ↦ small_digit _ n (ground arith)
  | inr large ↦
      let front = print_nat (suc width) (n / 10) in
      let ih = read_nat-print_nat (suc width) (n / 10) (omega arith) (omega arith) in
      ap (read_nat 0) (if_false _ (front ++ (b'0' + n % 10) ∷ []) large)
      ∙ (read_nat-append 0 front ((b'0' + n % 10) ∷ []) ∙ omega (arith, ih))
]

length-print_nat : (width n : ℕ) → length (print_nat width n) ≤ width
unfolding print_nat
length-print_nat zero n = omega arith
length-print_nat (suc width) n = ground (
  arith,
  length-print_nat width (n / 10),
  length-append (print_nat width (n / 10)) ((b'0' + n % 10) ∷ []),
)

pub length-print_int : (w : ℕ) → length (print_int w) ≤ 11
unfolding print_int
length-print_int w = ground (arith, length-print_nat 10 w, length-print_nat 10 (2 ^ 32 - w))

-- Characters from '0' to '9' only.
all_digits : List ℕ → Bool
all_digits [] = true
all_digits (c ∷ t) = leb b'0' c && (leb c b'9' && all_digits t)

all_digits-append :
    (xs ys : List ℕ) → all_digits xs ≡ true → all_digits ys ≡ true → all_digits (xs ++ ys) ≡ true
unfolding all_digits
all_digits-append [] ys h k = k
all_digits-append (c ∷ xs) ys h k = ground (arith, all_digits-append xs ys (ground arith) k)

last_digit : (n : ℕ) → n < 10 → all_digits ((b'0' + n) ∷ []) ≡ true
unfolding all_digits
last_digit n h = ground arith

print_nat_digits : (width n : ℕ) → all_digits (print_nat width n) ≡ true
unfolding print_nat all_digits
print_nat_digits zero n = refl
print_nat_digits (suc width) n = elim (Bool-cases (ltb n 10)) [
  | inl small ↦ ap all_digits (if_true _ _ small) ∙ last_digit n (ground arith)
  | inr large ↦
      ap all_digits (if_false _ (print_nat width (n / 10) ++ (b'0' + n % 10) ∷ []) large)
      ∙ all_digits-append (print_nat width (n / 10)) ((b'0' + n % 10) ∷ [])
          (print_nat_digits width (n / 10)) (last_digit (n % 10) (omega arith))
]

read_int-digits : (t : List ℕ) → all_digits t ≡ true → read_int t ≡ read_nat 0 t
unfolding read_int read_nat all_digits
read_int-digits [] h = refl
read_int-digits (c ∷ t) h = if_false _ _ {b = (c == b'-')} (ground arith)

-- What `%d` prints of an `int` reads back.
pub read_int-print_int : (w : ℕ) → w < 2 ^ 32 → read_int (print_int w) ≡ w
unfolding print_int read_int
read_int-print_int w h = elim (Bool-cases (ltb w (2 ^ 31))) [
  | inl low ↦
      ap read_int (if_true _ _ low)
      ∙ (read_int-digits (print_nat 10 w) (print_nat_digits 10 w)
          ∙ read_nat-print_nat 10 w (ground arith) (omega arith))
  | inr high ↦
      let r = read_nat-print_nat 10 (2 ^ 32 - w) (ground arith) (omega arith) in
      ap read_int (if_false _ _ high) ∙ ground arith
]

-- The text up to the first comma, and what stands behind the comma.
unfoldable pub until_comma : List ℕ → List ℕ × List ℕ
until_comma [] = ([], [])
until_comma (c ∷ t) =
    let (part, rest) = until_comma t in if c == b',' then ([], t) else (c ∷ part, rest)

unfoldable pub without_comma : List ℕ → Bool
without_comma [] = true
without_comma (c ∷ t) = not (c == b',') && without_comma t

pub until_comma-append :
    (part rest : List ℕ)
    → without_comma part ≡ true
    → until_comma (part ++ b',' ∷ rest) ≡ (part, rest)
unfolding until_comma without_comma
until_comma-append [] rest h = refl
until_comma-append (c ∷ part) rest h = ground (arith, until_comma-append part rest (ground arith))

pub without_comma-append :
    (xs ys : List ℕ)
    → without_comma xs ≡ true
    → without_comma ys ≡ true
    → without_comma (xs ++ ys) ≡ true
unfolding without_comma
without_comma-append [] ys h k = k
without_comma-append (c ∷ xs) ys h k = ground (arith, without_comma-append xs ys (ground arith) k)

without_comma-digits : (t : List ℕ) → all_digits t ≡ true → without_comma t ≡ true
unfolding without_comma all_digits
without_comma-digits [] h = refl
without_comma-digits (c ∷ t) h = ground (arith, without_comma-digits t (ground arith))

pub without_comma-print_int : (w : ℕ) → without_comma (print_int w) ≡ true
unfolding print_int without_comma
without_comma-print_int w = elim (Bool-cases (ltb w (2 ^ 31))) [
  | inl low ↦
      ap without_comma (if_true _ _ low)
      ∙ without_comma-digits (print_nat 10 w) (print_nat_digits 10 w)
  | inr high ↦
      ap without_comma (if_false _ _ high)
      ∙ without_comma-digits (print_nat 10 (2 ^ 32 - w)) (print_nat_digits 10 (2 ^ 32 - w))
]

-- Characters from 1 to 127 only.
unfoldable pub all_ascii : List ℕ → Bool
all_ascii [] = true
all_ascii (c ∷ t) = leb 1 c && (leb c 127 && all_ascii t)

pub all_ascii-append :
    (xs ys : List ℕ) → all_ascii xs ≡ true → all_ascii ys ≡ true → all_ascii (xs ++ ys) ≡ true
unfolding all_ascii
all_ascii-append [] ys h k = k
all_ascii-append (c ∷ xs) ys h k = ground (arith, all_ascii-append xs ys (ground arith) k)

all_ascii-digits : (t : List ℕ) → all_digits t ≡ true → all_ascii t ≡ true
unfolding all_ascii all_digits
all_ascii-digits [] h = refl
all_ascii-digits (c ∷ t) h = ground (arith, all_ascii-digits t (ground arith))

pub all_ascii-print_int : (w : ℕ) → all_ascii (print_int w) ≡ true
unfolding print_int all_ascii
all_ascii-print_int w = elim (Bool-cases (ltb w (2 ^ 31))) [
  | inl low ↦
      ap all_ascii (if_true _ _ low) ∙ all_ascii-digits (print_nat 10 w) (print_nat_digits 10 w)
  | inr high ↦
      ap all_ascii (if_false _ _ high)
      ∙ all_ascii-digits (print_nat 10 (2 ^ 32 - w)) (print_nat_digits 10 (2 ^ 32 - w))
]
