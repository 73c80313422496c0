-- ===== src/Base/CString.antt =====
-- The functions of <cstring> that the sources call, on texts as lists of character codes with no
-- terminating 0. A pointer into a text is the part of the text from there on.
use Prim.Native.Nat.{ℕ, ◌≤◌}
use mathlib.Core.Path.{◌≡◌, refl, sym, ap, ◌∙◌}
use mathlib.Core.Logic.{inl, inr}
use native.Mathlib.Omega.{arith}
use mathlib.Core.Bool.{Bool, true, false, ◌&&◌}
use mathlib.Core.List.{List, [], ◌∷◌, ◌++◌}
use mathlib.Core.Option.{Option, none, some, some-injective}
use xapm.Base.Lists.{length, length-append}
use xapm.Base.Tests.{◌==◌, if◌then◌else◌, Bool-cases, if_true, if_false}

-- Whether the second text begins with the first.
unfoldable pub starts_with : List ℕ → List ℕ → Bool
starts_with [] t = true
starts_with (p ∷ ps) [] = false
starts_with (p ∷ ps) (c ∷ t) = p == c && starts_with ps t

-- `strstr(text, part)`: the first place where `part` stands.
unfoldable pub strstr : List ℕ → List ℕ → Option (List ℕ)
unfolding starts_with
strstr [] part = if starts_with part [] then some [] else none
strstr (c ∷ t) part = if starts_with part (c ∷ t) then some (c ∷ t) else strstr t part

-- `strcmp(a, b) == 0`.
unfoldable pub strcmp_eq : List ℕ → List ℕ → Bool
strcmp_eq [] [] = true
strcmp_eq [] (c ∷ t) = false
strcmp_eq (c ∷ t) [] = false
strcmp_eq (c ∷ t) (d ∷ u) = c == d && strcmp_eq t u

-- `part` stands somewhere in the text.
abbrev pub Contains : List ℕ → List ℕ → Type 0
Contains part t = (front : List ℕ) × (back : List ℕ) × (t ≡ front ++ (part ++ back))

pub starts_with-append : (part back : List ℕ) → starts_with part (part ++ back) ≡ true
unfolding starts_with
starts_with-append [] back = refl
starts_with-append (p ∷ ps) back = ground (arith, starts_with-append ps back)

starts_with-split :
    (part t : List ℕ) → starts_with part t ≡ true → (back : List ℕ) × (t ≡ part ++ back)
unfolding starts_with
starts_with-split [] t h = (t, refl)
starts_with-split (p ∷ ps) [] h = cc
starts_with-split (p ∷ ps) (c ∷ t) h =
    let (back, e) = starts_with-split ps t (ground arith) in (back, ground arith)

-- What `strstr` finds is a place of the text where the part stands.
pub strstr-split :
    (t part rest : List ℕ)
    → strstr t part ≡ some rest
    → (front : List ℕ) × (back : List ℕ) × (t ≡ front ++ rest) × (rest ≡ part ++ back)
unfolding strstr
strstr-split [] part rest h = elim (Bool-cases (starts_with part [])) [
  | inl e ↦ let (back, p) = starts_with-split part [] e in ([], back, ground arith, ground arith)
  | inr e ↦ absurd (ground arith)
]
strstr-split (c ∷ t) part rest h = elim (Bool-cases (starts_with part (c ∷ t))) [
  | inl e ↦
      let (back, p) = starts_with-split part (c ∷ t) e in ([], back, ground arith, ground arith)
  | inr e ↦
      let (front, back, p, q) = strstr-split t part rest (ground arith) in
      (c ∷ front, back, ground arith, q)
]

starts_with-first : (t part back : List ℕ) → t ≡ part ++ back → starts_with part t ≡ true
starts_with-first t part back e = rw e (starts_with-append part back)

-- `strstr` finds a part that is there.
strstr-found :
    (t part front back : List ℕ)
    → t ≡ front ++ (part ++ back)
    → (rest : List ℕ) × (strstr t part ≡ some rest)
unfolding strstr
strstr-found [] part [] back e = ([], if_true _ _ (starts_with-first [] part back e))
strstr-found (c ∷ t) part [] back e = (c ∷ t, if_true _ _ (starts_with-first (c ∷ t) part back e))
strstr-found [] part (f ∷ front) back e = cc
strstr-found (c ∷ t) part (f ∷ front) back e = elim (Bool-cases (starts_with part (c ∷ t))) [
  | inl p ↦ (c ∷ t, if_true _ _ p)
  | inr p ↦
      let (rest, q) = strstr-found t part front back (ground arith) in (rest, if_false _ _ p ∙ q)
]

pub strstr-Contains :
    (t part : List ℕ) → Contains part t → (rest : List ℕ) × (strstr t part ≡ some rest)
strstr-Contains t part (front, back, e) = strstr-found t part front back e

-- `strstr` finds the first place: no place of the part has more text behind it.
pub strstr-longest :
    (t part rest front back : List ℕ)
    → strstr t part ≡ some rest
    → t ≡ front ++ (part ++ back)
    → length (part ++ back) ≤ length rest
unfolding strstr
strstr-longest [] part rest [] back h e =
    let r = some-injective [] rest (sym (if_true _ _ (starts_with-first [] part back e)) ∙ h) in
    let n = ap length (sym e ∙ r) in omega arith
strstr-longest [] part rest (f ∷ front) back h e = cc
strstr-longest (c ∷ t) part rest [] back h e =
    let r =
      some-injective (c ∷ t) rest (sym (if_true _ _ (starts_with-first (c ∷ t) part back e)) ∙ h) in
    let n = ap length (sym e ∙ r) in omega arith
strstr-longest (c ∷ t) part rest (f ∷ front) back h e =
    elim (Bool-cases (starts_with part (c ∷ t))) [
      | inl k ↦
          let r = ap length (some-injective (c ∷ t) rest (sym (if_true _ _ k) ∙ h)) in
          let n = ap length e in let m = length-append front (part ++ back) in omega arith
      | inr k ↦ strstr-longest t part rest front back (sym (if_false _ _ k) ∙ h) (ground arith)
    ]

-- Two texts compare equal exactly when they are equal.
pub strcmp_eq-eq : (a b : List ℕ) → strcmp_eq a b ≡ true → a ≡ b
unfolding strcmp_eq
strcmp_eq-eq [] [] h = refl
strcmp_eq-eq [] (d ∷ b) h = cc
strcmp_eq-eq (c ∷ a) [] h = cc
strcmp_eq-eq (c ∷ a) (d ∷ b) h = ground (arith, strcmp_eq-eq a b)

pub strcmp_eq_refl : (a : List ℕ) → strcmp_eq a a ≡ true
unfolding strcmp_eq
strcmp_eq_refl [] = refl
strcmp_eq_refl (c ∷ a) = ground (arith, strcmp_eq_refl a)
