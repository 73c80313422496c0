-- ===== src/Maps/Names.antt =====
-- `EndsWith` of map_util.hpp: whether a library's full name ends with the name that is looked for.
use xapm.Base.{
  ℕ, ◌≡◌, refl, sym, ap, ◌∙◌, ◌↔◌, inl, inr, Bool, true, false, List, [], ◌∷◌, ◌++◌, Option, none,
  some, ◌==◌, arith, length, length-append, append-nil, strstr, strstr-split, strstr-Contains,
  strstr-longest, Option-cases,
}

-- What is made of the place that `strstr` found.
unfoldable pub is_last : List ℕ → Option (List ℕ) → Bool
is_last suffix none = false
is_last suffix (some sub_str) = length sub_str == length suffix

-- `EndsWith` on texts that are not nullptr.
unfoldable pub ends_with : List ℕ → List ℕ → Bool
ends_with target suffix = is_last suffix (strstr target suffix)

-- Pointers that may be nullptr.
pub ends_with_ptr : Option (List ℕ) → Option (List ℕ) → Bool
ends_with_ptr (some target) (some suffix) = ends_with target suffix
ends_with_ptr _ _ = false

nil-of_length : (back : List ℕ) → length back ≡ 0 → back ≡ []
nil-of_length [] e = refl
nil-of_length (c ∷ back) e = absurd (omega arith)

ends_with-strstr :
    (target suffix : List ℕ)
    → ends_with target suffix ≡ true
    → (rest : List ℕ) × (strstr target suffix ≡ some rest) × (length rest ≡ length suffix)
unfolding ends_with is_last
ends_with-strstr target suffix h = elim (Option-cases (strstr target suffix)) [
  | inl e ↦ absurd (ground (arith, ap (is_last suffix) (sym e) ∙ h))
  | inr (rest, e) ↦ let k = ap (is_last suffix) (sym e) ∙ h in (rest, e, ground arith)
]

-- The suffix stands in the text at no other place than its end.
abbrev pub OnlyLast : List ℕ → List ℕ → Type 0
OnlyLast target suffix = (front back : List ℕ) → target ≡ front ++ (suffix ++ back) → back ≡ []

ends_with-append :
    (target suffix : List ℕ)
    → ends_with target suffix ≡ true
    → (front : List ℕ) × (target ≡ front ++ suffix)
ends_with-append target suffix h =
    let (rest, e, n) = ends_with-strstr target suffix h in
    let (front, back, p, q) = strstr-split target suffix rest e in
    let m = ap length q ∙ length-append suffix back in
    let none_left = nil-of_length back (omega arith) in
    (front, p ∙ ap (λ t. front ++ t) (q ∙ (ap (λ t. suffix ++ t) none_left ∙ append-nil suffix)))

ends_with-OnlyLast :
    (target suffix : List ℕ) → ends_with target suffix ≡ true → OnlyLast target suffix
ends_with-OnlyLast target suffix h front back p =
    let (rest, e, n) = ends_with-strstr target suffix h in
    let longest = strstr-longest target suffix rest front back e p in
    let m = length-append suffix back in nil-of_length back (omega arith)

OnlyLast-ends_with :
    (target suffix front : List ℕ)
    → target ≡ front ++ suffix
    → OnlyLast target suffix
    → ends_with target suffix ≡ true
unfolding ends_with is_last
OnlyLast-ends_with target suffix front p only =
    let there = p ∙ ap (λ t. front ++ t) (sym (append-nil suffix)) in
    let (rest, e) = strstr-Contains target suffix (front, [], there) in
    let (front', back, q, k) = strstr-split target suffix rest e in
    let last = only front' back (q ∙ ap (λ t. front' ++ t) k) in
    let m = ap length k ∙ length-append suffix back in
    let no_more = ap length last in
    let same : length rest ≡ length suffix = omega arith in rw e (ground arith)

-- `EndsWith` says yes exactly where the target ends with the suffix and has it at no other place:
-- it looks at the first place alone, so that a path that repeats the name is refused.
pub ends_with_iff :
    (target suffix : List ℕ)
    → (ends_with target suffix ≡ true)
      ↔ (((front : List ℕ) × (target ≡ front ++ suffix)) × OnlyLast target suffix)
ends_with_iff target suffix = (
  (λ h. (ends_with-append target suffix h, ends_with-OnlyLast target suffix h)),
  (λ ((front, p), only). OnlyLast-ends_with target suffix front p only),
)
