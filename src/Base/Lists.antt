-- ===== src/Base/Lists.antt =====
-- Lists measured and indexed by native numbers, under the library's names.
use Prim.Native.Nat.{ℕ, zero, suc, ◌+◌, ◌-◌, ◌≤◌}
use mathlib.Core.Path.{◌≡◌, refl, ap, ◌∙◌}
use mathlib.Core.List.{List, [], ◌∷◌, ◌++◌, append-nil}
use mathlib.Core.Option.{Option, none, some}
use native.Mathlib.Omega.{arith}

module _ {ℓ} {A : Type ℓ} where
  abbrev pub length : List A → ℕ
  length [] = 0
  length (x ∷ xs) = suc (length xs)

  abbrev pub get_elem? : List A → ℕ → Option A
  get_elem? [] i = none
  get_elem? (x ∷ xs) zero = some x
  get_elem? (x ∷ xs) (suc i) = get_elem? xs i

  abbrev pub set : List A → ℕ → A → List A
  set [] i v = []
  set (x ∷ xs) zero v = v ∷ xs
  set (x ∷ xs) (suc i) v = x ∷ set xs i v

  abbrev pub take : ℕ → List A → List A
  take zero xs = []
  take (suc n) [] = []
  take (suc n) (x ∷ xs) = x ∷ take n xs

  abbrev pub drop : ℕ → List A → List A
  drop zero xs = xs
  drop (suc n) [] = []
  drop (suc n) (x ∷ xs) = drop n xs

  abbrev pub replicate : ℕ → A → List A
  replicate zero a = []
  replicate (suc n) a = a ∷ replicate n a

  abbrev pub All {κ} : (A → Type κ) → List A → Type κ
  All P [] = Unit {κ}
  All P (x ∷ xs) = P x × All P xs

module _ {ℓ} {A : Type ℓ} where
  pub length-append : (xs ys : List A) → length (xs ++ ys) ≡ length xs + length ys
  length-append [] ys = omega arith
  length-append (x ∷ xs) ys = omega (arith, length-append xs ys)

  -- The element just behind a prefix.
  pub get_elem?-append :
      (xs : List A) (y : A) (ys : List A) (i : ℕ)
      → i ≡ length xs
      → get_elem? (xs ++ y ∷ ys) i ≡ some y
  get_elem?-append [] y ys zero e = refl
  get_elem?-append [] y ys (suc i) e = absurd (omega arith)
  get_elem?-append (x ∷ xs) y ys zero e = absurd (omega arith)
  get_elem?-append (x ∷ xs) y ys (suc i) e = get_elem?-append xs y ys i (omega arith)

  pub drop-append : (xs ys : List A) (i : ℕ) → i ≡ length xs → drop i (xs ++ ys) ≡ ys
  drop-append [] ys zero e = refl
  drop-append [] ys (suc i) e = absurd (omega arith)
  drop-append (x ∷ xs) ys zero e = absurd (omega arith)
  drop-append (x ∷ xs) ys (suc i) e = drop-append xs ys i (omega arith)

  pub take-append : (xs ys : List A) (i : ℕ) → i ≡ length xs → take i (xs ++ ys) ≡ xs
  take-append [] ys zero e = refl
  take-append [] ys (suc i) e = absurd (omega arith)
  take-append (x ∷ xs) ys zero e = absurd (omega arith)
  take-append (x ∷ xs) ys (suc i) e = ap (λ (t : List A). x ∷ t) (take-append xs ys i (omega arith))

  pub length-take_le : (n : ℕ) (xs : List A) → n ≤ length xs → length (take n xs) ≡ n
  length-take_le zero xs h = refl
  length-take_le (suc n) [] h = absurd (omega arith)
  length-take_le (suc n) (x ∷ xs) h = ap suc (length-take_le n xs (omega arith))

  pub take-append-drop : (n : ℕ) (xs : List A) → take n xs ++ drop n xs ≡ xs
  take-append-drop zero xs = refl
  take-append-drop (suc n) [] = refl
  take-append-drop (suc n) (x ∷ xs) = ap (λ (t : List A). x ∷ t) (take-append-drop n xs)

  drop-nil : (i : ℕ) → drop {A = A} i [] ≡ []
  drop-nil zero = refl
  drop-nil (suc i) = refl

  pub drop_add :
      (xs buf ys : List A) (i : ℕ) → drop i buf ≡ xs ++ ys → drop (i + length xs) buf ≡ ys
  drop_add xs buf ys zero h = rw h (drop-append xs ys _ (omega arith))
  drop_add [] [] ys (suc i) h = drop-nil _ ∙ h
  drop_add (x ∷ xs) [] ys (suc i) h = cc
  drop_add xs (b ∷ buf) ys (suc i) h =
      let e : suc i + length xs ≡ suc (i + length xs) = omega arith in rw e (drop_add xs buf ys i h)

  pub get_elem?-drop :
      (buf : List A) (i : ℕ) (x : A) (xs : List A) → drop i buf ≡ x ∷ xs → get_elem? buf i ≡ some x
  get_elem?-drop [] zero x xs h = cc
  get_elem?-drop [] (suc i) x xs h = cc
  get_elem?-drop (b ∷ buf) zero x xs h = cc
  get_elem?-drop (b ∷ buf) (suc i) x xs h = get_elem?-drop buf i x xs h

  take_add : (i n : ℕ) (xs : List A) → take (i + n) xs ≡ take i xs ++ take n (drop i xs)
  take_add zero n xs = let e : zero + n ≡ n = omega arith in rw e
  take_add (suc i) zero [] = let e : suc i + zero ≡ suc i = omega arith in rw e
  take_add (suc i) (suc n) [] = let e : suc i + suc n ≡ suc (i + suc n) = omega arith in rw e
  take_add (suc i) n (x ∷ xs) =
      let e : suc i + n ≡ suc (i + n) = omega arith in
      rw e (ap (λ (t : List A). x ∷ t) (take_add i n xs))

  -- A prefix cut off behind `start` grows by what follows it.
  pub take_extend :
      (start i : ℕ) (buf xs ys : List A)
      → start ≤ i
      → drop i buf ≡ xs ++ ys
      → take (i + length xs - start) (drop start buf) ≡ take (i - start) (drop start buf) ++ xs
  take_extend zero i buf xs ys h e =
      let p : i + length xs - zero ≡ i + length xs = omega arith in
      let q : i - zero ≡ i = omega arith in
      rw (p, q, take_add i (length xs) buf, e, take-append xs ys (length xs) refl)
  take_extend (suc start) zero buf xs ys h e = absurd (omega arith)
  take_extend (suc start) (suc i) [] [] ys h e =
      let p : suc i + zero - suc start ≡ i - start = omega arith in
      let q : suc i - suc start ≡ i - start = omega arith in rw (p, q, append-nil)
  take_extend (suc start) (suc i) [] (x ∷ xs) ys h e = cc
  take_extend (suc start) (suc i) (b ∷ buf) xs ys h e =
      let p : suc i + length xs - suc start ≡ i + length xs - start = omega arith in
      let q : suc i - suc start ≡ i - start = omega arith in
      rw (p, q) (take_extend start i buf xs ys (omega arith) e)

  pub length-drop : (n : ℕ) (xs : List A) → length (drop n xs) ≡ length xs - n
  length-drop zero xs = omega arith
  length-drop (suc n) [] = omega arith
  length-drop (suc n) (x ∷ xs) = omega (arith, length-drop n xs)

  pub take_all : (n : ℕ) (xs : List A) → length xs ≤ n → take n xs ≡ xs
  take_all zero [] h = refl
  take_all zero (x ∷ xs) h = absurd (omega arith)
  take_all (suc n) [] h = refl
  take_all (suc n) (x ∷ xs) h = ap (λ (t : List A). x ∷ t) (take_all n xs (omega arith))
