-- ===== src/Strip/Heap/Cursor.antt =====
-- Reading at a known place of a buffer: the reads of hprof_strip.cpp on encoded numbers.
use xapm.Base.{
  ℕ, ◌+◌, ◌/◌, ◌%◌, ◌^◌, ◌<◌, ◌≡◌, refl, ap, List, [], ◌∷◌, ◌++◌, ok, arith, length, drop, drop_add,
  get_elem?-drop, length-append, add32, int_max, lt→ltb,
}
use xapm.Strip.Heap.{load, get_short_from_bytes, get_int_from_bytes}
use xapm.Strip.Format.{u2, u4}

-- From index `i` on the buffer holds `rest`, and no index up to its end is negative as an `int`.
pub record Cursor (buf : List ℕ) (i : ℕ) (rest : List ℕ) : Type 0 where
  pub here : drop i buf ≡ rest
  pub within : i + length rest < int_max

module _ {buf : List ℕ} {i : ℕ} where
  -- Behind `xs`, which takes the index to `j`.
  pub move :
      (xs : List ℕ) {ys : List ℕ} (j : ℕ)
      → j ≡ i + length xs
      → Cursor buf i (xs ++ ys)
      → Cursor buf j ys
  move xs {ys} j e c = record {
    here = rw e (drop_add xs buf ys i c.here);
    within = omega (arith, length-append xs ys, c.within);
  }

pub load_at : {buf : List ℕ} {i x : ℕ} {xs : List ℕ} → Cursor buf i (x ∷ xs) → load buf i ≡ ok x
unfolding load
load_at {buf} {i} {x} {xs} c =
    rw (lt→ltb i int_max (omega (arith, c.within)), get_elem?-drop buf i x xs c.here)

-- The same one, two or three places further on, as an `int` index.
pub load_next :
    {buf : List ℕ} {i : ℕ} (k : ℕ) (pre : List ℕ) (x : ℕ) (xs : List ℕ)
    → k ≡ length pre
    → Cursor buf i (pre ++ x ∷ xs)
    → load buf (add32 i k) ≡ ok x
load_next {i = i} k pre x xs e c =
    let moved = move pre (add32 i k) (omega (arith, c.within, length-append pre (x ∷ xs))) c in
    load_at moved

module _ {buf : List ℕ} {i : ℕ} {xs : List ℕ} where
  pub get_short_at :
      (n : ℕ) → n < 2 ^ 16 → Cursor buf i (u2 n ++ xs) → get_short_from_bytes buf i ≡ ok n
  unfolding get_short_from_bytes
  get_short_at n h c = rw (load_at c, load_next 1 (n / 2 ^ 8 ∷ []) _ _ refl c) (ap ok (omega arith))

  pub get_int_at :
      (n : ℕ) → n < 2 ^ 32 → Cursor buf i (u4 n ++ xs) → get_int_from_bytes buf i ≡ ok n
  unfolding get_int_from_bytes
  get_int_at n h c =
      rw
        (
          load_at c,
          load_next 1 (n / 2 ^ 24 ∷ []) _ _ refl c,
          load_next 2 (n / 2 ^ 24 ∷ n / 2 ^ 16 % 2 ^ 8 ∷ []) _ _ refl c,
          load_next 3 (n / 2 ^ 24 ∷ n / 2 ^ 16 % 2 ^ 8 ∷ n / 2 ^ 8 % 2 ^ 8 ∷ []) _ _ refl c,
        )
        (ap ok (omega arith))
