-- ===== src/Strip/Write/Gaps.antt =====
-- The loop of `HookWriteInternal` over the strips: it writes what lies between them.
use xapm.Base.{
  ℕ, zero, suc, ◌+◌, ◌-◌, ◌*◌, ◌%◌, ◌≤◌, ◌<◌, ◌≡◌, refl, sym, ap, ◌∙◌, List, [], ◌∷◌, ◌++◌, Result,
  ok, ◌>>=◌, arith, length, take, drop, length-take_le, length-drop, take_all, lt→ltb, le→leb,
  u64_mod, int_max, sub32,
}
use xapm.Strip.State.Strips.{pairs}
use xapm.Strip.Kernel.{Kernel, append_file, fully_write}
use xapm.Strip.Kernel.Loop.{progress, append_file-nil, append_file-append, fully_write_lem}
use xapm.Strip.Write.{slice, to_size, write_range, write_gaps}

-- Pieces that follow one another from `start` on, up to `top`.
abbrev pub Ordered : ℕ → ℕ → List (ℕ × ℕ) → Type 0
Ordered start top [] = start ≤ top
Ordered start top ((l, r) ∷ ps) = (start ≤ l) × (l ≤ r) × Ordered r top ps

-- The buffer from `start` on without the pieces.
abbrev pub cut : List ℕ → ℕ → List (ℕ × ℕ) → List ℕ
cut buf start [] = drop start buf
cut buf start ((l, r) ∷ ps) = take (l - start) (drop start buf) ++ cut buf r ps

-- A range that lies in the buffer is written whole.
write_range_lem :
    (fd : ℕ) (buf : List ℕ) (start len : ℕ) (k : Kernel)
    → start + len ≤ length buf
    → length buf < int_max
    → len ≤ progress k.outcomes
    → (k' : Kernel) × (write_range fd buf start len k ≡ ok k')
      × (k'.files ≡ append_file k.files fd (take len (drop start buf)))
      × (progress k.outcomes ≤ progress k'.outcomes + len)
unfolding write_range slice
write_range_lem fd buf start zero k h w e = (k, refl, sym (append_file-nil k.files fd), omega arith)
write_range_lem fd buf start (suc n) k h w e =
    let (k', p, f, q) = fully_write_lem fd bytes k (omega (arith, size)) in
    (k', step ∙ p, f, omega (arith, q, size))
  where
    bytes : List ℕ
    bytes = take (suc n) (drop start buf)

    size : length bytes ≡ suc n
    size = length-take_le (suc n) (drop start buf) (omega (arith, length-drop start buf))

    step : write_range fd buf start (suc n) k ≡ fully_write fd bytes k
    step = rw (
      lt→ltb 0 (suc n) (omega arith),
      lt→ltb start int_max (omega arith),
      le→leb (start + suc n) (length buf) h,
    )

-- The end of `HookWriteInternal`: the loop, and what follows the last piece.
abbrev pub write_rest : ℕ → List ℕ → (ℕ → ℕ) → ℕ → ℕ → ℕ → Kernel → Result Kernel
write_rest fd buf f n i start k = write_gaps fd buf f n i start k >>= λ (p : ℕ × Kernel).
    write_range fd buf p.0 ((length buf + u64_mod - to_size p.0) % u64_mod) p.1

to_size_lem : (d : ℕ) → d < int_max → to_size d ≡ d
to_size_lem d h = ground arith

Ordered-le : (start top : ℕ) (ps : List (ℕ × ℕ)) → Ordered start top ps → start ≤ top
Ordered-le start top [] o = o
Ordered-le start top ((l, r) ∷ ps) (o, oo, os) = omega (arith, Ordered-le r top ps os)

pub write_rest_lem :
    (fd : ℕ) (buf : List ℕ) (f : ℕ → ℕ) (n i start : ℕ) (k : Kernel)
    → Ordered start (length buf) (pairs f i n)
    → length buf < int_max
    → length buf ≤ progress k.outcomes + start
    → (k' : Kernel) × (write_rest fd buf f n i start k ≡ ok k')
      × (k'.files ≡ append_file k.files fd (cut buf start (pairs f i n)))
      × (progress k.outcomes ≤ progress k'.outcomes + (length buf - start))
unfolding write_gaps
write_rest_lem fd buf f zero i start k o w e =
    let len : (length buf + u64_mod - to_size start) % u64_mod ≡ length buf - start =
      omega (arith, to_size_lem start (omega arith)) in
    let (k', p, g, q) =
      write_range_lem fd buf start (length buf - start) k (omega arith) w (omega arith) in
    let whole =
      take_all (length buf - start) (drop start buf) (omega (arith, length-drop start buf)) in
    (
      k',
      ap (λ (n : ℕ). write_range fd buf start n k) len ∙ p,
      g ∙ ap (append_file k.files fd) whole,
      q,
    )
write_rest_lem fd buf f (suc n) i start k (o, oo, os) w e =
    let l = f (i * 2) in
    let r = f (i * 2 + 1) in
    let below = Ordered-le r (length buf) (pairs f (suc i) n) os in
    let len : to_size (sub32 l start) ≡ l - start =
      to_size_lem (sub32 l start) (omega arith) ∙ omega arith in
    let (k', p, g, q) = write_range_lem fd buf start (l - start) k (omega arith) w (omega arith) in
    let (k'', p', g', q') = write_rest_lem fd buf f n (suc i) r k' os w (omega arith) in
    let step = ap (λ (n : ℕ). write_range fd buf start n k) len ∙ p in
    (k'', rw step p', g' ∙ rw g (append_file-append k.files fd _ _), omega (arith, q, q', below))
