-- ===== src/Strip/Kernel/Loop.antt =====
-- The loop of `FullyWrite`: it writes everything, if the kernel goes on taking bytes, and it never
-- ends if the kernel goes on refusing.
use xapm.Base.{
  ℕ, zero, suc, ◌+◌, ◌≤◌, ◌≡◌, refl, ap, ◌∙◌, fun_ext, List, [], ◌∷◌, ◌++◌, Option, none, Result,
  ok, stuck, arith, length, length-append, append_assoc, append-nil, take, drop, take-append-drop,
  All, ◌≢◌,
}
use xapm.Strip.Kernel.{
  WriteOutcome, failed, accepted, Files, Kernel, append_file, write_loop, fully_write, system_write,
}

-- The calls that take at least one byte.
abbrev pub progress : List WriteOutcome → ℕ
progress [] = 0
progress (failed ∷ os) = progress os
progress (accepted zero ∷ os) = progress os
progress (accepted (suc n) ∷ os) = suc (progress os)

pub append_file-nil : (files : Files) (fd : ℕ) → append_file files fd [] ≡ files
append_file-nil files fd = fun_ext (λ g. ground (arith, append-nil (files g)))

pub append_file-append :
    (files : Files) (fd : ℕ) (xs ys : List ℕ)
    → append_file (append_file files fd xs) fd ys ≡ append_file files fd (xs ++ ys)
append_file-append files fd xs ys = fun_ext (λ g. ground (arith, append_assoc (files g) xs ys))

append_parts :
    (files : Files) (fd n : ℕ) (bytes : List ℕ)
    → append_file (append_file files fd (take n bytes)) fd (drop n bytes)
      ≡ append_file files fd bytes
append_parts files fd n bytes =
    append_file-append files fd (take n bytes) (drop n bytes)
    ∙ ap (append_file files fd) (take-append-drop n bytes)

-- Whatever the kernel answers: when the loop of `FullyWrite` ends, its file descriptor has taken all
-- the bytes, in order and once, and no other has taken any.
pub write_loop_all :
    (fd : ℕ) (os : List WriteOutcome) (bytes : List ℕ) (files : Files) (k : Kernel)
    → write_loop fd os bytes files ≡ ok k
    → k.files ≡ append_file files fd bytes
unfolding write_loop
write_loop_all fd os [] files k e = rw append_file-nil (ground arith)
write_loop_all fd [] (b ∷ bs) files k e = cc
write_loop_all fd (failed ∷ os) (b ∷ bs) files k e = write_loop_all fd os (b ∷ bs) files k e
write_loop_all fd (accepted n ∷ os) (b ∷ bs) files k e =
    write_loop_all fd os (drop n (b ∷ bs)) (append_file files fd (take n (b ∷ bs))) k e
    ∙ append_parts files fd n (b ∷ bs)

length-drop_le : (n : ℕ) (xs : List ℕ) → length (drop n xs) ≤ length xs
length-drop_le n xs =
    omega (arith, ap length (take-append-drop n xs), length-append (take n xs) (drop n xs))

abbrev pub returned : Files → List WriteOutcome → Result Kernel
returned files os = ok (record { files = files; outcomes = os })

same : {f g : Files} (os : List WriteOutcome) → f ≡ g → returned f os ≡ returned g os
same os e = rw e

-- With enough such calls the loop ends, and each of its rounds uses up one answer.
pub write_loop_lem :
    (fd : ℕ) (os : List WriteOutcome) (bytes : List ℕ) (files : Files)
    → length bytes ≤ progress os
    → (left : List WriteOutcome) × (write_loop fd os bytes files
        ≡ ok (record { files = append_file files fd bytes; outcomes = left }))
      × (progress os ≤ progress left + length bytes)
unfolding write_loop
write_loop_lem fd os [] files h = (os, rw append_file-nil, omega arith)
write_loop_lem fd [] (b ∷ bs) files h = absurd (omega arith)
write_loop_lem fd (failed ∷ os) (b ∷ bs) files h = write_loop_lem fd os (b ∷ bs) files h
write_loop_lem fd (accepted zero ∷ os) (b ∷ bs) files h =
    let (left, p, q) = write_loop_lem fd os (b ∷ bs) (append_file files fd []) h in
    (left, p ∙ same left (append_parts files fd 0 (b ∷ bs)), q)
write_loop_lem fd (accepted (suc n) ∷ os) (b ∷ bs) files h =
    let short = length-drop_le n bs in
    let (left, p, q) =
      write_loop_lem fd os (drop n bs) (append_file files fd (b ∷ take n bs)) (omega arith) in
    (left, p ∙ same left (append_parts files fd (suc n) (b ∷ bs)), omega arith)

-- `FullyWrite` returns if the kernel takes at least one byte in as many calls as there are bytes, errors
-- and empty writes between them notwithstanding. The descriptor has then taken exactly the bytes, and
-- at most as many of those calls are used up.
pub fully_write_lem :
    (fd : ℕ) (bytes : List ℕ) (k : Kernel)
    → length bytes ≤ progress k.outcomes
    → (k' : Kernel) × (fully_write fd bytes k ≡ ok k')
      × (k'.files ≡ append_file k.files fd bytes)
      × (progress k.outcomes ≤ progress k'.outcomes + length bytes)
unfolding fully_write
fully_write_lem fd bytes k h =
    let (left, p, q) = write_loop_lem fd k.outcomes bytes k.files h in
    (record { files = append_file k.files fd bytes; outcomes = left }, p, refl, q)

-- On a file descriptor that gives nothing but errors `FullyWrite` never returns: it has bytes left and
-- calls `write` again, however often that failed.
pub write_loop_failing :
    (fd : ℕ) (os : List WriteOutcome) (bytes : List ℕ) (files : Files)
    → All (λ o. o ≡ failed) os
    → bytes ≢ []
    → write_loop fd os bytes files ≡ stuck
unfolding write_loop
write_loop_failing fd os [] files h ne = absurd (ne refl)
write_loop_failing fd [] (b ∷ bs) files h ne = refl
write_loop_failing fd (failed ∷ os) (b ∷ bs) files h ne =
    write_loop_failing fd os (b ∷ bs) files h.1 ne
write_loop_failing fd (accepted n ∷ os) (b ∷ bs) files h ne = cc (h.0)

-- One call that the kernel answers: it changes the file of its own descriptor alone, and uses up one
-- answer.
pub system_write_lem :
    (fd : ℕ) (bytes : List ℕ) (os : List WriteOutcome) (files : Files)
    → 1 ≤ progress os
    → (r : Option ℕ) × (k : Kernel) × (system_write fd bytes os files ≡ ok (r, k))
      × ((g : ℕ) → g ≢ fd → k.files g ≡ files g)
      × (progress os ≤ progress k.outcomes + 1)
unfolding system_write
system_write_lem fd bytes [] files h = absurd (omega arith)
system_write_lem fd bytes (failed ∷ os) files h =
    (none, record { files = files; outcomes = os }, refl, λ g n. refl, omega arith)
system_write_lem fd bytes (accepted zero ∷ os) files h = (
  _,
  record { files = append_file files fd (take 0 bytes); outcomes = os },
  refl,
  λ g n. ground arith,
  omega arith,
)
system_write_lem fd bytes (accepted (suc m) ∷ os) files h = (
  _,
  record { files = append_file files fd (take (suc m) bytes); outcomes = os },
  refl,
  λ g n. ground arith,
  omega arith,
)
