-- ===== src/Dump/Waits.antt =====
-- The loop around waitpid in `ResumeAndWait` of hprof_dump.cpp.
use xapm.Base.{
  ℕ, zero, suc, ◌%◌, ◌<◌, ◌≡◌, refl, sym, ap, ◌∙◌, inl, inr, Bool, true, false, ok, ok-injective,
  ◌==◌, if◌then◌else◌, Bool-cases, if_true, if_false, arith,
}
use xapm.Dump.{WaitResult, waited, wait_failed, Machine, eintr, has_exited, wait_loop}

-- Whether the call is made again, and what the loop returns where it is not.
abbrev pub is_interrupt : WaitResult → Bool
is_interrupt (waited status) = false
is_interrupt (wait_failed errno) = errno == eintr

abbrev pub is_exit : WaitResult → Bool
is_exit (waited status) = status % 128 == 0
is_exit (wait_failed errno) = false

module _ {W : Type 0} (machine : Machine W) (pid : ℕ) where
  -- waitpid is interrupted `n` times, one after the other.
  pub data Interrupted : ℕ → W → W → Type 0 where
    not_yet : (w : W) → Interrupted 0 w w
    once_more :
        (n : ℕ) (w v : W)
        → is_interrupt (machine.waitpid pid w).1 ≡ true
        → Interrupted n (machine.waitpid pid w).0 v
        → Interrupted (suc n) w v

  wait_loop_once :
      (fuel : ℕ) (w u : W) (r : WaitResult)
      → (if is_interrupt r then wait_loop machine fuel pid u else ok (u, is_exit r)) ≡ elim r [
        | waited status ↦ ok (u, has_exited machine status)
        | wait_failed errno ↦ if errno == eintr then wait_loop machine fuel pid u else ok (u, false)
      ]
  wait_loop_once fuel w u (waited status) = refl
  wait_loop_once fuel w u (wait_failed errno) = refl

  -- One round.
  wait_loop-step :
      (fuel : ℕ) (w : W)
      → wait_loop machine (suc fuel) pid w ≡ (
          if is_interrupt (machine.waitpid pid w).1
          then wait_loop machine fuel pid (machine.waitpid pid w).0
          else ok ((machine.waitpid pid w).0, is_exit (machine.waitpid pid w).1))
  unfolding wait_loop
  wait_loop-step fuel w =
      sym (wait_loop_once fuel w (machine.waitpid pid w).0 (machine.waitpid pid w).1)

  -- Where signals interrupt waitpid `n` times and not the time after, more than `n` rounds are enough:
  -- the loop ends, and returns whether that last call reports a child that has exited by itself.
  pub wait_loop_lem :
      (n fuel : ℕ) (w v : W)
      → Interrupted n w v
      → is_interrupt (machine.waitpid pid v).1 ≡ false
      → n < fuel
      → wait_loop machine fuel pid w
        ≡ ok ((machine.waitpid pid v).0, is_exit (machine.waitpid pid v).1)
  wait_loop_lem n zero w v i e h = absurd (omega arith)
  wait_loop_lem _ (suc fuel) w _ (not_yet _) e h = wait_loop-step fuel w ∙ if_false _ _ e
  wait_loop_lem _ (suc fuel) w v (once_more n _ _ p i) e h =
      wait_loop-step fuel w
      ∙ (if_true _ _ p ∙ wait_loop_lem n fuel (machine.waitpid pid w).0 v i e (omega arith))

  -- Signals interrupt waitpid, and then it reports the child.
  abbrev pub HasExited : W → Type 0
  HasExited w =
      (n : ℕ) × (v : W) × (status : ℕ) × Interrupted n w v
      × ((machine.waitpid pid v).1 ≡ waited status)
      × (status % 128 ≡ 0)

  is_exit-waited :
      (r : WaitResult) → is_exit r ≡ true → (status : ℕ) × (r ≡ waited status) × (status % 128 ≡ 0)
  is_exit-waited (waited status) h = (status, refl, ground arith)
  is_exit-waited (wait_failed errno) h = absurd (ground arith)

  -- `ResumeAndWait`'s loop returns true only for a child that has exited by itself: after some calls
  -- that signals interrupted, waitpid reported a status of which WIFEXITED holds. A child that a
  -- signal ended, its own timeout's included, and an error of waitpid give false.
  pub wait_loop-HasExited :
      (fuel : ℕ) (w u : W) → wait_loop machine fuel pid w ≡ ok (u, true) → HasExited w
  unfolding wait_loop
  wait_loop-HasExited zero w u h = absurd (ground arith)
  wait_loop-HasExited (suc fuel) w u h =
      elim (Bool-cases (is_interrupt (machine.waitpid pid w).1)) [
        | inl e ↦
            let (n, v, status, i, p, q) =
              wait_loop-HasExited fuel (machine.waitpid pid w).0 u
                (sym (wait_loop-step fuel w ∙ if_true _ _ e) ∙ h) in
            (suc n, v, status, once_more n w v e i, p, q)
        | inr e ↦
            let k = ok-injective _ _ (sym (wait_loop-step fuel w ∙ if_false _ _ e) ∙ h) in
            let (status, p, q) =
              is_exit-waited (machine.waitpid pid w).1 (ap (λ (r : W × Bool). r.1) k) in
            (0, w, status, not_yet w, p, q)
      ]
