-- ===== src/Dump/Missing.antt =====
-- The calls of hprof_dump.cpp through function pointers that may be null.
use xapm.Base.{
  ℕ, ◌≡◌, refl, Bool, true, false, ◌&&◌, List, Option, none, some, Result, ok, fault, ◌>>=◌, ltb,
  leb, if◌then◌else◌, Fault, arith,
}
use xapm.Dump.{
  Machine, HprofDump, call, deref, suspend_all, suspend, after_fork, suspend_and_fork, resume_all,
  resume,
}

abbrev is_set : Option ℕ → Bool
is_set none = false
is_set (some f) = true

-- The pointers that a call of `SuspendAndFork`, and one of `ResumeAndWait`, go through.
pub can_suspend : HprofDump → Bool
can_suspend d =
    if ltb d.android_api 30
    then is_set d.suspend_vm_fnc
    else if leb d.android_api 34
    then is_set d.sgc_constructor_fnc
      && (is_set d.ssa_constructor_fnc
          && (is_set d.mutator_lock_ptr
              && (is_set d.exclusive_unlock_fnc && is_set d.sgc_destructor_fnc)))
    else true

pub can_resume : HprofDump → Bool
can_resume d =
    if ltb d.android_api 30
    then is_set d.resume_vm_fnc
    else if leb d.android_api 34
    then is_set d.mutator_lock_ptr && (is_set d.exclusive_lock_fnc && is_set d.ssa_destructor_fnc)
    else true

-- A result that is a value where the test holds, and undefined behaviour where it does not.
pub data Outcome {ℓ} {V : Type ℓ} (ready : Bool) : Result V → Type ℓ where
  returns : (v : V) → ready ≡ true → Outcome ready (ok v)
  faults : (why : Fault) → ready ≡ false → Outcome ready (fault why)

and-Outcome {ℓ} :
    {V : Type ℓ} (ready also : Bool) (r : Result V)
    → ready ≡ true
    → Outcome also r
    → Outcome (ready && also) r
and-Outcome ready also _ e (returns w k) = returns w (ground arith)
and-Outcome ready also _ e (faults why k) = faults why (ground arith)

module _ {ℓ κ} {V : Type ℓ} {W : Type κ} (ready also : Bool) where
  >>=-Outcome :
      (first : Result V) (next : V → Result W)
      → Outcome ready first
      → ((v : V) → Outcome also (next v))
      → Outcome (ready && also) (first >>= next)
  >>=-Outcome _ next (returns v e) n = and-Outcome ready also (next v) e (n v)
  >>=-Outcome _ next (faults why e) n = faults why (ground arith)

if-Outcome {ℓ} :
    {V : Type ℓ} (test a b : Bool) (r q : Result V)
    → Outcome a r
    → Outcome b q
    → Outcome (if test then a else b) (if test then r else q)
if-Outcome true a b r q h k = h
if-Outcome false a b r q h k = k

module _ {W : Type 0} (machine : Machine W) where
  call-Outcome :
      (f : Option ℕ) (arguments : List ℕ) (w : W) → Outcome (is_set f) (call machine f arguments w)
  unfolding call
  call-Outcome none arguments w = faults _ refl
  call-Outcome (some f) arguments w = returns _ refl

  deref-Outcome : (p : Option ℕ) (w : W) → Outcome (is_set p) (deref machine p w)
  unfolding deref
  deref-Outcome none w = faults _ refl
  deref-Outcome (some p) w = returns _ refl

  suspend-Outcome : (d : HprofDump) (w : W) → Outcome (can_suspend d) (suspend machine d w)
  unfolding suspend suspend_all can_suspend
  suspend-Outcome d w = if-Outcome _ _ _ _ _ (call-Outcome d.suspend_vm_fnc _ w) (
      if-Outcome _ _ _ _ _
        (>>=-Outcome _ _ _ _ (call-Outcome d.sgc_constructor_fnc _ w) (λ w1.
          >>=-Outcome _ _ _ _ (call-Outcome d.ssa_constructor_fnc _ w1) (λ w2.
            >>=-Outcome _ _ _ _ (deref-Outcome d.mutator_lock_ptr w2) (λ lock.
              >>=-Outcome _ _ _ _ (call-Outcome d.exclusive_unlock_fnc _ w2)
                (λ w3. call-Outcome d.sgc_destructor_fnc _ w3)))))
        (returns w refl))

  resume-Outcome : (d : HprofDump) (w : W) → Outcome (can_resume d) (resume machine d w)
  unfolding resume resume_all can_resume
  resume-Outcome d w = if-Outcome _ _ _ _ _ (call-Outcome d.resume_vm_fnc _ w) (
      if-Outcome _ _ _ _ _
        (>>=-Outcome _ _ _ _ (deref-Outcome d.mutator_lock_ptr w) (λ lock.
          >>=-Outcome _ _ _ _ (call-Outcome d.exclusive_lock_fnc _ w)
            (λ w1. call-Outcome d.ssa_destructor_fnc _ w1)))
        (returns w refl))

  fork-Outcome :
      (ready : Bool) (r : Result W)
      → Outcome ready r
      → Outcome ready (r >>= (λ v. ok (after_fork machine (machine.fork v))))
  fork-Outcome ready _ (returns v e) = returns _ e
  fork-Outcome ready _ (faults why e) = faults why e

  -- `SuspendAndFork`, and the part of `ResumeAndWait` before its loop, return exactly where every
  -- pointer that they go through at the API level is set, and are undefined behaviour where one is
  -- null, also before `Initialize`. Above Android U they go through none and return.
  pub suspend_and_fork-Outcome :
      (d : HprofDump) (w : W)
      → Outcome (can_suspend d) (suspend_and_fork machine d w)
        × Outcome (can_resume d) (resume machine d w)
  unfolding suspend_and_fork
  suspend_and_fork-Outcome d w =
      (fork-Outcome (can_suspend d) (suspend machine d w) (suspend-Outcome d w), resume-Outcome d w)
