-- ===== src/Dump/Mapped.antt =====
-- `SuspendAndFork` of hprof_dump.cpp in a process that has more to it than the VM.
use xapm.Base.{
  ℕ, ◌≡◌, sym, ap, ◌∙◌, inl, inr, List, [], ◌∷◌, Option, none, some, Result, ok, ◌>>=◌, >>=-eq-ok,
  ok-injective, ltb, leb, if_true, if_false, Bool-cases, arith,
}
use xapm.Dump.{Machine, HprofDump, get, call, deref, suspend_all, suspend}
use xapm.Dump.Causes.{gc_cause_hprof, gc_cause_value, collector_type_hprof, collector_type_value}

-- The second machine does in the image of a state what the first does in the state.
pub record IsImage {W X : Type 0} (first : Machine W) (second : Machine X) (image : W → X)
    : Type 0 where
  pub calls :
      (f : ℕ) (arguments : List ℕ) (w : W)
      → second.call_at f arguments (image w) ≡ image (first.call_at f arguments w)
  pub reads : (p : ℕ) (w : W) → second.read_pointer p (image w) ≡ first.read_pointer p w
  pub same_self : second.thread_self ≡ first.thread_self
  pub same_tag : second.log_tag ≡ first.log_tag

module _ {W X : Type 0} (first : Machine W) (second : Machine X) (image : W → X)
    (is_image : IsImage first second image) where
  call-image :
      (f : Option ℕ) (arguments : List ℕ) (w v : W)
      → call first f arguments w ≡ ok v
      → call second f arguments (image w) ≡ ok (image v)
  unfolding call
  call-image none arguments w v e = absurd (ground arith)
  call-image (some f) arguments w v e =
      ap ok (is_image.calls f arguments w ∙ ap image (ok-injective _ v e))

  call-next :
      (f : Option ℕ) (arguments arguments' : List ℕ) (w v : W) (next : X → Result X) (r : Result X)
      → call first f arguments w ≡ ok v
      → arguments' ≡ arguments
      → next (image v) ≡ r
      → (call second f arguments' (image w) >>= next) ≡ r
  call-next f arguments arguments' w v next r e same k =
      ap (λ (a : List ℕ). call second f a (image w) >>= next) same
      ∙ (ap (λ (c : Result X). c >>= next) (call-image f arguments w v e) ∙ k)

  deref-image :
      (p : Option ℕ) (w : W) (lock : ℕ)
      → deref first p w ≡ ok lock
      → deref second p (image w) ≡ ok lock
  unfolding deref
  deref-image none w lock e = absurd (ground arith)
  deref-image (some p) w lock e = ap ok (is_image.reads p w) ∙ e

  suspend_all-image :
      (d : HprofDump) (w v : W)
      → suspend_all first d w ≡ ok v
      → suspend_all second d (image w) ≡ ok (image v)
  unfolding suspend_all
  suspend_all-image d w v e =
      let (w1, p1, e1) = >>=-eq-ok (call first d.sgc_constructor_fnc _ w) _ e in
      let (w2, p2, e2) = >>=-eq-ok (call first d.ssa_constructor_fnc _ w1) _ e1 in
      let (lock, p3, e3) = >>=-eq-ok (deref first d.mutator_lock_ptr w2) _ e2 in
      let (w3, p4, e4) = >>=-eq-ok (call first d.exclusive_unlock_fnc _ w2) _ e3 in
      let self = is_image.same_self in
      call-next d.sgc_constructor_fnc _ _ w w1 _ _ p1
        (ap
          (λ (t : ℕ).
            get d.sgc_instance
            ∷ t
            ∷ gc_cause_value gc_cause_hprof
            ∷ collector_type_value collector_type_hprof
            ∷ [])
          self)
        (call-next d.ssa_constructor_fnc _ _ w1 w2 _ _ p2
          (ap (λ (t : ℕ). get d.ssa_instance ∷ t ∷ 1 ∷ []) is_image.same_tag)
          (ap
              (λ (r : Result ℕ). r >>= λ (l : ℕ).
                call second d.exclusive_unlock_fnc (l ∷ second.thread_self ∷ []) (image w2)
                >>= λ (u : X). call second d.sgc_destructor_fnc (get d.sgc_instance ∷ []) u)
              (deref-image d.mutator_lock_ptr w2 lock p3)
            ∙ call-next d.exclusive_unlock_fnc _ _ w2 w3 _ _ p4 (ap (λ (t : ℕ). lock ∷ t ∷ []) self)
                (call-image d.sgc_destructor_fnc _ w3 v e4)))

  -- What `SuspendAndFork` does up to the fork, it does in the image.
  pub suspend-image :
      (d : HprofDump) (w v : W)
      → suspend first d w ≡ ok v
      → suspend second d (image w) ≡ ok (image v)
  unfolding suspend
  suspend-image d w v e = elim (Bool-cases (ltb d.android_api 30)) [
    | inl old ↦ if_true _ _ old ∙ call-image d.suspend_vm_fnc _ w v (sym (if_true _ _ old) ∙ e)
    | inr new ↦ elim (Bool-cases (leb d.android_api 34)) [
      | inl known ↦
          if_false _ _ new
          ∙ (if_true _ _ known
              ∙ suspend_all-image d w v (sym (if_false _ _ new ∙ if_true _ _ known) ∙ e))
      | inr unknown ↦
          if_false _ _ new
          ∙ (if_false _ _ unknown
              ∙ ap (λ (u : W). ok (image u))
                  (ok-injective w v (sym (if_false _ _ new ∙ if_false _ _ unknown) ∙ e)))
    ]
  ]
