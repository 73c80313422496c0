-- ===== src/Dump/Starts.antt =====
-- `Initialize` of hprof_dump.cpp: it runs once, and holds nothing afterwards.
use mathlib.Core.Path.{subst}
use xapm.Base.{
  ℕ, ◌≡◌, refl, sym, ap, ◌∙◌, inl, inr, Bool, true, ◌||◌, List, Option, Result, ok, ◌>>=◌,
  >>=-eq-ok, ok-injective, ltb, leb, Bool-cases, if_true, if_false, codes,
}
use xapm.Dlfcn.{Linker, DlFcn, Handle, rtld_now, dlopen, dlsym, dlclose}
use xapm.Dlfcn.Lookups.{dlsym_held}
use xapm.Dump.{HprofDump, find_debugger, find_scopes, find_symbols, initialize}
use xapm.Elf.Wrapper.{Resources}

-- What finding symbols leaves alone.
abbrev Kept : HprofDump → Resources → HprofDump × Resources → Type 0
Kept d held (d', held') = (held' ≡ held) × (d'.android_api ≡ d.android_api)

module _ (linker : Linker) (fuel : ℕ) (handle : Option Handle) (s : DlFcn) where
  -- A chain that goes on after `dlsym`.
  dlsym-next :
      (name : List ℕ) (held : Resources)
      (next : Resources × Option ℕ → Result (HprofDump × Resources)) (r : HprofDump × Resources)
      → (dlsym linker fuel handle name s held >>= next) ≡ ok r
      → (o : Option ℕ) × (next (held, o) ≡ ok r)
  dlsym-next name held next r h =
      let (q, p, k) = >>=-eq-ok (dlsym linker fuel handle name s held) next h in
      (
        q.1,
        ap (λ (t : Resources). next (t, q.1))
              (sym (dlsym_held linker fuel handle name s held q.0 q.1 p))
            ∙ k,
      )

  Kept-ok :
      (d d' : HprofDump) (held : Resources) (r : HprofDump × Resources)
      → d'.android_api ≡ d.android_api
      → ◌≡◌ {A = HprofDump × Resources} (d', held) r
      → Kept d held r
  Kept-ok d d' held r e h = (
    ap (λ (t : HprofDump × Resources). t.1) (sym h),
    ap (λ (t : HprofDump × Resources). t.0.android_api) (sym h) ∙ e,
  )

  find_debugger-Kept :
      (d : HprofDump) (held : Resources) (r : HprofDump × Resources)
      → find_debugger linker fuel handle s d held ≡ ok r
      → Kept d held r
  unfolding find_debugger
  find_debugger-Kept d held r h =
      let (a, p) = dlsym-next _ held _ r h in
      let (b, q) = dlsym-next _ held _ r p in Kept-ok d _ held r refl (ok-injective _ _ q)

  find_scopes-Kept :
      (ssa_block sgc_block : ℕ) (d : HprofDump) (held : Resources) (r : HprofDump × Resources)
      → find_scopes linker fuel handle s ssa_block sgc_block d held ≡ ok r
      → Kept d held r
  unfolding find_scopes
  find_scopes-Kept ssa_block sgc_block d held r h =
      let (a1, h1) = dlsym-next _ held _ r h in
      let (a2, h2) = dlsym-next _ held _ r h1 in
      let (a3, h3) = dlsym-next _ held _ r h2 in
      let (a4, h4) = dlsym-next _ held _ r h3 in
      let (a5, h5) = dlsym-next _ held _ r h4 in
      let (a6, h6) = dlsym-next _ held _ r h5 in
      let (a7, h7) = dlsym-next _ held _ r h6 in Kept-ok d _ held r refl (ok-injective _ _ h7)

  find_symbols-Kept :
      (ssa_block sgc_block : ℕ) (d : HprofDump) (held : Resources) (r : HprofDump × Resources)
      → find_symbols linker fuel handle s ssa_block sgc_block d held ≡ ok r
      → Kept d held r
  unfolding find_symbols
  find_symbols-Kept ssa_block sgc_block d held r h = elim (Bool-cases (ltb d.android_api 30)) [
    | inl e ↦ find_debugger-Kept d held r (sym (if_true _ _ e) ∙ h)
    | inr e ↦ elim (Bool-cases (leb d.android_api 34)) [
      | inl k ↦
          find_scopes-Kept ssa_block sgc_block d held r (sym (if_false _ _ e ∙ if_true _ _ k) ∙ h)
      | inr k ↦
          Kept-ok d d held r refl (ok-injective _ _ (sym (if_false _ _ e ∙ if_false _ _ k) ∙ h))
    ]
  ]

-- `Initialize` has nothing to do.
abbrev pub is_done : HprofDump → Bool
is_done d = d.init_done || ltb d.android_api 21

module _ (linker : Linker) (fuel ssa_block sgc_block : ℕ) where
  -- What `Initialize` leaves.
  pub record IsStarted (d : HprofDump) (held : Resources) (t : HprofDump × DlFcn × Resources)
      : Type 0 where
    pub done : is_done t.0 ≡ true
    pub same_api : t.0.android_api ≡ d.android_api
    pub same_held : t.2 ≡ held

  initialize-IsStarted :
      (d : HprofDump) (s : DlFcn) (held : Resources) (t : HprofDump × DlFcn × Resources)
      → initialize linker fuel ssa_block sgc_block (d, s, held) ≡ ok t
      → IsStarted d held t
  unfolding initialize
  initialize-IsStarted d s held t h = elim (Bool-cases (is_done d)) [
    | inl e ↦
        subst (IsStarted d held) (ok-injective _ _ (sym (if_true _ _ e) ∙ h))
          (record { done = e; same_api = refl; same_held = refl })
    | inr e ↦
        let (opened, p, h1) =
          >>=-eq-ok (dlopen linker (codes "libart.so") rtld_now s) _ (sym (if_false _ _ e) ∙ h) in
        let (found, q, h2) =
          >>=-eq-ok (find_symbols linker fuel opened.1 opened.0 ssa_block sgc_block d held) _ h1 in
        let (closed, r, h3) = >>=-eq-ok (dlclose linker opened.1 opened.0) _ h2 in
        let (same_held, same_api) =
          find_symbols-Kept linker fuel opened.1 opened.0 ssa_block sgc_block d held found q in
        subst (IsStarted d held) (ok-injective _ _ h3)
          (record { done = refl; same_api = same_api; same_held = same_held })
  ]

  -- `Initialize` runs once: called again on what it left, it changes nothing. It keeps the API level,
  -- and the process holds afterwards what it held before, whatever was found.
  pub initialize_again :
      (d : HprofDump) (s : DlFcn) (held : Resources) (t : HprofDump × DlFcn × Resources)
      → initialize linker fuel ssa_block sgc_block (d, s, held) ≡ ok t
      → IsStarted d held t × (initialize linker fuel ssa_block sgc_block t ≡ ok t)
  unfolding initialize
  initialize_again d s held (d', s', held') h =
      let started = initialize-IsStarted d s held (d', s', held') h in
      (started, if_true _ _ started.done)
