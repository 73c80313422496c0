-- ===== src/Dump/Found.antt =====
-- Where the functions that `Initialize` of hprof_dump.cpp finds come from.
use mathlib.Core.Path.{subst}
use xapm.Base.{
  ℕ, ◌<◌, ◌≤◌, ◌≡◌, sym, ap, ◌∙◌, true, false, ◌||◌, List, Option, some, ok, >>=-eq-ok,
  ok-injective, ltb, if_true, if_false, codes, arith,
}
use xapm.Dlfcn.{
  DlPhdrInfo, Linker, DlFcn, Handle, iterate_data, rtld_now, new_target, is_android_n, call_once,
  dlopen, dlsym, dlclose,
}
use xapm.Dlfcn.Objects.{Settled, walked}
use xapm.Dlfcn.Lookups.{AnswerN, dlopen-Settled, dlsym-AnswerN}
use xapm.Dump.{HprofDump, find_debugger, find_symbols, initialize}
use xapm.Elf.Wrapper.{Resources}

abbrev pub suspend_name : List ℕ
suspend_name = codes "_ZN3art3Dbg9SuspendVMEv"

abbrev pub resume_name : List ℕ
resume_name = codes "_ZN3art3Dbg8ResumeVMEv"

module _ (linker : Linker) (fuel : ℕ) where
  -- The functions are what the file of the handle's object answers for their names.
  pub record AnswersN (info : DlPhdrInfo) (held : Resources) (d : HprofDump) : Type 0 where
    pub answer_suspend : AnswerN linker fuel info suspend_name held d.suspend_vm_fnc
    pub answer_resume : AnswerN linker fuel info resume_name held d.resume_vm_fnc

  find_debugger-AnswersN :
      (info : DlPhdrInfo) (s : DlFcn) (d : HprofDump) (held : Resources) (r : HprofDump × Resources)
      → is_android_n s.android_api ≡ true
      → find_debugger linker fuel (some (iterate_data info)) s d held ≡ ok r
      → AnswersN info held r.0
  unfolding find_debugger
  find_debugger-AnswersN info s d held r n h =
      let (a, p, h1) =
        >>=-eq-ok (dlsym linker fuel (some (iterate_data info)) suspend_name s held) _ h in
      let (b, q, h2) =
        >>=-eq-ok (dlsym linker fuel (some (iterate_data info)) resume_name s a.0) _ h1 in
      let (same, first) = dlsym-AnswerN linker fuel info suspend_name s held a.0 a.1 n p in
      let (same', second) = dlsym-AnswerN linker fuel info resume_name s a.0 b.0 b.1 n q in
      subst (λ (t : HprofDump × Resources). AnswersN info held t.0) (ok-injective _ _ h2)
        (record {
          answer_suspend = first;
          answer_resume =
              subst (λ (t : Resources). AnswerN linker fuel info resume_name t b.1) same second;
        })

  find_symbols-AnswersN :
      (info : DlPhdrInfo) (handle : Option Handle) (s : DlFcn) (ssa_block sgc_block : ℕ)
      (d : HprofDump) (held : Resources) (r : HprofDump × Resources)
      → handle ≡ some (iterate_data info)
      → is_android_n s.android_api ≡ true
      → d.android_api < 30
      → find_symbols linker fuel handle s ssa_block sgc_block d held ≡ ok r
      → AnswersN info held r.0
  unfolding find_symbols
  find_symbols-AnswersN info handle s ssa_block sgc_block d held r e n low h =
      find_debugger-AnswersN info s d held r n (
        ap (λ (t : Option Handle). find_debugger linker fuel t s d held) (sym e)
        ∙ (sym (if_true _ _ {b = ltb d.android_api 30} (ground arith)) ∙ h))

  -- On Android N, after an `Initialize` that had something to do, both functions that suspend and
  -- resume the VM come from one object. It is the first that is loaded and has libart.so in its path,
  -- or the name alone where there is none; each function is the answer of the dynamic symbols of that
  -- object's file for ART's name of the function, at the object's address, or nullptr.
  pub initialize-AnswersN :
      (ssa_block sgc_block : ℕ) (d : HprofDump) (s : DlFcn) (held : Resources)
      (t : HprofDump × DlFcn × Resources)
      → d.init_done ≡ false
      → 21 ≤ d.android_api
      → d.android_api < 30
      → is_android_n (call_once linker s).android_api ≡ true
      → initialize linker fuel ssa_block sgc_block (d, s, held) ≡ ok t
      → (info : DlPhdrInfo) × Settled
          (codes "libart.so")
          (new_target (codes "libart.so"))
          (walked linker)
          info
        × AnswersN info held t.0
  unfolding initialize
  initialize-AnswersN ssa_block sgc_block d s held t fresh high low n h =
      let (opened, p, h1) =
        >>=-eq-ok (dlopen linker (codes "libart.so") rtld_now s) _
          (sym (if_false _ _ {b = d.init_done || ltb d.android_api 21} (ground arith)) ∙ h) in
      let (found, q, h2) =
        >>=-eq-ok (find_symbols linker fuel opened.1 opened.0 ssa_block sgc_block d held) _ h1 in
      let (closed, r, h3) = >>=-eq-ok (dlclose linker opened.1 opened.0) _ h2 in
      let (info, e, n', settled) =
        dlopen-Settled linker fuel (codes "libart.so") rtld_now s opened.0 opened.1 n p in
      let answers =
        find_symbols-AnswersN info opened.1 opened.0 ssa_block sgc_block d held found e n' low q in
      (
        info,
        settled,
        subst (λ (u : HprofDump × DlFcn × Resources). AnswersN info held u.0) (ok-injective _ _ h3)
            (record {
              answer_suspend = answers.answer_suspend;
              answer_resume = answers.answer_resume;
            }),
      )
