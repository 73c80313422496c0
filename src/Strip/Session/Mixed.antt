-- ===== src/Strip/Session/Mixed.antt =====
-- A whole dump of a process in which `HookInit` of hprof_strip.cpp has sent some libraries' calls to
-- the hooks, while the process writes to other files.
use mathlib.Core.Path.{subst}
use xapm.Base.{
  ℕ, ◌+◌, ◌≤◌, ◌<◌, ◌≡◌, ◌≢◌, refl, sym, ap, ◌∙◌, inl, inr, Bool, true, Option, none, some, List,
  [], ◌∷◌, ◌++◌, Result, ok, ◌>>=◌, arith, length, int_max, append-nil, append_assoc, Contains,
  codes, if◌then◌else◌, if_true, if_false, Bool-cases,
}
use xapm.Strip.State.{HprofStrip, set_hprof_name}
use xapm.Strip.Kernel.{Kernel, Files, append_file}
use xapm.Strip.Kernel.Loop.{progress, system_write_lem}
use xapm.Strip.Write.{Hooked}
use xapm.Strip.Write.Hook.{hook_write-other_fd}
use xapm.Strip.Open.{hook_open-dump}
use xapm.Strip.Install.{
  Hook, hook_open, hook_write, Xhook, XhookLaws, Routes, hook_init, opens_hooked, writes_hooked,
  routes_open, routes_write,
}
use xapm.Strip.Bridge.{init_strip_dump, hprof_name}
use xapm.Strip.Session.Calls.{
  WriteCall, dump, elsewhere, dumps, answers, AllCalls, open_from, pass_on, write_from,
  routed_write, run_calls, open_and_write, run_dump,
}
use xapm.Strip.Session.{
  DumpRecord, bytes_of, heap_after, stripped, stripped_all, IsFit, AllFit, write_record_lem,
}

-- What a call leaves: the dump's file with what is added to it, the heap, the descriptor.
record Left (fd : ℕ) (call : Result Hooked) (added : List ℕ) (heap : Bool) (used : ℕ)
    (s : HprofStrip) (k : Kernel) (h : Hooked) : Type 0 where
  is_call : call ≡ ok h
  file : h.kernel.files fd ≡ k.files fd ++ added
  in_heap : h.strip.is_current_system_heap ≡ heap
  same_fd : h.strip.hprof_fd ≡ s.hprof_fd
  left : progress k.outcomes ≤ progress h.kernel.outcomes + used

append_at : (files : Files) (fd : ℕ) (xs : List ℕ) → append_file files fd xs fd ≡ files fd ++ xs
append_at files fd xs = ground arith

module _ (routes : Routes) (is_hooked : List ℕ → Bool)
    (writes : (path : List ℕ)
      → routes path (codes "write") ≡ (if is_hooked path then some hook_write else none)) where
  dump-Left :
      (caller : List ℕ) (fd : ℕ) (d : DumpRecord) (s : HprofStrip) (k : Kernel)
      → is_hooked caller ≡ true
      → s.hprof_fd ≡ fd
      → IsFit s.is_current_system_heap d
      → length (bytes_of d) ≤ progress k.outcomes
      → (h : Hooked) × Left fd
          (routed_write routes fd (dump caller d) s k)
          (stripped s.is_current_system_heap d)
          (heap_after s.is_current_system_heap d)
          (length (bytes_of d))
          s
          k
          h
  unfolding write_from
  dump-Left caller fd d s k hooked e fit enough =
      let (h, w) = write_record_lem fd d s k e fit enough in
      (
        h,
        record {
          is_call =
              ap (λ (r : Option Hook). write_from r fd (bytes_of d) s k)
                (writes caller ∙ if_true _ _ hooked)
              ∙ w.call;
          file =
              ap (λ (files : Files). files fd) w.files
              ∙ append_at k.files fd (stripped s.is_current_system_heap d);
          in_heap = w.heap;
          same_fd = w.same_fd;
          left = w.left;
        },
      )

  -- A call on another descriptor goes to the system, with the hook or without.
  write_from-other_fd :
      (caller : List ℕ) (g : ℕ) (bytes : List ℕ) (s : HprofStrip) (k : Kernel)
      → g ≢ s.hprof_fd
      → length bytes < int_max
      → write_from (routes caller (codes "write")) g bytes s k ≡ pass_on g bytes s k
  unfolding write_from
  write_from-other_fd caller g bytes s k ne short = elim (Bool-cases (is_hooked caller)) [
    | inl e ↦
        ap (λ (r : Option Hook). write_from r g bytes s k) (writes caller ∙ if_true _ _ e)
        ∙ hook_write-other_fd g bytes s k ne short
    | inr e ↦ ap (λ (r : Option Hook). write_from r g bytes s k) (writes caller ∙ if_false _ _ e)
  ]

  elsewhere-Left :
      (caller : List ℕ) (fd g : ℕ) (bytes : List ℕ) (s : HprofStrip) (k : Kernel)
      → s.hprof_fd ≡ fd
      → g ≢ fd
      → length bytes < int_max
      → 1 ≤ progress k.outcomes
      → (h : Hooked) × Left fd
          (routed_write routes fd (elsewhere caller g bytes) s k)
          []
          s.is_current_system_heap
          1
          s
          k
          h
  elsewhere-Left caller fd g bytes s k e ne fits enough =
      let (r, k', p, others, left) = system_write_lem g bytes k.outcomes k.files enough in
      (
        record { result = r; buf = bytes; strip = s; kernel = k' },
        record {
          is_call =
              write_from-other_fd caller g bytes s k (λ q. ne (q ∙ e)) fits
              ∙ ap
                  (λ (w : Result (Option ℕ × Kernel)). w >>= (λ (p : Option ℕ × Kernel).
                    ok (record { result = p.0; buf = bytes; strip = s; kernel = p.1 })))
                  p;
          file = others fd (λ q. ne (sym q)) ∙ sym (append-nil (k.files fd));
          in_heap = refl;
          same_fd = refl;
          left = left;
        },
      )

  -- What the calls leave of the dump's file.
  abbrev RunAll : ℕ → List WriteCall → HprofStrip → Kernel → Type 0
  RunAll fd cs s k =
      (t : HprofStrip) × (k' : Kernel) × (run_calls routes fd cs s k ≡ ok (t, k'))
      × (k'.files fd ≡ k.files fd ++ stripped_all s.is_current_system_heap (dumps cs))

  call_and_rest :
      (fd : ℕ) (c : WriteCall) (cs : List WriteCall) (added : List ℕ) (heap : Bool) (used : ℕ)
      (s : HprofStrip) (k : Kernel) (h : Hooked)
      → Left fd (routed_write routes fd c s k) added heap used s k h
      → added ++ stripped_all heap (dumps cs)
        ≡ stripped_all s.is_current_system_heap (dumps (c ∷ cs))
      → RunAll fd cs h.strip h.kernel
      → RunAll fd (c ∷ cs) s k
  unfolding run_calls
  call_and_rest fd c cs added heap used s k h l e (t, k', p, f) =
      let after = stripped_all heap (dumps cs) in
      (
        t,
        k',
        ap (λ (w : Result Hooked). w >>= (λ (u : Hooked). run_calls routes fd cs u.strip u.kernel))
              l.is_call
            ∙ p,
        f
            ∙ (ap (λ (b : Bool). h.kernel.files fd ++ stripped_all b (dumps cs)) l.in_heap
                ∙ (ap (λ (xs : List ℕ). xs ++ after) l.file
                    ∙ (append_assoc (k.files fd) added after
                        ∙ ap (λ (xs : List ℕ). k.files fd ++ xs) e))),
      )

  pub run_calls_lem :
      (fd : ℕ) (cs : List WriteCall) (s : HprofStrip) (k : Kernel)
      → s.hprof_fd ≡ fd
      → AllFit s.is_current_system_heap (dumps cs)
      → AllCalls is_hooked fd cs
      → answers cs ≤ progress k.outcomes
      → RunAll fd cs s k
  unfolding run_calls
  run_calls_lem fd [] s k e fits others enough = (s, k, refl, sym (append-nil (k.files fd)))
  run_calls_lem fd (dump caller d ∷ cs) s k e (fit, fits) (hooked, others) enough =
      let (h, l) = dump-Left caller fd d s k hooked e fit (omega arith) in
      call_and_rest fd (dump caller d) cs _ _ _ s k h l refl (
        run_calls_lem fd cs h.strip h.kernel (l.same_fd ∙ e)
          (subst (λ (b : Bool). AllFit b (dumps cs)) (sym l.in_heap) fits) others
          (omega (arith, l.left)))
  run_calls_lem fd (elsewhere caller g bytes ∷ cs) s k e fits (ne, short, others) enough =
      let (h, l) = elsewhere-Left caller fd g bytes s k e ne short (omega arith) in
      call_and_rest fd (elsewhere caller g bytes) cs [] _ _ s k h l refl (
        run_calls_lem fd cs h.strip h.kernel (l.same_fd ∙ e)
          (subst (λ (b : Bool). AllFit b (dumps cs)) (sym l.in_heap) fits) others
          (omega (arith, l.left)))

  -- The open of the dump's file, and the calls from then on.
  pub open_and_write_lem :
      (fd : ℕ) (opener path : List ℕ) (cs : List WriteCall) (s : HprofStrip) (k : Kernel)
      → routes opener (codes "open") ≡ some hook_open
      → s.hprof_name ≢ []
      → Contains s.hprof_name path
      → AllFit s.is_current_system_heap (dumps cs)
      → AllCalls is_hooked fd cs
      → answers cs ≤ progress k.outcomes
      → (t : HprofStrip) × (k' : Kernel) × (open_and_write routes fd opener path cs s k
          ≡ ok (t, k'))
        × (k'.files fd ≡ k.files fd ++ stripped_all s.is_current_system_heap (dumps cs))
  unfolding open_and_write open_from
  open_and_write_lem fd opener path cs s k opens ne within fits calls enough =
      let opened = record s { hprof_fd = fd; is_hook_success = true } in
      let (t, k', p, f) = run_calls_lem fd cs opened k refl fits calls enough in
      let noted = ap (λ (r : ℕ × HprofStrip). r.1) (hook_open-dump fd path s ne within) in
      (
        t,
        k',
        ap
              (λ (r : Option Hook).
                open_from r fd path s >>= (λ (o : ℕ × HprofStrip). run_calls routes fd cs o.1 k))
              opens
            ∙ (ap (λ (o : HprofStrip). run_calls routes fd cs o k) noted ∙ p),
        f,
      )

-- A dump of a process in which `initStripDump` has run and nothing was hooked before, over a xhook that
-- does what its registrations say. `hprofName` sets a name that is not empty. A library whose path
-- matches libart.so, libbase.so or libartbase.so opens a path in which that name stands and gets a
-- descriptor; then libraries whose paths match one of these or libc.so write the records of the dump
-- to it, one by one, between calls of `write` on other descriptors from any libraries, hooked or not.
-- Then all calls return, and the file behind the descriptor has taken, in order, every record of
-- another kind as it is and every heap dump cut to what the specification keeps, from heap to heap
-- across the records, with the length that a reader sees, and nothing else. Each call's buffer is
-- shorter than 2 ^ 31; each heap dump is well-formed and has at most as many pieces to cut as the
-- array holds; and the kernel takes at least one byte in as many calls as the records have bytes and
-- there are other calls.
pub run_dump-init_strip_dump :
    {W : Type 0} (x : Xhook W) (laws : XhookLaws x) (w : W) (name : List ℕ) (fd : ℕ)
    (opener path : List ℕ) (cs : List WriteCall) (s : HprofStrip) (k : Kernel)
    → laws.noted w ≡ []
    → ((p symbol : List ℕ) → laws.routes w p symbol ≡ none)
    → opens_hooked x laws opener ≡ true
    → name ≢ []
    → Contains name path
    → AllFit s.is_current_system_heap (dumps cs)
    → AllCalls (writes_hooked x laws) fd cs
    → answers cs ≤ progress k.outcomes
    → (t : HprofStrip) × (k' : Kernel) × (run_dump
          (laws.routes (init_strip_dump x w))
          (some name)
          fd
          opener
          path
          cs
          s
          k
        ≡ ok (t, k'))
      × (k'.files fd ≡ k.files fd ++ stripped_all s.is_current_system_heap (dumps cs))
unfolding run_dump hprof_name set_hprof_name init_strip_dump
run_dump-init_strip_dump x laws w name fd opener path cs s k none_noted free opens ne within fits
      calls enough =
    open_and_write_lem (laws.routes (hook_init x w)) (writes_hooked x laws)
      (λ q. routes_write x laws w q none_noted free) fd opener path cs
      (record s { hprof_name = name }) k
      (routes_open x laws w opener none_noted free ∙ if_true _ _ opens) ne within fits calls enough
