-- ===== src/Dumper/Child.antt =====
-- What the forked child of ForkStripHeapDumper.java leaves in the dump's file.
use xapm.Base.{
  ℕ, ◌≤◌, ◌≡◌, ◌≢◌, refl, sym, ap, ◌∙◌, Bool, true, false, not, ◌&&◌, List, [], ◌++◌, none, some,
  Result, ok, ◌>>=◌, leb, if◌then◌else◌, if_true, if_false, codes, arith, append-nil, Contains,
}
use xapm.Strip.State.{HprofStrip, set_hprof_name}
use xapm.Strip.Kernel.{Kernel}
use xapm.Strip.Kernel.Loop.{progress}
use xapm.Strip.Install.{
  hook_open, hook_write, Xhook, XhookLaws, Routes, opens_hooked, writes_hooked, routes_open,
  routes_write,
}
use xapm.Strip.Bridge.{init_strip_dump, hprof_name}
use xapm.Strip.Session.{stripped_all, AllFit}
use xapm.Strip.Session.Calls.{WriteCall, dumps, answers, AllCalls}
use xapm.Strip.Session.Mixed.{open_and_write_lem}
use xapm.Dump.{Forked, child, Machine, HprofDump}
use xapm.Dump.Balanced.{ArtLaws, suspend-resume}
use xapm.Dump.Bridge.{exits, dumped, fork_dump, fork_dump-child}
use xapm.Dump.Mapped.{IsImage, suspend-image}
use xapm.Dumper.{Process, with_vm, lift, dump_hprof_data, load_hprofclipper, strip_dump}

module _ {H : Type 0} (x : Xhook H) (laws : XhookLaws x) where
  -- Nothing is noted in xhook, and no call goes to a hook.
  abbrev pub IsUnhooked : H → Type 0
  IsUnhooked h = (laws.noted h ≡ []) × ((q symbol : List ℕ) → laws.routes h q symbol ≡ none)

  -- The library is not loaded and nothing is hooked, or it was loaded in that state.
  pub data IsReady {V : Type 0} (p : Process V H) : Type 0 where
    before_load : p.m_load_success ≡ false → IsUnhooked p.hooks → IsReady p
    after_load :
        (h : H) → p.m_load_success ≡ true → p.hooks ≡ init_strip_dump x h → IsUnhooked h → IsReady p

  -- Where the calls go that the dump is made of.
  record AreHooked (routes : Routes) : Type 0 where
    opens :
        (q : List ℕ)
        → routes q (codes "open") ≡ (if opens_hooked x laws q then some hook_open else none)
    writes :
        (q : List ℕ)
        → routes q (codes "write") ≡ (if writes_hooked x laws q then some hook_write else none)

  init_strip_dump-AreHooked : (h : H) → IsUnhooked h → AreHooked (laws.routes (init_strip_dump x h))
  unfolding init_strip_dump
  init_strip_dump-AreHooked h (none_noted, free) = record {
    opens = λ q. routes_open x laws h q none_noted free;
    writes = λ q. routes_write x laws h q none_noted free;
  }

  -- After `init` the library is loaded, in a state in which nothing was hooked; nothing else has
  -- changed.
  pub load_hprofclipper-IsUnhooked :
      {V : Type 0} (p : Process V H)
      → IsReady p
      → (h : H) × (load_hprofclipper x laws p
          ≡ record p { hooks = init_strip_dump x h; m_load_success = true })
        × IsUnhooked h
  unfolding load_hprofclipper
  load_hprofclipper-IsUnhooked p (before_load e free) = (p.hooks, if_false _ _ e, free)
  load_hprofclipper-IsUnhooked {V} p (after_load h e same free) =
      (h, if_true _ _ e ∙ (ap loaded e ∙ ap hooked same), free)
    where
      loaded : Bool → Process V H
      loaded b = record p { m_load_success = b }

      hooked : H → Process V H
      hooked k = record p { hooks = k; m_load_success = true }

  -- What the dump's file takes in the child.
  abbrev pub Dumped : {V : Type 0} → ℕ → List WriteCall → Process V H → Process V H → Type 0
  Dumped fd cs p p' =
      p'.kernel.files fd
      ≡ p.kernel.files fd ++ stripped_all p.strip.is_current_system_heap (dumps cs)

  dump_hprof_data-Dumped :
      {V : Type 0} (fd : ℕ) (opener path : List ℕ) (cs : List WriteCall) (p : Process V H)
      → AreHooked (laws.routes p.hooks)
      → opens_hooked x laws opener ≡ true
      → p.strip.hprof_name ≢ []
      → Contains p.strip.hprof_name path
      → AllFit p.strip.is_current_system_heap (dumps cs)
      → AllCalls (writes_hooked x laws) fd cs
      → answers cs ≤ progress p.kernel.outcomes
      → (p' : Process V H) × (dump_hprof_data x laws fd opener path cs p ≡ ok (p', dumped))
        × Dumped fd cs p p'
  unfolding dump_hprof_data
  dump_hprof_data-Dumped fd opener path cs p hooked opens ne within fits calls enough =
      let routes = laws.routes p.hooks in
      let (t, k, e, f) =
        open_and_write_lem routes (writes_hooked x laws) hooked.writes fd opener path cs p.strip
          p.kernel (hooked.opens opener ∙ if_true _ _ opens) ne within fits calls enough in
      (
        record p { strip = t; kernel = k },
        ap
            (λ (r : Result (HprofStrip × Kernel)). r >>= λ (u : HprofStrip × Kernel).
              ok (record p { strip = u.0; kernel = u.1 }, dumped))
            e,
        f,
      )

  module _ {V : Type 0} (machine : Machine V) (d : HprofDump) where
    lift-IsImage : (p : Process V H) → IsImage machine (lift machine) (λ (v : V). with_vm p v)
    unfolding lift
    lift-IsImage p = record {
      calls = λ f arguments v. refl;
      reads = λ q v. refl;
      same_self = refl;
      same_tag = refl;
    }

    forks_lifted :
        (p : Process V H) (v : V)
        → ◌≡◌ {A = V × Forked} (machine.fork v) (v, child)
        → ◌≡◌ {A = Process V H × Forked} ((lift machine).fork (with_vm p v)) (with_vm p v, child)
    unfolding lift
    forks_lifted p v e = ap (λ (r : V × Forked). pair_with (with_vm p r.0) r.1) e
      where
        pair_with : Process V H → Forked → Process V H × Forked
        pair_with q f = (q, f)

    -- One dump of ForkStripHeapDumper, in the forked child, on Android L to U. The native library is
    -- loaded in the dump or was loaded before it, in a process in which nothing was hooked; xhook does
    -- what its registrations say; ART's functions behave as their names say, and fork returns in the
    -- child and leaves its memory as it was. A library whose path matches libart.so, libbase.so or
    -- libartbase.so opens the path of the dump, which is not empty, and gets a descriptor; then
    -- libraries whose paths match one of these or libc.so write the records of the dump to it, one by
    -- one, between calls of `write` on other descriptors from any libraries. Then the child exits with
    -- status 0, and the file behind the descriptor has taken, in order, every record of another kind
    -- as it is and every heap dump cut to what the specification keeps, with the length that a reader
    -- sees, and nothing else. Each call's buffer is shorter than 2 ^ 31; each heap dump is well-formed
    -- and has at most as many pieces to cut as the array holds; and the kernel takes at least one byte
    -- in as many calls as the records have bytes and there are other calls.
    pub strip_dump-child :
        (fuel sdk_int fd : ℕ) (opener path : List ℕ) (cs : List WriteCall) (p : Process V H)
        → 21 ≤ sdk_int
        → sdk_int ≤ 34
        → ArtLaws machine d
        → ((v : V) → ◌≡◌ {A = V × Forked} (machine.fork v) (v, child))
        → IsReady p
        → opens_hooked x laws opener ≡ true
        → path ≢ []
        → AllFit p.strip.is_current_system_heap (dumps cs)
        → AllCalls (writes_hooked x laws) fd cs
        → answers cs ≤ progress p.kernel.outcomes
        → (p' : Process V H) × (strip_dump x laws machine d fuel sdk_int fd opener path cs p
            ≡ ok (p', exits 0))
          × Dumped fd cs p p'
    unfolding strip_dump hprof_name set_hprof_name
    strip_dump-child fuel sdk_int fd opener path cs p low high art forks ready opens ne fits calls
          enough =
        let (h0, is_loaded, free) = load_hprofclipper-IsUnhooked p ready in
        let h = init_strip_dump x h0 in
        let named = record p.strip { hprof_name = path } in
        let start : Process V H = record p { hooks = h; m_load_success = true; strip = named } in
        let (v, s, r) = suspend-resume machine d p.vm art in
        let w = machine.set_name (codes "forked-dump-process") (machine.alarm 60 v) in
        let (p', e, f) =
          dump_hprof_data-Dumped fd opener path cs (with_vm start w)
            (init_strip_dump-AreHooked h0 free) opens ne ([], [], sym (append-nil path)) fits calls
            enough in
        (
          p',
          if_false _ _ {b = not (leb 21 sdk_int && leb sdk_int 34)} (ground arith)
              ∙ (ap
                    (λ (q : Process V H).
                      fork_dump (lift machine) d (dump_hprof_data x laws fd opener path cs) fuel
                        (record q { strip = named }))
                    is_loaded
                  ∙ fork_dump-child (lift machine) d (dump_hprof_data x laws fd opener path cs) fuel
                      start (with_vm start v) p'
                      (suspend-image machine (lift machine) (λ (u : V). with_vm start u)
                        (lift-IsImage start) d p.vm v s)
                      (forks_lifted start v (forks v)) e),
          f,
        )
