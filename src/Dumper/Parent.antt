-- ===== src/Dumper/Parent.antt =====
-- What a dump of ForkStripHeapDumper.java is in the process that asks for it.
use xapm.Base.{
  ℕ, ◌<◌, ◌≤◌, ◌≡◌, refl, ap, ◌∙◌, Bool, true, false, not, ◌&&◌, List, Result, ok, ◌>>=◌, leb,
  if_false, int_max, arith,
}
use xapm.Strip.State.{set_hprof_name}
use xapm.Strip.Install.{Xhook, XhookLaws}
use xapm.Strip.Bridge.{init_strip_dump, hprof_name}
use xapm.Strip.Session.Calls.{WriteCall}
use xapm.Dump.{Forked, parent_of, Machine, HprofDump}
use xapm.Dump.Balanced.{ArtLaws, by_debugger, by_scopes, not_suspended}
use xapm.Dump.Bridge.{DumpEnd, returns, DumpResult, fork_dump, fork_dump-dump_end}
use xapm.Dump.Waits.{Interrupted, not_yet, once_more, is_interrupt, is_exit, wait_loop_lem}
use xapm.Dumper.{Process, with_vm, lift, dump_hprof_data, strip_dump}
use xapm.Dumper.Child.{IsReady, after_load, load_hprofclipper-IsUnhooked}

module _ {V H : Type 0} (machine : Machine V) (d : HprofDump) where
  -- ART's functions behave alike in a process that has more to it.
  lift-ArtLaws : ArtLaws machine d → ArtLaws {W = Process V H} (lift machine) d
  unfolding lift
  lift-ArtLaws (by_debugger n l) = by_debugger n (record {
    suspend_vm = l.suspend_vm;
    resume_vm = l.resume_vm;
    is_suspend_vm = l.is_suspend_vm;
    is_resume_vm = l.is_resume_vm;
    resume_undoes = λ p. ap (λ (v : V). with_vm p v) (l.resume_undoes p.vm);
  })
  lift-ArtLaws (by_scopes n m l) = by_scopes n m (record {
    ssa = l.ssa;
    ssa_end = l.ssa_end;
    sgc = l.sgc;
    sgc_end = l.sgc_end;
    lock_ptr = l.lock_ptr;
    take_lock = l.take_lock;
    leave_lock = l.leave_lock;
    lock = l.lock;
    is_ssa = l.is_ssa;
    is_ssa_end = l.is_ssa_end;
    is_sgc = l.is_sgc;
    is_sgc_end = l.is_sgc_end;
    is_lock_ptr = l.is_lock_ptr;
    is_take_lock = l.is_take_lock;
    is_leave_lock = l.is_leave_lock;
    lock_stays = λ p. l.lock_stays p.vm;
    gc_ends = λ p. ap (λ (v : V). with_vm p v) (l.gc_ends p.vm);
    gc_beside_suspension = λ p. ap (λ (v : V). with_vm p v) (l.gc_beside_suspension p.vm);
    gc_beside_lock = λ p. ap (λ (v : V). with_vm p v) (l.gc_beside_lock p.vm);
    lock_taken_again = λ p. ap (λ (v : V). with_vm p v) (l.lock_taken_again p.vm);
    suspension_ends = λ p. ap (λ (v : V). with_vm p v) (l.suspension_ends p.vm);
  })
  lift-ArtLaws (not_suspended n) = not_suspended n

  lift-Interrupted :
      (pid n : ℕ) (w v : V) (p : Process V H)
      → Interrupted machine pid n w v
      → Interrupted (lift machine) pid n (with_vm p w) (with_vm p v)
  unfolding lift
  lift-Interrupted pid _ _ _ p (not_yet w) = not_yet (with_vm p w)
  lift-Interrupted pid _ _ _ p (once_more n w v e i) =
      once_more n (with_vm p w) (with_vm p v) e
        (lift-Interrupted pid n (machine.waitpid pid w).0 v p i)

  forks_parent :
      (pid : ℕ)
      → ((v : V) → ◌≡◌ {A = V × Forked} (machine.fork v) (v, parent_of pid))
      → (p : Process V H)
      → ◌≡◌ {A = Process V H × Forked} ((lift machine).fork p) (p, parent_of pid)
  unfolding lift
  forks_parent pid forks p = ap (λ (r : V × Forked). pair_with (with_vm p r.0) r.1) (forks p.vm)
    where
      pair_with : Process V H → Forked → Process V H × Forked
      pair_with q f = (q, f)

  -- `ForkJvmHeapDumper.dump` in the parent.
  fork_dump-parent :
      (dump_hprof_data : Process V H → Result (Process V H × DumpResult)) (n fuel pid : ℕ)
      (p : Process V H) (v : V)
      → ArtLaws machine d
      → ((u : V) → ◌≡◌ {A = V × Forked} (machine.fork u) (u, parent_of pid))
      → 0 < pid
      → pid < int_max
      → Interrupted machine pid n p.vm v
      → is_interrupt (machine.waitpid pid v).1 ≡ false
      → n < fuel
      → ◌≡◌ {A = Result (Process V H × DumpEnd)}
          (fork_dump (lift machine) d dump_hprof_data fuel p)
          (ok (with_vm p (machine.waitpid pid v).0, returns (is_exit (machine.waitpid pid v).1)))
  unfolding lift
  fork_dump-parent dump_hprof_data n fuel pid p v art forks positive small i e enough =
      let (u, s, r, same) =
        fork_dump-dump_end (lift machine) d dump_hprof_data fuel p (parent_of pid)
          (lift-ArtLaws art) (forks_parent pid forks) (positive, small) in
      same
      ∙ ap
          (λ (r : Result (Process V H × Bool)).
            r >>= λ (t : Process V H × Bool). ok (t.0, returns t.1))
          (wait_loop_lem (lift machine) pid n fuel p (with_vm p v)
            (lift-Interrupted pid n p.vm v p i) e enough)

module _ {V H : Type 0} (x : Xhook H) (laws : XhookLaws x) (machine : Machine V)
    (d : HprofDump) where
  -- One dump of ForkStripHeapDumper, in the process that asks for it, on Android L to U. The native
  -- library is loaded in the dump or was loaded before it, in a process in which nothing was hooked;
  -- ART's functions behave as their names say, and fork returns a positive int and leaves the memory
  -- as it was. Signals interrupt waitpid `n` times, fewer than the rounds that the loop has, and then
  -- it answers. Then `dump` returns, and says whether waitpid reported a child that has exited by
  -- itself; the VM runs, as the calls of waitpid left it; the process has written to no file; of its
  -- object only the name is set; and it is ready for the next dump.
  pub strip_dump-parent :
      (n fuel sdk_int fd pid : ℕ) (opener path : List ℕ) (cs : List WriteCall) (p : Process V H)
      (v : V)
      → 21 ≤ sdk_int
      → sdk_int ≤ 34
      → ArtLaws machine d
      → ((u : V) → ◌≡◌ {A = V × Forked} (machine.fork u) (u, parent_of pid))
      → 0 < pid
      → pid < int_max
      → IsReady x laws p
      → Interrupted machine pid n p.vm v
      → is_interrupt (machine.waitpid pid v).1 ≡ false
      → n < fuel
      → (p' : Process V H) × (strip_dump x laws machine d fuel sdk_int fd opener path cs p
          ≡ ok (p', returns (is_exit (machine.waitpid pid v).1)))
        × (p'.vm ≡ (machine.waitpid pid v).0)
        × (p'.kernel ≡ p.kernel)
        × (p'.strip ≡ record p.strip { hprof_name = path })
        × IsReady x laws p'
  unfolding strip_dump hprof_name set_hprof_name
  strip_dump-parent n fuel sdk_int fd pid opener path cs p v low high art forks positive small ready
        i e enough =
      let (h, is_loaded, free) = load_hprofclipper-IsUnhooked x laws p ready in
      let named = record p.strip { hprof_name = path } in
      let start : Process V H = record p {
        hooks = init_strip_dump x h;
        m_load_success = true;
        strip = named;
      } in
      (
        with_vm start (machine.waitpid pid v).0,
        if_false _ _ {b = not (leb 21 sdk_int && leb sdk_int 34)} (ground arith)
            ∙ (ap
                  (λ (q : Process V H).
                    fork_dump (lift machine) d (dump_hprof_data x laws fd opener path cs) fuel
                      (record q { strip = named }))
                  is_loaded
                ∙ fork_dump-parent machine d (dump_hprof_data x laws fd opener path cs) n fuel pid
                    start v art forks positive small i e enough),
        refl,
        refl,
        refl,
        after_load h refl refl free,
      )
