-- ===== src/Crash/Text/Runs.antt =====
-- Runs of `assembleCrashInfo` of nativecrashcatcher.cpp and the theorems at them.
use xapm.Base.{ℕ, ◌≡◌, ◌≤◌, refl, List, ok, arith, codes, length, print_int, print_nat}
use xapm.Crash.Text.{
  switch, detail_in, code_detail, store, thread_text, signo_text, code_text, append_detail,
  assemble_crash_info,
}
use xapm.Crash.Text.Bounds.{crash_text, assemble_crash_info-crash_text}

-- A null pointer read in the render thread, and a SIGTRAP (5), which has no name, that the process
-- sent itself with tgkill (SI_TKILL, -6).
abbrev render_thread : List ℕ
render_thread = codes "RenderThread"

null_read :
    assemble_crash_info render_thread 4711 11 1
    ≡ ok (codes "thread=RenderThread(4711),SIGSEGV,SEGV_MAPERR(address not mapped to object)")
unfolding assemble_crash_info store thread_text signo_text append_detail code_detail detail_in
    switch code_text print_int print_nat
null_read = refl

unnamed :
    assemble_crash_info render_thread 4711 5 4294967290
    ≡ ok (codes "thread=RenderThread(4711),signo=5,code=-6")
unfolding assemble_crash_info store thread_text signo_text append_detail code_detail detail_in
    switch code_text print_int print_nat
unnamed = refl

assemble_crash_info-crash_text_example :
    (assemble_crash_info render_thread 4711 11 1 ≡ ok (crash_text 11 1 render_thread 4711))
    × (length (crash_text 11 1 render_thread 4711) ≤ 104)
assemble_crash_info-crash_text_example =
    assemble_crash_info-crash_text 11 1 render_thread 4711 (omega arith)
