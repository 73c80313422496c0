-- ===== src/Crash/Text.antt =====
-- `assembleCrashInfo` of nativecrashcatcher.cpp: the text that the clean-up thread gives to Java.
-- Signals, codes and thread ids are the 32-bit patterns of their `int`.
pub mod Bounds
pub mod Constants
pub mod ReadBack
pub mod Ascii
mod Runs
use xapm.Base.{
  ℕ, ◌+◌, List, [], ◌∷◌, ◌++◌, Option, none, some, Result, fault, ok, bad_write, ◌>>=◌, ◌==◌, leb,
  if◌then◌else◌, codes, print_int, length,
}

-- A switch over constants whose cases give a value.
pub switch {ℓ} : {A : Type ℓ} → ℕ → List (ℕ × A) → Option A
switch n [] = none
switch n ((label, a) ∷ cases) = if n == label then some a else switch n cases

-- `signo`: SIGILL, SIGFPE, SIGSEGV, SIGBUS, SIGABRT and SIGPIPE of Linux.
abbrev pub signal_names : List (ℕ × List ℕ)
signal_names =
    (4, codes "SIGILL")
    ∷ (8, codes "SIGFPE")
    ∷ (11, codes "SIGSEGV")
    ∷ (7, codes "SIGBUS")
    ∷ (6, codes "SIGABRT")
    ∷ (13, codes "SIGPIPE")
    ∷ []

abbrev ill_details : List (ℕ × List ℕ)
ill_details =
    (1, codes "ILL_ILLOPC(illegal opcode)")
    ∷ (2, codes "ILL_ILLOPN(illegal operand)")
    ∷ (3, codes "ILL_ILLADR(illegal addressing mode)")
    ∷ (4, codes "ILL_ILLTRP(illegal trap)")
    ∷ (5, codes "ILL_PRVOPC(privileged opcode)")
    ∷ (6, codes "ILL_PRVREG(privileged register)")
    ∷ (7, codes "ILL_COPROC(coprocessor error)")
    ∷ (8, codes "ILL_BADSTK(internal stack error)")
    ∷ []

abbrev fpe_details : List (ℕ × List ℕ)
fpe_details =
    (1, codes "FPE_INTDIV(integer divide by zero)")
    ∷ (2, codes "FPE_INTOVF(integer overflow)")
    ∷ (3, codes "FPE_FLTDIV(floating-point divide by zero)")
    ∷ (4, codes "FPE_FLTOVF(floating-point overflow)")
    ∷ (5, codes "FPE_FLTUND(floating-point underflow)")
    ∷ (6, codes "FPE_FLTRES(floating-point inexact result)")
    ∷ (7, codes "FPE_FLTINV(invalid floating-point operation)")
    ∷ (8, codes "FPE_FLTSUB(subscript out of range)")
    ∷ []

abbrev segv_details : List (ℕ × List ℕ)
segv_details =
    (1, codes "SEGV_MAPERR(address not mapped to object)")
    ∷ (2, codes "SEGV_ACCERR(invalid permissions for mapped object)")
    ∷ []

abbrev bus_details : List (ℕ × List ℕ)
bus_details =
    (1, codes "BUS_ADRALN(invalid address alignment)")
    ∷ (2, codes "BUS_ADRERR(nonexistent physical address)")
    ∷ (3, codes "BUS_OBJERR(object-specific hardware error)")
    ∷ []

abbrev pub detail_tables : List (ℕ × List (ℕ × List ℕ))
detail_tables = (4, ill_details) ∷ (8, fpe_details) ∷ (11, segv_details) ∷ (7, bus_details) ∷ []

-- `detail`, by the signal and its `si_code`.
pub detail_in : Option (List (ℕ × List ℕ)) → ℕ → Option (List ℕ)
unfolding switch
detail_in none si_code = none
detail_in (some details) si_code = switch si_code details

pub code_detail : ℕ → ℕ → Option (List ℕ)
unfolding switch detail_in
code_detail si_signo si_code = detail_in (switch si_signo detail_tables) si_code

-- `sprintf` and `strcat` into a buffer: its text from then on, with the 0 behind it in the buffer.
pub store : ℕ → List ℕ → Result (List ℕ)
store capacity text = if leb (length text + 1) capacity then ok text else fault bad_write

-- `char buf[32]` and `char sigdetail[4096]`.
abbrev pub buf_size : ℕ
buf_size = 32

abbrev pub sigdetail_size : ℕ
sigdetail_size = 4096

-- What `sprintf(buf, ...)` writes for the signal and for an unknown code.
pub signo_text : ℕ → Option (List ℕ) → List ℕ
signo_text si_signo none = codes "signo=" ++ (print_int si_signo ++ b',' ∷ [])
signo_text si_signo (some signo) = signo ++ b',' ∷ []

pub code_text : ℕ → List ℕ
code_text si_code = codes "code=" ++ print_int si_code

-- `sprintf(sigdetail, "thread=%s(%d),", buf, tid)`.
pub thread_text : List ℕ → ℕ → List ℕ
thread_text buf tid = codes "thread=" ++ (buf ++ (b'(' ∷ (print_int tid ++ (b')' ∷ (b',' ∷ [])))))

-- The last part: through `buf` where the code is unknown.
pub append_detail : List ℕ → ℕ → Option (List ℕ) → Result (List ℕ)
unfolding store code_text
append_detail sigdetail si_code none = do
  buf ← store buf_size (code_text si_code)
  store sigdetail_size (sigdetail ++ buf)
append_detail sigdetail si_code (some detail) = store sigdetail_size (sigdetail ++ detail)

-- `assembleCrashInfo`, with the name that prctl gives for the thread.
pub assemble_crash_info : List ℕ → ℕ → ℕ → ℕ → Result (List ℕ)
unfolding switch store thread_text signo_text append_detail code_detail
assemble_crash_info thread_name tid si_signo si_code = do
  name ← store buf_size thread_name
  sigdetail ← store sigdetail_size (thread_text name tid)
  buf ← store buf_size (signo_text si_signo (switch si_signo signal_names))
  sigdetail ← store sigdetail_size (sigdetail ++ buf)
  append_detail sigdetail si_code (code_detail si_signo si_code)
