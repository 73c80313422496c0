-- ===== src/Crash/Text/Ascii.antt =====
-- The crash text of nativecrashcatcher.cpp has no character but ASCII ones if the thread's name has none.
use xapm.Base.{
  ℕ, ◌≡◌, refl, Bool, true, List, [], ◌∷◌, ◌++◌, Option, none, some, arith, codes, print_int,
  all_ascii, all_ascii-append, all_ascii-print_int,
}
use xapm.Crash.Text.{
  switch, signal_names, detail_tables, detail_in, code_detail, signo_text, code_text, thread_text,
}
use xapm.Crash.Text.Bounds.{every, switch-every, detail_text, crash_text}

all_ascii_case : ℕ → List ℕ → Bool
unfolding all_ascii
all_ascii_case label text = all_ascii text

signal_names-all_ascii : every all_ascii_case signal_names ≡ true
unfolding every all_ascii_case all_ascii
signal_names-all_ascii = refl

all_ascii_details : ℕ → List (ℕ × List ℕ) → Bool
unfolding every all_ascii_case
all_ascii_details label details = every all_ascii_case details

detail_tables-all_ascii : every all_ascii_details detail_tables ≡ true
unfolding every all_ascii_details all_ascii_case all_ascii
detail_tables-all_ascii = refl

signo_text-all_ascii :
    (si_signo : ℕ) (o : Option (List ℕ))
    → switch si_signo signal_names ≡ o
    → all_ascii (signo_text si_signo o) ≡ true
unfolding signo_text all_ascii_case all_ascii
signo_text-all_ascii si_signo none h =
    all_ascii-append (codes "signo=") (print_int si_signo ++ b',' ∷ []) refl
      (all_ascii-append (print_int si_signo) (b',' ∷ []) (all_ascii-print_int si_signo) refl)
signo_text-all_ascii si_signo (some signo) h =
    all_ascii-append signo (b',' ∷ [])
      (switch-every all_ascii_case si_signo signal_names signo h signal_names-all_ascii) refl

detail_text-all_ascii :
    (si_signo si_code : ℕ) (t : Option (List (ℕ × List ℕ))) (o : Option (List ℕ))
    → switch si_signo detail_tables ≡ t
    → detail_in t si_code ≡ o
    → all_ascii (detail_text si_code o) ≡ true
unfolding detail_text code_text detail_in all_ascii_details all_ascii_case all_ascii
detail_text-all_ascii si_signo si_code t none h k =
    all_ascii-append (codes "code=") (print_int si_code) refl (all_ascii-print_int si_code)
detail_text-all_ascii si_signo si_code none (some detail) h k = absurd (ground arith)
detail_text-all_ascii si_signo si_code (some details) (some detail) h k =
    switch-every all_ascii_case si_code details detail k
      (switch-every all_ascii_details si_signo detail_tables details h detail_tables-all_ascii)

thread_text-all_ascii :
    (name : List ℕ) (tid : ℕ) → all_ascii name ≡ true → all_ascii (thread_text name tid) ≡ true
unfolding thread_text all_ascii
thread_text-all_ascii name tid h =
    let digits = print_int tid ++ (b')' ∷ (b',' ∷ [])) in
    all_ascii-append (codes "thread=") (name ++ (b'(' ∷ digits)) refl (
      all_ascii-append name (b'(' ∷ digits) h (
        all_ascii-append (b'(' ∷ []) digits refl
          (all_ascii-append (print_int tid) (b')' ∷ (b',' ∷ [])) (all_ascii-print_int tid) refl)))

pub crash_text-all_ascii :
    (si_signo si_code : ℕ) (name : List ℕ) (tid : ℕ)
    → all_ascii name ≡ true
    → all_ascii (crash_text si_signo si_code name tid) ≡ true
unfolding code_detail
crash_text-all_ascii si_signo si_code name tid h =
    let signal = signo_text si_signo (switch si_signo signal_names) in
    all_ascii-append (thread_text name tid ++ signal)
      (detail_text si_code (code_detail si_signo si_code))
      (all_ascii-append (thread_text name tid) signal (thread_text-all_ascii name tid h)
        (signo_text-all_ascii si_signo (switch si_signo signal_names) refl))
      (detail_text-all_ascii si_signo si_code (switch si_signo detail_tables) _ refl refl)
