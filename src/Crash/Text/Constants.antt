-- ===== src/Crash/Text/Constants.antt =====
-- The constants of <signal.h> on Linux, by their names: what a reader of the crash text of
-- nativecrashcatcher.cpp goes by.
use xapm.Base.{ℕ, List, [], ◌∷◌, codes}

abbrev pub signal_constants : List (List ℕ × ℕ)
signal_constants =
    (codes "SIGABRT", 6)
    ∷ (codes "SIGBUS", 7)
    ∷ (codes "SIGFPE", 8)
    ∷ (codes "SIGILL", 4)
    ∷ (codes "SIGPIPE", 13)
    ∷ (codes "SIGSEGV", 11)
    ∷ []

-- The values of `si_code`.
abbrev pub code_constants : List (List ℕ × ℕ)
code_constants =
    (codes "BUS_ADRALN", 1)
    ∷ (codes "BUS_ADRERR", 2)
    ∷ (codes "BUS_OBJERR", 3)
    ∷ (codes "FPE_INTDIV", 1)
    ∷ (codes "FPE_INTOVF", 2)
    ∷ (codes "FPE_FLTDIV", 3)
    ∷ (codes "FPE_FLTOVF", 4)
    ∷ (codes "FPE_FLTUND", 5)
    ∷ (codes "FPE_FLTRES", 6)
    ∷ (codes "FPE_FLTINV", 7)
    ∷ (codes "FPE_FLTSUB", 8)
    ∷ (codes "ILL_ILLOPC", 1)
    ∷ (codes "ILL_ILLOPN", 2)
    ∷ (codes "ILL_ILLADR", 3)
    ∷ (codes "ILL_ILLTRP", 4)
    ∷ (codes "ILL_PRVOPC", 5)
    ∷ (codes "ILL_PRVREG", 6)
    ∷ (codes "ILL_COPROC", 7)
    ∷ (codes "ILL_BADSTK", 8)
    ∷ (codes "SEGV_MAPERR", 1)
    ∷ (codes "SEGV_ACCERR", 2)
    ∷ []
