-- ===== src/Crash/Text/ReadBack.antt =====
-- What the text of `assembleCrashInfo` of nativecrashcatcher.cpp tells its reader.
use xapm.Base.{
  ℕ, ◌^◌, ◌≤◌, ◌<◌, ◌≡◌, refl, ap, ◌∙◌, Bool, true, false, List, [], ◌∷◌, ◌++◌, append_assoc,
  Option, none, some, ok, ◌==◌, if◌then◌else◌, if_true, arith, print_int, read_int,
  read_int-print_int, until_comma, without_comma, until_comma-append, without_comma-print_int,
  length, drop, drop-append, starts_with-append, starts_with, strcmp_eq, codes,
}
use xapm.Crash.Text.Constants.{signal_constants, code_constants}
use xapm.Crash.Text.{
  switch, signal_names, detail_tables, detail_in, code_detail, signo_text, code_text, thread_text,
  assemble_crash_info,
}
use xapm.Crash.Text.Bounds.{every, switch-every, detail_text, assemble_crash_info-crash_text}

-- A part's name, up to its remark in brackets.
until_bracket : List ℕ → List ℕ
until_bracket [] = []
until_bracket (c ∷ t) = if c == b'(' then [] else c ∷ until_bracket t

-- The value of a constant.
value_of : List (List ℕ × ℕ) → List ℕ → Option ℕ
unfolding strcmp_eq
value_of [] text = none
value_of ((name, value) ∷ constants) text =
    if strcmp_eq name text then some value else value_of constants text

-- A reader of the two parts: a number behind `prefix`, or the name of a constant.
read_part : List ℕ → List (List ℕ × ℕ) → List ℕ → Option ℕ
unfolding value_of starts_with read_int until_bracket
read_part prefix constants text =
    if starts_with prefix text
    then some (read_int (drop (length prefix) text))
    else value_of constants (until_bracket text)

read_code : List ℕ → Option ℕ
unfolding read_part
read_code code = read_part (codes "code=") code_constants code

read_signo : List ℕ → Option ℕ
unfolding read_part
read_signo signal = read_part (codes "signo=") signal_constants signal

read_parts : List ℕ × List ℕ → Option ℕ × Option ℕ
unfolding read_signo read_code
read_parts (signal, code) = (read_signo signal, read_code code)

-- A reader of what stands behind the thread's part: the signal, and the code.
pub read_crash : List ℕ → Option ℕ × Option ℕ
unfolding read_parts until_comma
read_crash text = read_parts (until_comma text)

read_part-number :
    (prefix : List ℕ) (constants : List (List ℕ × ℕ)) (w : ℕ)
    → w < 2 ^ 32
    → read_part prefix constants (prefix ++ print_int w) ≡ some w
unfolding read_part
read_part-number prefix constants w h =
    if_true _ _ (starts_with-append prefix (print_int w))
    ∙ (ap (λ t. some (read_int t)) (drop-append prefix (print_int w) (length prefix) refl)
        ∙ ap some (read_int-print_int w h))

abbrev is_label : ℕ → Option ℕ → Bool
is_label label none = false
is_label label (some n) = n == label

is_label-eq : (label : ℕ) (o : Option ℕ) → is_label label o ≡ true → o ≡ some label
is_label-eq label none h = absurd (ground arith)
is_label-eq label (some n) h = ground arith

unfoldable is_read : List ℕ → List (List ℕ × ℕ) → ℕ → List ℕ → Bool
unfolding read_part
is_read prefix constants label text = is_label label (read_part prefix constants text)

read_part-switch :
    (prefix : List ℕ) (constants : List (List ℕ × ℕ)) (cases : List (ℕ × List ℕ)) (n : ℕ)
    (text : List ℕ)
    → switch n cases ≡ some text
    → every (is_read prefix constants) cases ≡ true
    → read_part prefix constants text ≡ some n
unfolding is_read
read_part-switch prefix constants cases n text h k =
    is_label-eq n _ (switch-every (is_read prefix constants) n cases text h k)

signal_names-is_read : every (is_read (codes "signo=") signal_constants) signal_names ≡ true
unfolding every is_read
signal_names-is_read = refl

unfoldable all_read : ℕ → List (ℕ × List ℕ) → Bool
unfolding every is_read
all_read label details = every (is_read (codes "code=") code_constants) details

detail_tables-all_read : every all_read detail_tables ≡ true
unfolding every all_read
detail_tables-all_read = refl

has_no_comma : ℕ → List ℕ → Bool
unfolding without_comma
has_no_comma label text = without_comma text

signal_names-has_no_comma : every has_no_comma signal_names ≡ true
unfolding every has_no_comma
signal_names-has_no_comma = refl

-- The signal's part without its comma.
signal_part : ℕ → Option (List ℕ) → List ℕ
signal_part si_signo none = codes "signo=" ++ print_int si_signo
signal_part si_signo (some signo) = signo

signo_text-signal_part :
    (si_signo : ℕ) (o : Option (List ℕ)) (rest : List ℕ)
    → signo_text si_signo o ++ rest ≡ signal_part si_signo o ++ b',' ∷ rest
unfolding signo_text signal_part
signo_text-signal_part si_signo none rest =
    ap (λ t. codes "signo=" ++ t) (append_assoc (print_int si_signo) (b',' ∷ []) rest)
signo_text-signal_part si_signo (some signo) rest = append_assoc signo (b',' ∷ []) rest

signal_part-without_comma :
    (si_signo : ℕ) (o : Option (List ℕ))
    → switch si_signo signal_names ≡ o
    → without_comma (signal_part si_signo o) ≡ true
unfolding signal_part has_no_comma without_comma
signal_part-without_comma si_signo none h = without_comma-print_int si_signo
signal_part-without_comma si_signo (some signo) h =
    switch-every has_no_comma si_signo signal_names signo h signal_names-has_no_comma

read_part-signal_part :
    (si_signo : ℕ) (o : Option (List ℕ))
    → switch si_signo signal_names ≡ o
    → si_signo < 2 ^ 32
    → read_part (codes "signo=") signal_constants (signal_part si_signo o) ≡ some si_signo
unfolding signal_part
read_part-signal_part si_signo none h n =
    read_part-number (codes "signo=") signal_constants si_signo n
read_part-signal_part si_signo (some signo) h n =
    read_part-switch (codes "signo=") signal_constants signal_names si_signo signo h
      signal_names-is_read

read_code-detail_text :
    (si_signo si_code : ℕ) (t : Option (List (ℕ × List ℕ))) (o : Option (List ℕ))
    → switch si_signo detail_tables ≡ t
    → detail_in t si_code ≡ o
    → si_code < 2 ^ 32
    → read_code (detail_text si_code o) ≡ some si_code
unfolding read_code detail_in detail_text code_text all_read
read_code-detail_text si_signo si_code t none h k n =
    read_part-number (codes "code=") code_constants si_code n
read_code-detail_text si_signo si_code none (some detail) h k n = absurd (ground arith)
read_code-detail_text si_signo si_code (some details) (some detail) h k n =
    read_part-switch (codes "code=") code_constants details si_code detail k
      (switch-every all_read si_signo detail_tables details h detail_tables-all_read)

read_crash-parts :
    (si_signo si_code : ℕ) (signal code : List ℕ)
    → without_comma signal ≡ true
    → read_signo signal ≡ some si_signo
    → read_code code ≡ some si_code
    → read_crash (signal ++ b',' ∷ code) ≡ (some si_signo, some si_code)
unfolding read_crash read_parts
read_crash-parts si_signo si_code signal code h k l =
    ap read_parts (until_comma-append signal code h)
    ∙ (ap (λ s. (s, read_code code)) k ∙ ap (λ c. (some si_signo, c)) l)

-- The text behind the thread's part names the signal and the code: a reader who knows the
-- constants of <signal.h> gets `si_signo` and `si_code` back from it, for every pair of 32-bit values, the
-- ones that have no name included.
pub assemble_crash_info-read_crash :
    (name : List ℕ) (tid si_signo si_code : ℕ)
    → length name ≤ 15
    → si_signo < 2 ^ 32
    → si_code < 2 ^ 32
    → (text : List ℕ) × (assemble_crash_info name tid si_signo si_code
        ≡ ok (thread_text name tid ++ text))
      × ◌≡◌ {A = Option ℕ × Option ℕ} (read_crash text) (some si_signo, some si_code)
unfolding code_detail read_signo
assemble_crash_info-read_crash name tid si_signo si_code h m n =
    let o = switch si_signo signal_names in
    let d = detail_text si_code (code_detail si_signo si_code) in
    let (e, bound) = assemble_crash_info-crash_text si_signo si_code name tid h in
    (
      signal_part si_signo o ++ b',' ∷ d,
      e
          ∙ ap ok (
              append_assoc (thread_text name tid) (signo_text si_signo o) d
              ∙ ap (λ t. thread_text name tid ++ t) (signo_text-signal_part si_signo o d)),
      read_crash-parts si_signo si_code (signal_part si_signo o) d
          (signal_part-without_comma si_signo o refl) (read_part-signal_part si_signo o refl m)
          (read_code-detail_text si_signo si_code (switch si_signo detail_tables) _ refl refl n),
    )
