-- ===== src/Crash/Text/Bounds.antt =====
-- `assembleCrashInfo` of nativecrashcatcher.cpp within its buffers.
use xapm.Base.{
  ℕ, ◌+◌, ◌≤◌, ◌<◌, ◌≡◌, refl, sym, ap, ◌∙◌, inl, inr, Bool, true, ◌&&◌, List, [], ◌∷◌, ◌++◌,
  Option, none, some, Result, ok, ◌>>=◌, ◌==◌, leb, Bool-cases, if_true, if_false, arith, print_int,
  length-print_int, length, length-append,
}
use xapm.Crash.Text.{
  switch, signal_names, detail_tables, detail_in, code_detail, store, buf_size, sigdetail_size,
  signo_text, code_text, thread_text, append_detail, assemble_crash_info,
}

-- What holds of every case of a switch, as a test.
unfoldable pub every {ℓ} : {A : Type ℓ} → (ℕ → A → Bool) → List (ℕ × A) → Bool
every test [] = true
every test ((label, a) ∷ cases) = test label a && every test cases

pub switch-every {ℓ} :
    {A : Type ℓ} (test : ℕ → A → Bool) (n : ℕ) (cases : List (ℕ × A)) (a : A)
    → switch n cases ≡ some a
    → every test cases ≡ true
    → test n a ≡ true
unfolding switch every
switch-every test n [] a h k = absurd (ground arith)
switch-every test n ((label, b) ∷ cases) a h k = elim (Bool-cases (n == label)) [
  | inl e ↦ ground arith
  | inr e ↦ switch-every test n cases a (sym (if_false _ _ e) ∙ h) (ground arith)
]

abbrev shorter_than : ℕ → ℕ → List ℕ → Bool
shorter_than n label t = leb (length t) n

signal_names_short : every (shorter_than 7) signal_names ≡ true
unfolding every
signal_names_short = refl

unfoldable details_short : ℕ → List (ℕ × List ℕ) → Bool
details_short label details = every (shorter_than 50) details

detail_tables_short : every details_short detail_tables ≡ true
unfolding every details_short
detail_tables_short = refl

store_ok : (capacity : ℕ) (text : List ℕ) → length text < capacity → store capacity text ≡ ok text
unfolding store
store_ok capacity text h = if_true _ _ {b = leb (length text + 1) capacity} (ground arith)

store-next :
    (capacity : ℕ) (text : List ℕ) (next : List ℕ → Result (List ℕ)) (r : Result (List ℕ))
    → length text < capacity
    → next text ≡ r
    → (store capacity text >>= next) ≡ r
unfolding store
store-next capacity text next r h k = ap (λ s. s >>= next) (store_ok capacity text h) ∙ k

length-signo_text :
    (si_signo : ℕ) (o : Option (List ℕ))
    → switch si_signo signal_names ≡ o
    → length (signo_text si_signo o) ≤ 18
unfolding signo_text
length-signo_text si_signo none h =
    let p = length-print_int si_signo in
    let l = length-append (print_int si_signo) (b',' ∷ []) in omega arith
length-signo_text si_signo (some signo) h =
    let p = switch-every (shorter_than 7) si_signo signal_names signo h signal_names_short in
    let l = length-append signo (b',' ∷ []) in ground arith

length-thread_text : (name : List ℕ) (tid : ℕ) → length (thread_text name tid) ≤ length name + 21
unfolding thread_text
length-thread_text name tid =
    let p = length-print_int tid in
    let l = length-append (print_int tid) (b')' ∷ (b',' ∷ [])) in
    let m = length-append name (b'(' ∷ (print_int tid ++ (b')' ∷ (b',' ∷ [])))) in omega arith

length-code_text : (si_code : ℕ) → length (code_text si_code) ≤ 16
unfolding code_text
length-code_text si_code = let p = length-print_int si_code in omega arith

-- The part of the text for the code.
unfoldable pub detail_text : ℕ → Option (List ℕ) → List ℕ
unfolding code_text
detail_text si_code none = code_text si_code
detail_text si_code (some detail) = detail

module _ (si_signo si_code : ℕ) where
  detail_in-length :
      (o : Option (List (ℕ × List ℕ))) (detail : List ℕ)
      → switch si_signo detail_tables ≡ o
      → detail_in o si_code ≡ some detail
      → length detail ≤ 50
  unfolding detail_in details_short
  detail_in-length none detail h k = absurd (ground arith)
  detail_in-length (some details) detail h k =
      let all = switch-every details_short si_signo detail_tables details h detail_tables_short in
      let one = switch-every (shorter_than 50) si_code details detail k all in ground arith

  length-detail_text :
      (o : Option (List ℕ)) → code_detail si_signo si_code ≡ o → length (detail_text si_code o) ≤ 50
  unfolding detail_text code_detail
  length-detail_text none h = let p = length-code_text si_code in omega arith
  length-detail_text (some detail) h =
      detail_in-length (switch si_signo detail_tables) detail refl h

  append_detail_lem :
      (sigdetail : List ℕ) (o : Option (List ℕ))
      → code_detail si_signo si_code ≡ o
      → length sigdetail < 4000
      → append_detail sigdetail si_code o ≡ ok (sigdetail ++ detail_text si_code o)
  unfolding append_detail detail_text
  append_detail_lem sigdetail none h n =
      let p = length-code_text si_code in
      let l = length-append sigdetail (code_text si_code) in
      store-next buf_size (code_text si_code) (λ buf. store sigdetail_size (sigdetail ++ buf)) _
        (omega arith) (store_ok sigdetail_size (sigdetail ++ code_text si_code) (omega arith))
  append_detail_lem sigdetail (some detail) h n =
      let p = length-detail_text (some detail) h in
      let l = length-append sigdetail detail in
      store_ok sigdetail_size (sigdetail ++ detail) (omega arith)

  -- The text that `assembleCrashInfo` is to make.
  abbrev pub crash_text : List ℕ → ℕ → List ℕ
  crash_text name tid =
      (thread_text name tid ++ signo_text si_signo (switch si_signo signal_names))
      ++ detail_text si_code (code_detail si_signo si_code)

  -- With a thread name of at most 15 characters, which is what prctl gives, `assembleCrashInfo`
  -- writes into neither of its buffers past the end, whatever the signal, the code and the thread
  -- id, and its text is the thread's part, the signal's and the code's, at most 104 characters.
  pub assemble_crash_info-crash_text :
      (name : List ℕ) (tid : ℕ)
      → length name ≤ 15
      → (assemble_crash_info name tid si_signo si_code ≡ ok (crash_text name tid))
        × (length (crash_text name tid) ≤ 104)
  unfolding assemble_crash_info
  assemble_crash_info-crash_text name tid h =
      let s = signo_text si_signo (switch si_signo signal_names) in
      let d = detail_text si_code (code_detail si_signo si_code) in
      let a = length-thread_text name tid in
      let b = length-signo_text si_signo (switch si_signo signal_names) refl in
      let c = length-detail_text (code_detail si_signo si_code) refl in
      let ab = length-append (thread_text name tid) s in
      let abc = length-append (thread_text name tid ++ s) d in
      (
        store-next buf_size name _ _ (omega arith) (
            store-next sigdetail_size (thread_text name tid) _ _ (omega arith) (
              store-next buf_size s _ _ (omega arith) (
                store-next sigdetail_size (thread_text name tid ++ s) _ _ (omega arith) (
                  append_detail_lem (thread_text name tid ++ s) (code_detail si_signo si_code) refl
                    (omega arith))))),
        omega arith,
      )
