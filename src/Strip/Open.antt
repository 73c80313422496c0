-- ===== src/Strip/Open.antt =====
-- `HookOpenInternal` of hprof_strip.cpp: which file descriptor is the dump's.
use mathlib.Core.Option.{some-injective}
use mathlib.Core.Path.{subst}
use xapm.Base.{
  arith, ℕ, Bool, true, false, List, [], ◌∷◌, Option, none, some, if◌then◌else◌, strstr, Contains,
  strstr-split, strstr-Contains, ◌≡◌, ◌≢◌, refl, sym, if_true, if_false, ◌∙◌, ◌⊎◌, inl, inr,
  Option-cases,
}
use xapm.Strip.State.{HprofStrip}

-- `path_name != nullptr && strstr(path_name, hprof_name_.c_str())`.
pub names_dump : Option (List ℕ) → List ℕ → Bool
names_dump none name = false
names_dump (some path) name = elim (strstr path name) [ none ↦ false | some rest ↦ true ]

pub note_open : List ℕ → ℕ → Option (List ℕ) → HprofStrip → HprofStrip
note_open [] fd path s = s
note_open (c ∷ name) fd path s =
    if names_dump path (c ∷ name) then record s { hprof_fd = fd; is_hook_success = true } else s

-- `fd` is what `open` answered; the function returns it as it is.
pub hook_open_internal : ℕ → Option (List ℕ) → HprofStrip → ℕ × HprofStrip
unfolding note_open
hook_open_internal fd path s = (fd, note_open s.hprof_name fd path s)

names_dump-Contains : (path name : List ℕ) → Contains name path → names_dump (some path) name ≡ true
unfolding names_dump
names_dump-Contains path name within =
    let (rest, e) = strstr-Contains path name within in ground arith

names_dump-not : (path name : List ℕ) → ¬ Contains name path → names_dump (some path) name ≡ false
unfolding names_dump
names_dump-not path name h = elim (Option-cases (strstr path name)) [
  | inl e ↦ ground arith
  | inr (rest, e) ↦
      let (front, back, p, q) = strstr-split path name rest e in absurd (h (front, back, p ∙ rw q))
]

-- An open of a path in which the dump's name stands is noted: its descriptor is from then on the one
-- whose writes are cut, and the hook counts as successful. This holds of the descriptor -1 too, that
-- of an open that failed.
pub hook_open-dump :
    (fd : ℕ) (path : List ℕ) (s : HprofStrip)
    → s.hprof_name ≢ []
    → Contains s.hprof_name path
    → hook_open_internal fd (some path) s ≡ (fd, record s { hprof_fd = fd; is_hook_success = true })
unfolding hook_open_internal
hook_open-dump fd path s ne within = note s.hprof_name ne within
  where
    note :
        (name : List ℕ)
        → name ≢ []
        → Contains name path
        → ◌≡◌ {A = ℕ × HprofStrip}
            (fd, note_open name fd (some path) s)
            (fd, record s { hprof_fd = fd; is_hook_success = true })
    note [] ne' within' = absurd (ne' refl)
    note (c ∷ name) ne' within' = rw (names_dump-Contains path (c ∷ name) within')

-- With no name set, no path or a path without the name, the object stays as it was.
hook_open-other :
    (fd : ℕ) (path : List ℕ) (s : HprofStrip)
    → (s.hprof_name ≡ []) ⊎ ¬ Contains s.hprof_name path
    → hook_open_internal fd (some path) s ≡ (fd, s)
unfolding hook_open_internal
hook_open-other fd path s other = note s.hprof_name other
  where
    note :
        (name : List ℕ)
        → (name ≡ []) ⊎ ¬ Contains name path
        → ◌≡◌ {A = ℕ × HprofStrip} (fd, note_open name fd (some path) s) (fd, s)
    note [] h = refl
    note (c ∷ name) (inl e) = cc
    note (c ∷ name) (inr h) = rw (names_dump-not path (c ∷ name) h)

-- What an open makes of the object: the dump's descriptor is noted, or nothing happens.
pub data Noted (fd : ℕ) (path : Option (List ℕ)) (s : HprofStrip) : HprofStrip → Type 0 where
  dump_opened :
      (t : List ℕ)
      → path ≡ some t
      → s.hprof_name ≢ []
      → Contains s.hprof_name t
      → Noted fd path s (record s { hprof_fd = fd; is_hook_success = true })
  other_opened :
      (s.hprof_name ≡ [])
        ⊎ ((path ≡ none) ⊎ ((t : List ℕ) → path ≡ some t → ¬ Contains s.hprof_name t))
      → Noted fd path s s

is_dump : (path name : List ℕ) → Contains name path ⊎ ¬ Contains name path
is_dump path name = elim (Option-cases (strstr path name)) [
  | inl e ↦ inr (λ c. let (rest, k) = strstr-Contains path name c in ground arith)
  | inr (rest, e) ↦
      let (front, back, p, q) = strstr-split path name rest e in inl (front, back, p ∙ rw q)
]

-- Every call of `HookOpenInternal` returns what `open` answered. It notes that answer as the dump's
-- descriptor, and counts as successful, where a name is set and stands in a path that is not null;
-- this holds of the descriptor -1 too, that of an open that failed. On every other call the object
-- stays as it was.
pub hook_open_internal_lem :
    (fd : ℕ) (path : Option (List ℕ)) (s : HprofStrip)
    → ((hook_open_internal fd path s).0 ≡ fd) × Noted fd path s (hook_open_internal fd path s).1
unfolding hook_open_internal names_dump
hook_open_internal_lem fd path s = (refl, by_name s.hprof_name path refl)
  where
    by_name :
        (name : List ℕ) (path : Option (List ℕ))
        → s.hprof_name ≡ name
        → Noted fd path s (note_open name fd path s)
    by_name [] path e = other_opened (inl e)
    by_name (c ∷ name) none e = other_opened (inr (inl refl))
    by_name (c ∷ name) (some t) e = elim (is_dump t (c ∷ name)) [
      | inl within ↦
          subst (Noted fd (some t) s) (sym (if_true _ _ (names_dump-Contains t (c ∷ name) within)))
            (dump_opened t refl (λ k. ground arith)
              (subst (λ (n : List ℕ). Contains n t) (sym e) within))
      | inr h ↦ subst (Noted fd (some t) s) (sym (if_false _ _ (names_dump-not t (c ∷ name) h))) (
          other_opened (
            inr (
              inr (λ u k within. h (
                subst (λ (n : List ℕ). Contains n t) e
                  (subst (Contains s.hprof_name) (sym (some-injective t u k)) within))))))
    ]
