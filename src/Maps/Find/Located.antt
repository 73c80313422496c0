-- ===== src/Maps/Find/Located.antt =====
-- What the searches of map_util.hpp find is a library of the name, and the first one that has a bias.
use mathlib.Core.Option.{some-injective}
use mathlib.Core.Path.{subst}
use native.Mathlib.Nat.{mod-lt, one-le-pow}
use mathlib.Core.List.{Mem, mem-cons_self, mem-cons_of_mem}
use xapm.Base.{
  ℕ, ◌+◌, ◌*◌, ◌%◌, ◌<◌, ◌≤◌, ◌≡◌, ◌≢◌, refl, sym, ap, ◌∙◌, inl, inr, List, [], ◌∷◌, ◌++◌, Option,
  none, some, ok, ◌>>=◌, >>=-eq-ok, ok-injective, ◌==◌, ltb, arith, Bool-cases, if_true, if_false,
}
use xapm.Maps.Bias.{MapEntry, Process, addr_mod}
use xapm.Maps.Names.{ends_with}
use xapm.Maps.Find.Matches.{base_lem, HasName, ends_with-HasName, IsMatch, match_entry-IsMatch}
use xapm.Maps.Find.{
  Scanned, no_entry, entry_of, match_entry, load_info, maps_loop, get_load_info_by_maps, dl_loop,
  found_by_dl, get_load_info_by_dl, get_load_info,
}

-- The entry before the next line's.
pub next_prev : MapEntry → Option MapEntry → MapEntry
next_prev prev_entry none = prev_entry
next_prev prev_entry (some e) = e

-- The last entry of the lines, `prev_entry` if they have none.
pub last_entry : MapEntry → List (Option Scanned) → MapEntry
last_entry prev_entry [] = prev_entry
last_entry prev_entry (line ∷ lines) = last_entry (next_prev prev_entry (entry_of line)) lines

module _ (process : Process) (name : List ℕ) where
  -- One of the lines gives the library's name and load base. The base is a word, and with the bias
  -- added to it, as words, the start of the mapping.
  pub record IsLocated (prev_entry : MapEntry) (lines : List (Option Scanned)) (load_base : ℕ)
      (full_name : List ℕ) : Type 0 where
    pub before : List (Option Scanned)
    pub line : Option Scanned
    pub after : List (Option Scanned)
    pub entry : MapEntry
    pub load_bias : ℕ
    pub is_split : lines ≡ before ++ (line ∷ after)
    pub is_entry : entry_of line ≡ some entry
    pub is_match : IsMatch process name (last_entry prev_entry before) entry load_bias
    pub is_name : full_name ≡ entry.name
    pub is_word : load_base < addr_mod process
    pub is_base : (load_base + load_bias) % addr_mod process ≡ entry.start % addr_mod process

  IsLocated-later :
      (prev_entry : MapEntry) (line : Option Scanned) (lines : List (Option Scanned))
      (load_base : ℕ) (full_name : List ℕ)
      → IsLocated (next_prev prev_entry (entry_of line)) lines load_base full_name
      → IsLocated prev_entry (line ∷ lines) load_base full_name
  unfolding last_entry
  IsLocated-later prev_entry line lines load_base full_name l = record {
    before = line ∷ l.before;
    line = l.line;
    after = l.after;
    entry = l.entry;
    load_bias = l.load_bias;
    is_split = ap (λ (ls : List (Option Scanned)). line ∷ ls) l.is_split;
    is_entry = l.is_entry;
    is_match = l.is_match;
    is_name = l.is_name;
    is_word = l.is_word;
    is_base = l.is_base;
  }

  IsLocated-here :
      (prev_entry e : MapEntry) (line : Option Scanned) (lines : List (Option Scanned))
      (load_bias load_base : ℕ) (full_name : List ℕ)
      → entry_of line ≡ some e
      → match_entry process name prev_entry e ≡ ok (some load_bias)
      → load_info process name e load_bias ≡ (load_base, full_name)
      → IsLocated prev_entry (line ∷ lines) load_base full_name
  unfolding last_entry load_info
  IsLocated-here prev_entry e line lines load_bias load_base full_name p m i = record {
    before = [];
    line = line;
    after = lines;
    entry = e;
    load_bias = load_bias;
    is_split = refl;
    is_entry = p;
    is_match = match_entry-IsMatch process name prev_entry e load_bias m;
    is_name = sym (ap (λ (t : ℕ × List ℕ). t.1) i);
    is_word =
        subst (λ (a : ℕ). a < addr_mod process) (ap (λ (t : ℕ × List ℕ). t.0) i) (mod-lt _ pos);
    is_base =
        ap (λ (t : ℕ × List ℕ). (t.0 + load_bias) % addr_mod process) (sym i)
        ∙ base_lem e.start load_bias (addr_mod process) pos;
  }
    where
      pos : 0 < addr_mod process
      pos = one-le-pow (process.word_size * 8) 2 (omega arith)

  -- One line, given what holds of the lines behind it.
  module _ (prev_entry : MapEntry) (line : Option Scanned) (lines : List (Option Scanned))
      (load_base : ℕ) (full_name : List ℕ)
      (later : (p : MapEntry)
        → maps_loop process name p lines ≡ ok (some (load_base, full_name))
        → IsLocated p lines load_base full_name) where
    goes_to :
        (o : Option MapEntry)
        → entry_of line ≡ o
        → maps_loop process name (next_prev prev_entry o) lines ≡ ok (some (load_base, full_name))
        → IsLocated prev_entry (line ∷ lines) load_base full_name
    goes_to o p k = IsLocated-later prev_entry line lines load_base full_name (
        subst (λ o. IsLocated (next_prev prev_entry o) lines load_base full_name) (sym p)
          (later (next_prev prev_entry o) k))

    by_match :
        (e : MapEntry) (found : Option ℕ)
        → entry_of line ≡ some e
        → match_entry process name prev_entry e ≡ ok found
        → elim found [
          | some load_bias ↦ ok (some (load_info process name e load_bias))
          | none ↦ maps_loop process name e lines
        ]
          ≡ ok (some (load_base, full_name))
        → IsLocated prev_entry (line ∷ lines) load_base full_name
    unfolding next_prev
    by_match e none p m k = goes_to (some e) p k
    by_match e (some load_bias) p m k =
        IsLocated-here prev_entry e line lines load_bias load_base full_name p m (ground arith)

    by_entry :
        (o : Option MapEntry)
        → entry_of line ≡ o
        → elim o [
          | none ↦ maps_loop process name prev_entry lines
          | some e ↦ (do
            found ← match_entry process name prev_entry e
            elim found [
              | some load_bias ↦ ok (some (load_info process name e load_bias))
              | none ↦ maps_loop process name e lines
            ])
        ]
          ≡ ok (some (load_base, full_name))
        → IsLocated prev_entry (line ∷ lines) load_base full_name
    unfolding next_prev
    by_entry none p k = goes_to none p k
    by_entry (some e) p k =
        let (found, m, k') = >>=-eq-ok (match_entry process name prev_entry e) _ k in
        by_match e found p m k'

  maps_loop-IsLocated :
      (prev_entry : MapEntry) (lines : List (Option Scanned)) (load_base : ℕ) (full_name : List ℕ)
      → maps_loop process name prev_entry lines ≡ ok (some (load_base, full_name))
      → IsLocated prev_entry lines load_base full_name
  unfolding maps_loop
  maps_loop-IsLocated prev_entry [] load_base full_name h = absurd (ground arith)
  maps_loop-IsLocated prev_entry (line ∷ lines) load_base full_name h =
      by_entry prev_entry line lines load_base full_name
        (λ p k. maps_loop-IsLocated p lines load_base full_name k) (entry_of line) refl h

  pub get_load_info_by_maps-IsLocated :
      (lines : List (Option Scanned)) (load_base : ℕ) (full_name : List ℕ)
      → get_load_info_by_maps process name (some lines) ≡ ok (some (load_base, full_name))
      → IsLocated no_entry lines load_base full_name
  unfolding get_load_info_by_maps
  get_load_info_by_maps-IsLocated lines load_base full_name h =
      maps_loop-IsLocated no_entry lines load_base full_name h

  IsLocated-HasName :
      (prev_entry : MapEntry) (lines : List (Option Scanned)) (load_base : ℕ) (full_name : List ℕ)
      → IsLocated prev_entry lines load_base full_name
      → HasName process name full_name
  IsLocated-HasName prev_entry lines load_base full_name l =
      let (front, e) = l.is_match.match_name in (front, l.is_name ∙ e)

  -- The object is one of those of dl_iterate_phdr, has the name, and is not loaded at 0.
  abbrev pub IsShown : List (Option (List ℕ) × ℕ) → ℕ → List ℕ → Type 0
  IsShown objects load_base full_name =
      HasName process name full_name × Mem (some full_name, load_base) objects × (load_base ≢ 0)

  found_by_dl-eq :
      (a load_base : ℕ) (dlpi_name full_name : List ℕ)
      → found_by_dl process name (a, dlpi_name) ≡ some (load_base, full_name)
      → (a ≢ 0) × ◌≡◌ {A = ℕ × List ℕ} (a, dlpi_name) (load_base, full_name)
  unfolding found_by_dl
  found_by_dl-eq a load_base dlpi_name full_name h = elim (Bool-cases (a == 0)) [
    | inl e ↦ absurd (ground (arith, sym (if_true _ _ e) ∙ h))
    | inr e ↦ (ground arith, some-injective _ _ (sym (if_false _ _ e) ∙ h))
  ]

  get_load_info_by_dl-IsShown :
      (objects : List (Option (List ℕ) × ℕ)) (load_base : ℕ) (full_name : List ℕ)
      → get_load_info_by_dl process name objects ≡ some (load_base, full_name)
      → IsShown objects load_base full_name
  unfolding get_load_info_by_dl dl_loop found_by_dl
  get_load_info_by_dl-IsShown [] load_base full_name h = absurd (ground arith)
  get_load_info_by_dl-IsShown ((none, a) ∷ objects) load_base full_name h =
      let (n, m, z) = get_load_info_by_dl-IsShown objects load_base full_name h in
      (n, mem-cons_of_mem _ m, z)
  get_load_info_by_dl-IsShown ((some dlpi_name, a) ∷ objects) load_base full_name h =
      elim (Bool-cases (ends_with dlpi_name name)) [
        | inl e ↦
            let (ne, p) =
              found_by_dl-eq a load_base dlpi_name full_name
                (ap (found_by_dl process name) (sym (if_true _ _ e)) ∙ h) in
            subst (λ (r : ℕ × List ℕ). IsShown ((some dlpi_name, a) ∷ objects) r.0 r.1) p
              (ends_with-HasName process name dlpi_name e, mem-cons_self, ne)
        | inr e ↦
            let (n, m, z) =
              get_load_info_by_dl-IsShown objects load_base full_name
                (ap (found_by_dl process name) (sym (if_false _ _ e)) ∙ h) in
            (n, mem-cons_of_mem _ m, z)
      ]

  -- What `GetLoadInfo` finds, by the API level: an object of dl_iterate_phdr and the address that it
  -- is loaded at, or a line of the maps.
  pub data IsFound (android_api : ℕ) (maps : Option (List (Option Scanned)))
      (objects : List (Option (List ℕ) × ℕ)) (load_base : ℕ) (full_name : List ℕ) : Type 0 where
    by_dl :
        22 < android_api
        → IsShown objects load_base full_name
        → IsFound android_api maps objects load_base full_name
    by_lines :
        (lines : List (Option Scanned))
        → android_api ≤ 22
        → maps ≡ some lines
        → IsLocated no_entry lines load_base full_name
        → IsFound android_api maps objects load_base full_name

  pub get_load_info-IsFound :
      (android_api : ℕ) (maps : Option (List (Option Scanned)))
      (objects : List (Option (List ℕ) × ℕ)) (load_base : ℕ) (full_name : List ℕ)
      → get_load_info process name android_api maps objects ≡ ok (some (load_base, full_name))
      → IsFound android_api maps objects load_base full_name
  unfolding get_load_info get_load_info_by_maps
  get_load_info-IsFound android_api maps objects load_base full_name h =
      elim (Bool-cases (ltb 22 android_api)) [
        | inl e ↦ by_dl (ground arith) (
            get_load_info_by_dl-IsShown objects load_base full_name
              (ok-injective _ _ (sym (if_true _ _ e) ∙ h)))
        | inr e ↦ by_maps maps (ground arith) (sym (if_false _ _ e) ∙ h)
      ]
    where
      by_maps :
          (maps : Option (List (Option Scanned)))
          → android_api ≤ 22
          → get_load_info_by_maps process name maps ≡ ok (some (load_base, full_name))
          → IsFound android_api maps objects load_base full_name
      by_maps none l k = absurd (ground arith)
      by_maps (some lines) l k =
          by_lines lines l refl (get_load_info_by_maps-IsLocated lines load_base full_name k)

  IsFound-HasName :
      (android_api : ℕ) (maps : Option (List (Option Scanned)))
      (objects : List (Option (List ℕ) × ℕ)) (load_base : ℕ) (full_name : List ℕ)
      → IsFound android_api maps objects load_base full_name
      → HasName process name full_name
  IsFound-HasName android_api maps objects load_base full_name (by_dl l (n, _, _)) = n
  IsFound-HasName android_api maps objects load_base full_name (by_lines lines l e k) =
      IsLocated-HasName no_entry lines load_base full_name k

  -- Whichever way `GetLoadInfo` takes, the library that it finds has a name that ends with the one
  -- that is looked for.
  pub get_load_info-HasName :
      (android_api : ℕ) (maps : Option (List (Option Scanned)))
      (objects : List (Option (List ℕ) × ℕ)) (load_base : ℕ) (full_name : List ℕ)
      → get_load_info process name android_api maps objects ≡ ok (some (load_base, full_name))
      → HasName process name full_name
  get_load_info-HasName android_api maps objects load_base full_name h =
      IsFound-HasName android_api maps objects load_base full_name
        (get_load_info-IsFound android_api maps objects load_base full_name h)
