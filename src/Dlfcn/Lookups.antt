-- ===== src/Dlfcn/Lookups.antt =====
-- What a symbol that kwai_dlfcn.cpp finds is, from the name of the library to the address.
use mathlib.Core.Path.{subst}
use mathlib.Core.Option.{some-injective}
use xapm.Base.{
  ℕ, ◌≡◌, refl, sym, ap, ◌∙◌, inl, inr, Bool, true, false, not, List, Option, none, some, ok,
  >>=-eq-ok, ok-injective, if◌then◌else◌, Bool-cases, if_true, if_false, arith, ltb,
}
use xapm.Elf.Image.{ElfImage}
use xapm.Elf.Reader.{ElfReader, new_elf_reader, init}
use xapm.Elf.Lookup.{lookup_symbol}
use xapm.Elf.Lookup.Answer.{Answer, lookup_symbol-Answer}
use xapm.Elf.Wrapper.{Resources, FileElfWrapper, address_of, new_file_elf_wrapper, file_is_valid}
use xapm.Elf.Wrapper.Released.{delete_file_elf_wrapper-new_file_elf_wrapper}
use xapm.Dlfcn.{
  DlPhdrInfo, Linker, DlFcn, Handle, iterate_data, new_target, is_android_n, is_absolute,
  absolute_name, call_once, dl_iterate_phdr_wrapper, dlopen_at, dlopen, look_with, look_in_file,
  dlsym_n, dlsym, as_iterate_data, as_system,
}
use xapm.Dlfcn.Objects.{Settled, walked, dl_iterate_phdr_wrapper-Settled}

pub pair-eq {ℓ κ} :
    {A : Type ℓ} {B : Type κ} (a a' : A) (b b' : B)
    → ◌≡◌ {A = A × B} (a, b) (a', b')
    → (a ≡ a') × (b ≡ b')
pair-eq {A = A} {B = B} a a' b b' h = (ap (λ (p : A × B). p.0) h, ap (λ (p : A × B). p.1) h)

module _ (linker : Linker) (fuel : ℕ) where
  -- The bytes that a wrapper has.
  abbrev pub image_of : FileElfWrapper → ElfImage
  image_of w = linker.files.image_at (address_of w.start) w.size

  -- Where the answer for a symbol comes from: there is none where the reader cannot be initialised,
  -- else it is `LookupSymbol`'s.
  pub data FileAnswer (w : FileElfWrapper) (name : List ℕ) (load_base : ℕ) (only_dynsym : Bool)
      : Option ℕ → Type 0 where
    unreadable :
        (r : ElfReader)
        → init (new_elf_reader (image_of w) (file_is_valid w)) ≡ ok (false, r)
        → FileAnswer w name load_base only_dynsym none
    answered :
        (r : ElfReader) (o : Option ℕ)
        → init (new_elf_reader (image_of w) (file_is_valid w)) ≡ ok (true, r)
        → Answer (image_of w) fuel r name load_base only_dynsym o
        → FileAnswer w name load_base only_dynsym o

  look_with-FileAnswer :
      (name : List ℕ) (load_base : ℕ) (only_dynsym : Bool) (w : FileElfWrapper) (o : Option ℕ)
      → look_with linker fuel name load_base only_dynsym w ≡ ok o
      → FileAnswer w name load_base only_dynsym o
  unfolding look_with
  look_with-FileAnswer name load_base only_dynsym w o h =
      let (r, p, q) = >>=-eq-ok (init (new_elf_reader (image_of w) (file_is_valid w))) _ h in
      by_init r p q
    where
      by_init :
          (r : Bool × ElfReader)
          → init (new_elf_reader (image_of w) (file_is_valid w)) ≡ ok r
          → (if r.0
              then lookup_symbol (image_of w) fuel r.1 (some name) load_base only_dynsym
              else ok none)
            ≡ ok o
          → FileAnswer w name load_base only_dynsym o
      by_init (true, r) p q =
          answered r o p (lookup_symbol-Answer (image_of w) fuel r name load_base only_dynsym o q)
      by_init (false, r) p q =
          subst (FileAnswer w name load_base only_dynsym) (ok-injective none o q) (unreadable r p)

  -- The wrapper that a file is opened with.
  abbrev pub opened : List ℕ → Resources → FileElfWrapper
  opened file held = (new_file_elf_wrapper linker.files (some file) held).1

  pub look_in_file-FileAnswer :
      (file name : List ℕ) (load_base : ℕ) (only_dynsym : Bool) (held held' : Resources)
      (o : Option ℕ)
      → look_in_file linker fuel file name load_base only_dynsym held ≡ ok (held', o)
      → (held' ≡ held) × FileAnswer (opened file held) name load_base only_dynsym o
  unfolding look_in_file
  look_in_file-FileAnswer file name load_base only_dynsym held held' o h =
      let (found, p, q) =
        >>=-eq-ok (look_with linker fuel name load_base only_dynsym (opened file held)) _ h in
      let (e, k) = pair-eq _ _ _ _ (ok-injective _ _ q) in
      (
        sym e ∙ delete_file_elf_wrapper-new_file_elf_wrapper linker.files (some file) held,
        subst (FileAnswer (opened file held) name load_base only_dynsym) k
            (look_with-FileAnswer name load_base only_dynsym (opened file held) found p),
      )

  module _ (lib_name : List ℕ) (flags : ℕ) where
    dlopen_at_n :
        (android_api : ℕ) (handle : Option Handle)
        → is_android_n android_api ≡ true
        → dlopen_at linker android_api lib_name flags ≡ ok handle
        → (info : DlPhdrInfo) × (handle ≡ some (iterate_data info))
          × Settled lib_name (new_target lib_name) (walked linker) info
    unfolding dlopen_at
    dlopen_at_n android_api handle n h =
        let (info, p, q) = >>=-eq-ok (dl_iterate_phdr_wrapper linker (new_target lib_name)) _ (
          sym (
            if_false _ _ {b = ltb android_api 24} (ground arith)
            ∙ if_false _ _ {b = not (ltb android_api 26)} (ground arith))
          ∙ h) in
        (info, sym (ok-injective _ _ q), dl_iterate_phdr_wrapper-Settled linker lib_name info p)

  -- How Android N's `dlsym` comes to an answer for a handle's data.
  pub data AnswerN (info : DlPhdrInfo) (name : List ℕ) (held : Resources) : Option ℕ → Type 0 where
    not_a_path : absolute_name info.dlpi_name ≡ none → AnswerN info name held none
    from_path :
        (path : List ℕ) (o : Option ℕ)
        → info.dlpi_name ≡ some path
        → is_absolute path ≡ true
        → FileAnswer (opened path held) name info.dlpi_addr true o
        → AnswerN info name held o

  absolute_name-some :
      (name : Option (List ℕ)) (path : List ℕ)
      → absolute_name name ≡ some path
      → (name ≡ some path) × (is_absolute path ≡ true)
  absolute_name-some none path h = absurd (ground arith)
  absolute_name-some (some p) path h = elim (Bool-cases (is_absolute p)) [
    | inl e ↦
        let k = sym (if_true _ _ e) ∙ h in (k, ap is_absolute (sym (some-injective p path k)) ∙ e)
    | inr e ↦ absurd (ground (arith, sym (if_false _ _ e) ∙ h))
  ]

  dlsym_n-AnswerN :
      (info : DlPhdrInfo) (name : List ℕ) (held held' : Resources) (o : Option ℕ)
      (path : Option (List ℕ))
      → absolute_name info.dlpi_name ≡ path
      → dlsym_n linker fuel path info.dlpi_addr name held ≡ ok (held', o)
      → (held' ≡ held) × AnswerN info name held o
  unfolding dlsym_n
  dlsym_n-AnswerN info name held held' o none e h =
      let (p, q) = pair-eq _ _ _ _ (ok-injective _ _ h) in
      (sym p, subst (AnswerN info name held) q (not_a_path e))
  dlsym_n-AnswerN info name held held' o (some path) e h =
      let (p, a) = look_in_file-FileAnswer path name info.dlpi_addr true held held' o h in
      let (k, m) = absolute_name-some info.dlpi_name path e in (p, from_path path o k m a)

  dlsym_of_data :
      (info : DlPhdrInfo) (name : List ℕ) (s : DlFcn) (held : Resources) (r : Resources × Option ℕ)
      → is_android_n s.android_api ≡ true
      → dlsym linker fuel (some (iterate_data info)) name s held ≡ ok r
      → dlsym_n linker fuel (absolute_name info.dlpi_name) info.dlpi_addr name held ≡ ok r
  unfolding dlsym
  dlsym_of_data info name s held r n h =
      sym (if_false _ _ {b = not (is_android_n s.android_api)} (ground arith)) ∙ h

  -- A handle of `dlopen` on Android N.
  pub dlopen-Settled :
      (lib_name : List ℕ) (flags : ℕ) (s s' : DlFcn) (handle : Option Handle)
      → is_android_n (call_once linker s).android_api ≡ true
      → dlopen linker lib_name flags s ≡ ok (s', handle)
      → (info : DlPhdrInfo) × (handle ≡ some (iterate_data info))
        × (is_android_n s'.android_api ≡ true)
        × Settled lib_name (new_target lib_name) (walked linker) info
  unfolding dlopen
  dlopen-Settled lib_name flags s s' handle n h =
      let (found, p, q) =
        >>=-eq-ok (dlopen_at linker (call_once linker s).android_api lib_name flags) _ h in
      let (info, e, settled) =
        dlopen_at_n lib_name flags (call_once linker s).android_api found n p in
      let (es, eh) = pair-eq _ _ _ _ (ok-injective _ _ q) in
      (info, sym eh ∙ e, ap (λ (t : DlFcn). is_android_n t.android_api) (sym es) ∙ n, settled)

  pub dlsym-AnswerN :
      (info : DlPhdrInfo) (name : List ℕ) (s : DlFcn) (held held' : Resources) (o : Option ℕ)
      → is_android_n s.android_api ≡ true
      → dlsym linker fuel (some (iterate_data info)) name s held ≡ ok (held', o)
      → (held' ≡ held) × AnswerN info name held o
  dlsym-AnswerN info name s held held' o n h =
      dlsym_n-AnswerN info name held held' o (absolute_name info.dlpi_name) refl
        (dlsym_of_data info name s held (held', o) n h)

  -- On Android N, what `dlsym` returns for a handle of `dlopen` comes from the .dynsym of a file. The
  -- handle holds the first object that is loaded at an address other than 0 and has the library's
  -- name in its path, or only the library's name and the address 0 where no object is that;
  -- nullptr is returned where that name is no absolute path or the file cannot be read as ELF, else
  -- the answer is that of `LookupSymbol`, for dynamic symbols only, over the file of that path and at
  -- the address. The process holds afterwards what it held before.
  pub dlsym-dlopen :
      (lib_name name : List ℕ) (flags : ℕ) (s s' : DlFcn) (handle : Option Handle)
      (held held' : Resources) (o : Option ℕ)
      → is_android_n (call_once linker s).android_api ≡ true
      → dlopen linker lib_name flags s ≡ ok (s', handle)
      → dlsym linker fuel handle name s' held ≡ ok (held', o)
      → (info : DlPhdrInfo) × (held' ≡ held)
        × Settled lib_name (new_target lib_name) (walked linker) info
        × AnswerN info name held o
  dlsym-dlopen lib_name name flags s s' handle held held' o n h k =
      let (info, e, n', settled) = dlopen-Settled lib_name flags s s' handle n h in
      let (same, answer) =
        dlsym-AnswerN info name s' held held' o n'
          (ap (λ (t : Option Handle). dlsym linker fuel t name s' held) (sym e) ∙ k) in
      (info, same, settled, answer)

  -- Whatever `dlsym` returns, the process then holds what it held before.
  pub dlsym_held :
      (handle : Option Handle) (name : List ℕ) (s : DlFcn) (held held' : Resources) (o : Option ℕ)
      → dlsym linker fuel handle name s held ≡ ok (held', o)
      → held' ≡ held
  unfolding dlsym
  dlsym_held handle name s held held' o h = elim (Bool-cases (not (is_android_n s.android_api))) [
    | inl e ↦
        let (p, q, k) = >>=-eq-ok (as_system handle) _ (sym (if_true _ _ e) ∙ h) in
        sym (pair-eq _ _ _ _ (ok-injective _ _ k)).0
    | inr e ↦
        let (info, q, k) = >>=-eq-ok (as_iterate_data handle) _ (sym (if_false _ _ e) ∙ h) in
        (dlsym_n-AnswerN info name held held' o (absolute_name info.dlpi_name) refl k).0
  ]
