-- ===== src/Elf/Wrapper/Released.antt =====
-- What a FileElfWrapper of elf_wrapper.h holds while it lives, and that it gives all of it back.
use mathlib.Core.Path.{subst}
use mathlib.Core.List.{Mem, mem-cons_self}
use xapm.Base.{
  ℕ, zero, suc, ◌↔◌, ◌<◌, ◌≡◌, refl, sym, ap, ◌∙◌, true, ◌&&◌, List, ◌∷◌, Option, none, some, ◌==◌,
  ltb, lt→ltb, if◌then◌else◌, if_true, if_false, arith,
}
use xapm.Elf.Wrapper.{
  FileSystem, Resources, null, map_failed, start_at, FileElfWrapper, close, munmap, size_of,
  after_mmap, after_lseek, after_open, new_file_elf_wrapper, close_fd, delete_file_elf_wrapper,
  file_is_valid,
}

close_first : (fd : ℕ) (fds : List ℕ) → close fd (fd ∷ fds) ≡ fds
unfolding close
close_first fd fds = if_true _ _ {b = (fd == fd)} (ground arith)

munmap_first : (a n : ℕ) (mappings : List (ℕ × ℕ)) → munmap a n ((a, n) ∷ mappings) ≡ mappings
unfolding munmap
munmap_first a n mappings = if_true _ _ {b = (a == a && n == n)} (ground arith)

-- What a wrapper was given by the system, and what it then holds.
pub data Acquired (system : FileSystem) (held : Resources)
    : Resources → FileElfWrapper → Type 0 where
  unopened : Acquired system held held (record { fd = none; start = null; size = 0 })
  empty_file :
      (fd : ℕ)
      → Acquired system held
          (record { fds = fd ∷ held.fds; mappings = held.mappings })
          (record { fd = some fd; start = null; size = 0 })
  unmapped :
      (fd size : ℕ)
      → system.mmap size fd ≡ none
      → Acquired system held
          (record { fds = fd ∷ held.fds; mappings = held.mappings })
          (record { fd = some fd; start = map_failed; size = size })
  mapped :
      (fd size a : ℕ)
      → 0 < size
      → system.mmap size fd ≡ some a
      → Acquired system held
          (record { fds = fd ∷ held.fds; mappings = (a, size) ∷ held.mappings })
          (record { fd = some fd; start = start_at a; size = size })

delete-Acquired :
    {system : FileSystem} {held : Resources} (held' : Resources) (w : FileElfWrapper)
    → Acquired system held held' w
    → delete_file_elf_wrapper w held' ≡ held
unfolding delete_file_elf_wrapper close_fd
delete-Acquired {held = held} _ _ unopened = refl
delete-Acquired {held = held} _ _ (empty_file fd) =
    ap (λ fds. record { fds = fds; mappings = held.mappings }) (close_first fd held.fds)
delete-Acquired {held = held} _ _ (unmapped fd size e) =
    ap (λ fds. record { fds = fds; mappings = held.mappings }) (close_first fd held.fds)
delete-Acquired {held = held} _ _ (mapped fd size a p e) =
    let c = close_first fd held.fds in
    let m =
      if_true _ ((a, size) ∷ held.mappings) (lt→ltb 0 size p) ∙ munmap_first a size held.mappings in
    ap
      (λ fds. record {
        fds = fds;
        mappings =
            if ltb 0 size
            then munmap a size ((a, size) ∷ held.mappings)
            else (a, size) ∷ held.mappings;
      })
      c
    ∙ ap (λ ms. record { fds = held.fds; mappings = ms }) m

abbrev pub IsAcquired : FileSystem → Resources → Resources × FileElfWrapper → Type 0
IsAcquired system held (held', w) = Acquired system held held' w

module _ (system : FileSystem) where
  after_mmap-Acquired :
      (fd size : ℕ) (held : Resources) (answer : Option ℕ)
      → 0 < size
      → system.mmap size fd ≡ answer
      → IsAcquired system held (
          after_mmap system fd size answer
            (record { fds = fd ∷ held.fds; mappings = held.mappings }))
  unfolding after_mmap
  after_mmap-Acquired fd size held none p e = unmapped fd size e
  after_mmap-Acquired fd size held (some a) p e = mapped fd size a p e

  after_lseek-Acquired :
      (fd size : ℕ) (held : Resources)
      → IsAcquired system held
          (after_lseek system fd size (record { fds = fd ∷ held.fds; mappings = held.mappings }))
  unfolding after_lseek
  after_lseek-Acquired fd zero held = empty_file fd
  after_lseek-Acquired fd (suc n) held =
      subst (IsAcquired system held) (sym (if_false _ _ {b = (suc n == 0)} (ground arith)))
        (after_mmap-Acquired fd (suc n) held (system.mmap (suc n) fd) (omega arith) refl)

  after_open-Acquired :
      (answer : Option ℕ) (held : Resources)
      → IsAcquired system held (after_open system answer held)
  unfolding after_open
  after_open-Acquired none held = unopened
  after_open-Acquired (some fd) held =
      after_lseek-Acquired fd (size_of system (system.lseek_end fd)) held

  pub new_file_elf_wrapper-Acquired :
      (name : Option (List ℕ)) (held : Resources)
      → IsAcquired system held (new_file_elf_wrapper system name held)
  unfolding new_file_elf_wrapper
  new_file_elf_wrapper-Acquired none held = unopened
  new_file_elf_wrapper-Acquired (some name) held = after_open-Acquired (system.open_file name) held

  -- A FileElfWrapper gives back what it took: the destructor, right after the constructor, leaves
  -- the process with the descriptors and the mappings that it had before, whether the file is
  -- there, has any bytes, can be sized and can be mapped or not.
  pub delete_file_elf_wrapper-new_file_elf_wrapper :
      (name : Option (List ℕ)) (held : Resources)
      → delete_file_elf_wrapper
          (new_file_elf_wrapper system name held).1
          (new_file_elf_wrapper system name held).0
        ≡ held
  delete_file_elf_wrapper-new_file_elf_wrapper name held =
      delete-Acquired _ _ (new_file_elf_wrapper-Acquired name held)

  -- The file has bytes, and they are mapped.
  abbrev pub IsMapped : Resources → FileElfWrapper → Type 0
  IsMapped held w =
      (fd : ℕ) × (a : ℕ) × (0 < w.size)
      × (w.fd ≡ some fd)
      × (w.start ≡ start_at a)
      × (system.mmap w.size fd ≡ some a)
      × Mem fd held.fds
      × Mem (a, w.size) held.mappings

  Acquired-IsMapped :
      {held : Resources} (held' : Resources) (w : FileElfWrapper)
      → Acquired system held held' w
      → file_is_valid w ≡ true
      → IsMapped held' w
  unfolding file_is_valid
  Acquired-IsMapped _ _ unopened h = absurd (ground arith)
  Acquired-IsMapped _ _ (empty_file fd) h = absurd (ground arith)
  Acquired-IsMapped _ _ (unmapped fd size e) h = absurd (ground arith)
  Acquired-IsMapped _ _ (mapped fd size a p e) h =
      (fd, a, p, refl, refl, e, mem-cons_self, mem-cons_self)

  IsMapped-file_is_valid :
      (held : Resources) (w : FileElfWrapper) → IsMapped held w → file_is_valid w ≡ true
  unfolding file_is_valid
  IsMapped-file_is_valid held w (fd, a, p, e, k, m, i, j) = ground arith

  -- `IsValid` of a new FileElfWrapper is true exactly where `start_` is an address that mmap gave for
  -- the wrapper's descriptor and size, and its size is not 0; the process then holds the descriptor
  -- and the mapping.
  pub file_is_valid_iff :
      (name : Option (List ℕ)) (held : Resources)
      → (file_is_valid (new_file_elf_wrapper system name held).1 ≡ true)
        ↔ IsMapped
            (new_file_elf_wrapper system name held).0
            (new_file_elf_wrapper system name held).1
  file_is_valid_iff name held =
      (Acquired-IsMapped _ _ (new_file_elf_wrapper-Acquired name held), IsMapped-file_is_valid _ _)
