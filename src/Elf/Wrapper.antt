-- ===== src/Elf/Wrapper.antt =====
-- hprof/hprofdumper/src/main/cpp/include/elf_wrapper.h: the owners of an ELF file's bytes. What
-- open, lseek and mmap answer is a parameter.
pub mod Released
mod Runs
use xapm.Base.{
  ℕ, ◌+◌, ◌-◌, ◌*◌, ◌%◌, ◌^◌, Bool, true, false, not, ◌&&◌, List, [], ◌∷◌, Option, none, some, ◌==◌,
  ltb, if◌then◌else◌, length,
}
use xapm.Elf.Image.{ElfImage}

-- The answers of the system: `none` where it answers -1 or MAP_FAILED. `image_at` is what stands in
-- the bytes that are mapped at an address, and `file_word_size` is sizeof(size_t).
pub record FileSystem : Type 0 where
  pub file_word_size : ℕ
  pub open_file : List ℕ → Option ℕ
  pub lseek_end : ℕ → Option ℕ
  pub mmap : ℕ → ℕ → Option ℕ
  pub image_at : ℕ → ℕ → ElfImage

-- What the process holds: its descriptors, and its mappings with their sizes.
pub record Resources : Type 0 where
  pub fds : List ℕ
  pub mappings : List (ℕ × ℕ)

-- `start_`.
pub data Start : Type 0 where
  null map_failed : Start
  start_at : (address : ℕ) → Start

-- `fd_` is `none` where it is -1.
pub record FileElfWrapper : Type 0 where
  pub fd : Option ℕ
  pub start : Start
  pub size : ℕ

abbrev pub is_map_failed : Start → Bool
is_map_failed map_failed = true
is_map_failed null = false
is_map_failed (start_at a) = false

abbrev pub address_of : Start → ℕ
address_of (start_at a) = a
address_of null = 0
address_of map_failed = 0

-- close(2) and munmap(2): the descriptor or the mapping is given back.
unfoldable pub close : ℕ → List ℕ → List ℕ
close fd [] = []
close fd (open_fd ∷ fds) = let rest = close fd fds in if fd == open_fd then fds else open_fd ∷ rest

unfoldable pub munmap : ℕ → ℕ → List (ℕ × ℕ) → List (ℕ × ℕ)
munmap a n [] = []
munmap a n ((b, m) ∷ mappings) =
    let rest = munmap a n mappings in if a == b && n == m then mappings else (b, m) ∷ rest

module _ (system : FileSystem) where
  -- `size_t` wraps here, so that lseek's -1 becomes its largest value.
  unfoldable pub size_of : Option ℕ → ℕ
  size_of none = 2 ^ (system.file_word_size * 8) - 1
  size_of (some n) = n % 2 ^ (system.file_word_size * 8)

  unfoldable pub after_mmap : ℕ → ℕ → Option ℕ → Resources → Resources × FileElfWrapper
  after_mmap fd size none held = (held, record { fd = some fd; start = map_failed; size = size })
  after_mmap fd size (some a) held = (
    record { fds = held.fds; mappings = (a, size) ∷ held.mappings },
    record { fd = some fd; start = start_at a; size = size },
  )

  -- `size_ <= 0` is only true of 0.
  unfoldable pub after_lseek : ℕ → ℕ → Resources → Resources × FileElfWrapper
  unfolding after_mmap
  after_lseek fd size held =
      if size == 0
      then (held, record { fd = some fd; start = null; size = size })
      else after_mmap fd size (system.mmap size fd) held

  unfoldable pub after_open : Option ℕ → Resources → Resources × FileElfWrapper
  unfolding after_lseek size_of
  after_open none held = (held, record { fd = none; start = null; size = 0 })
  after_open (some fd) held =
      after_lseek fd (size_of (system.lseek_end fd))
        (record { fds = fd ∷ held.fds; mappings = held.mappings })

  -- The constructor; `none` is a name of nullptr.
  unfoldable pub new_file_elf_wrapper : Option (List ℕ) → Resources → Resources × FileElfWrapper
  unfolding after_open
  new_file_elf_wrapper none held = (held, record { fd = none; start = null; size = 0 })
  new_file_elf_wrapper (some name) held = after_open (system.open_file name) held

unfoldable pub close_fd : Option ℕ → List ℕ → List ℕ
unfolding close
close_fd none fds = fds
close_fd (some fd) fds = close fd fds

-- The destructor.
unfoldable pub delete_file_elf_wrapper : FileElfWrapper → Resources → Resources
unfolding close_fd munmap
delete_file_elf_wrapper w held = record {
  fds = close_fd w.fd held.fds;
  mappings =
      if not (is_map_failed w.start) && ltb 0 w.size
      then munmap (address_of w.start) w.size held.mappings
      else held.mappings;
}

abbrev is_open : Option ℕ → Bool
is_open none = false
is_open (some fd) = true

-- `FileElfWrapper::IsValid`.
unfoldable pub file_is_valid : FileElfWrapper → Bool
file_is_valid w = is_open w.fd && (not (is_map_failed w.start) && ltb 0 w.size)

-- `MemoryElfWrapper`: the constructor takes the text out of its argument, unless it is empty.
pub record MemoryElfWrapper : Type 0 where
  pub elf_data : List ℕ

pub new_memory_elf_wrapper : List ℕ → MemoryElfWrapper × List ℕ
new_memory_elf_wrapper [] = (record { elf_data = [] }, [])
new_memory_elf_wrapper (c ∷ elf_data) = (record { elf_data = c ∷ elf_data }, [])

pub memory_is_valid : MemoryElfWrapper → Bool
memory_is_valid w = ltb 0 (length w.elf_data)
