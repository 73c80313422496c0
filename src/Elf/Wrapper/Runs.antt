-- ===== src/Elf/Wrapper/Runs.antt =====
-- Runs of the wrappers of elf_wrapper.h and the theorems at them.
use xapm.Base.{
  ℕ, ◌≡◌, refl, Bool, true, false, List, [], ◌∷◌, Option, none, some, ◌==◌, if◌then◌else◌, codes,
}
use xapm.Elf.Image.{ElfImage}
use xapm.Elf.Wrapper.{
  FileSystem, Resources, new_file_elf_wrapper, delete_file_elf_wrapper, file_is_valid, after_open,
  after_lseek, after_mmap, size_of, new_memory_elf_wrapper, memory_is_valid,
}
use xapm.Elf.Wrapper.Released.{delete_file_elf_wrapper-new_file_elf_wrapper}

abbrev no_image : ElfImage
no_image = record {
  size = 0;
  word_size = 8;
  ehdr = record {
    has_elf_magic = false;
    e_ehsize = 0;
    e_shoff = 0;
    e_shnum = 0;
    e_shentsize = 0;
    e_shstrndx = 0;
  };
  shdr_at = λ t n. none;
  sym_at = λ t n. none;
  word_at = λ t n. none;
  addr_at = λ t n. none;
  str_at = λ p. none;
}

-- Descriptor 5 is an empty file, 6 one that cannot be sized, and 7 one of 4096 bytes.
abbrev files : FileSystem
files = record {
  file_word_size = 8;
  open_file = λ name. elim name [ [] ↦ none | c ∷ rest ↦ some c ];
  lseek_end = λ fd. if fd == 5 then some 0 else if fd == 6 then none else some 4096;
  mmap = λ size fd. if size == 4096 then some 65536 else none;
  image_at = λ a n. no_image;
}

abbrev held_before : Resources
held_before = record { fds = 3 ∷ []; mappings = (8192, 100) ∷ [] }

abbrev name_of : ℕ → Option (List ℕ)
name_of fd = some (fd ∷ [])

only_mapped_is_valid :
    ◌≡◌ {A = Bool × Bool × Bool}
      (
        file_is_valid (new_file_elf_wrapper files (name_of 5) held_before).1,
        file_is_valid (new_file_elf_wrapper files (name_of 6) held_before).1,
        file_is_valid (new_file_elf_wrapper files (name_of 7) held_before).1,
      )
      (false, false, true)
unfolding file_is_valid new_file_elf_wrapper after_open after_lseek after_mmap size_of
only_mapped_is_valid = refl

memory_is_taken :
    ◌≡◌ {A = Bool × List ℕ}
      (
        memory_is_valid (new_memory_elf_wrapper (codes "ELF")).0,
        (new_memory_elf_wrapper (codes "ELF")).1,
      )
      (true, [])
unfolding memory_is_valid new_memory_elf_wrapper
memory_is_taken = refl

delete_file_elf_wrapper-new_file_elf_wrapper_example :
    delete_file_elf_wrapper
      (new_file_elf_wrapper files (name_of 7) held_before).1
      (new_file_elf_wrapper files (name_of 7) held_before).0
    ≡ held_before
delete_file_elf_wrapper-new_file_elf_wrapper_example =
    delete_file_elf_wrapper-new_file_elf_wrapper files (name_of 7) held_before
