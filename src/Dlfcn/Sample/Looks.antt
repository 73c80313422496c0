-- ===== src/Dlfcn/Sample/Looks.antt =====
-- What kwai_dlfcn.cpp answers on the sample device, from what the sample file answers.
use xapm.Base.{ℕ, ◌≡◌, ap, ◌∙◌, Bool, List, Option, none, some, Result, ok, ◌>>=◌, if◌then◌else◌}
use xapm.Elf.Reader.{ElfReader}
use xapm.Elf.Reader.Sample.{sample, sample_reader, sample_initialises}
use xapm.Elf.Lookup.{lookup_symbol}
use xapm.Elf.Wrapper.{
  FileElfWrapper, start_at, new_file_elf_wrapper, delete_file_elf_wrapper, file_is_valid,
  after_open, after_lseek, after_mmap, size_of, close, close_fd, munmap,
}
use xapm.Dlfcn.{look_with, look_in_file}
use xapm.Dlfcn.Sample.{art_path, linker_of, nothing_held}

abbrev art_wrapper : FileElfWrapper
art_wrapper = record { fd = some 7; start = start_at 65536; size = 1000 }

module _ (api_level : ℕ) (name : List ℕ) (only_dynsym : Bool) (o : Option ℕ) where
  looks :
      lookup_symbol sample 2 sample_reader (some name) 4096 only_dynsym ≡ ok o
      → look_with (linker_of api_level) 2 name 4096 only_dynsym art_wrapper ≡ ok o
  unfolding look_with file_is_valid
  looks h =
      ap
        (λ (r : Result (Bool × ElfReader)). r >>= (λ (r : Bool × ElfReader).
          if r.0 then lookup_symbol sample 2 r.1 (some name) 4096 only_dynsym else ok none))
        sample_initialises
      ∙ h

  pub looks_in_file :
      lookup_symbol sample 2 sample_reader (some name) 4096 only_dynsym ≡ ok o
      → look_in_file (linker_of api_level) 2 art_path name 4096 only_dynsym nothing_held
        ≡ ok (nothing_held, o)
  unfolding look_in_file new_file_elf_wrapper after_open after_lseek after_mmap size_of
      delete_file_elf_wrapper close_fd close munmap
  looks_in_file h = ap (λ (r : Result (Option ℕ)). r >>= (λ o. ok (nothing_held, o))) (looks h)
