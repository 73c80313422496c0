-- ===== src/Elf/Reader/Runs.antt =====
-- A run of elf_reader.cpp's `Init` on a small file, and the theorem at it.
use mathlib.Core.Option.{some-injective}
use mathlib.Core.Path.{subst}
use xapm.Base.{
  ℕ, ◌+◌, ◌<◌, ◌≡◌, refl, true, inl, inr, none, some, [], ok, strcmp_eq, arith, ◌==◌, if◌then◌else◌,
  Bool-cases,
}
use xapm.Elf.Image.{Shdr, ElfImage, addr_mod}
use xapm.Elf.Reader.{
  ElfReader, new_elf_reader, is_valid_range, checked_offset, section_name, read_strtab,
  read_section, read_sections, init_names, init_sections, init_image, init,
}
use xapm.Elf.Reader.Sections.{IsUnwrapped, HasSections}
use xapm.Elf.Reader.Kept.{init-HasSections}

-- The section names, and .dynsym.
abbrev names_header : Shdr
names_header = record { sh_name = 0; sh_type = 3; sh_offset = 10; sh_size = 50; sh_entsize = 0 }

abbrev dynsym_header : Shdr
dynsym_header = record { sh_name = 0; sh_type = 11; sh_offset = 100; sh_size = 48; sh_entsize = 24 }

abbrev header : ℕ → Shdr
header i = if i == 1 then dynsym_header else names_header

abbrev image : ElfImage
image = record {
  size = 1000;
  word_size = 8;
  ehdr = record {
    has_elf_magic = true;
    e_ehsize = 64;
    e_shoff = 200;
    e_shnum = 2;
    e_shentsize = 64;
    e_shstrndx = 0;
  };
  shdr_at = λ t i. some (header i);
  sym_at = λ t n. none;
  word_at = λ t n. none;
  addr_at = λ t n. none;
  str_at = λ p. some [];
}

image-IsUnwrapped : IsUnwrapped image 200
image-IsUnwrapped i h b e =
    subst (λ (k : Shdr). k.sh_offset + k.sh_size < addr_mod image) (some-injective (header i) h e)
      (elim (Bool-cases (i == 1)) [ inl p ↦ ground arith | inr p ↦ ground arith ])

abbrev initialised : ElfReader
initialised = record (new_elf_reader image true) { shdr_table = some 200; dynsym = some 100 }

initialises : init (new_elf_reader image true) ≡ ok (true, initialised)
unfolding init init_image init_sections init_names read_sections read_section read_strtab
    section_name checked_offset is_valid_range new_elf_reader strcmp_eq
initialises = refl

init-HasSections_example : HasSections image 200 initialised
init-HasSections_example = init-HasSections image initialised image-IsUnwrapped initialises
