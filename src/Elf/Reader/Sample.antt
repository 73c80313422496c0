-- ===== src/Elf/Reader/Sample.antt =====
-- A small ELF file, and what elf_reader.cpp makes of it: test data for the readers' clients.
use xapm.Base.{
  ℕ, ◌+◌, ◌≡◌, refl, true, Option, none, some, List, [], ok, strcmp_eq, codes, ◌==◌, if◌then◌else◌,
  arith,
}
use xapm.Elf.Image.{Shdr, ElfImage}
use xapm.Elf.Reader.{
  ElfReader, new_elf_reader, is_valid_range, checked_offset, section_name, build_hash, read_strtab,
  read_symtab, read_section, read_sections, init_names, init_sections, init_image, init,
}
use xapm.Elf.Reader.Outside.{IsOutside}

abbrev pub section : ℕ → ℕ → ℕ → ℕ → Shdr
section name type offset entsize = record {
  sh_name = name;
  sh_type = type;
  sh_offset = offset;
  sh_size = 50;
  sh_entsize = entsize;
}

-- The section names, .dynsym, .dynstr and .hash.
abbrev header : ℕ → Shdr
header i =
    if i == 0
    then section 0 3 10 0
    else if i == 1
    then section 0 11 100 24
    else if i == 2
    then section 20 3 500 0
    else section 0 5 300 4

-- One bucket, whose chain is symbol 1.
abbrev word : ℕ → ℕ → Option ℕ
word table n = if table == 300 then some (n + 1) else if table == 308 then some 1 else some 0

abbrev pub suspend_vm_name : List ℕ
suspend_vm_name = codes "_ZN3art3Dbg9SuspendVMEv"

abbrev string : ℕ → Option (List ℕ)
string p =
    if p == 30 then some (codes ".dynstr") else if p == 501 then some suspend_vm_name else some []

abbrev pub sample : ElfImage
sample = record {
  size = 1000;
  word_size = 8;
  ehdr = record {
    has_elf_magic = true;
    e_ehsize = 64;
    e_shoff = 700;
    e_shnum = 4;
    e_shentsize = 64;
    e_shstrndx = 0;
  };
  shdr_at = λ t i. some (header i);
  sym_at = λ t n. some (record { st_name = 1; st_info = 18; st_value = 64 });
  word_at = word;
  addr_at = λ t n. none;
  str_at = string;
}

abbrev pub sample_reader : ElfReader
sample_reader = record {
  elf_wrapper = some sample;
  shdr_table = some 700;
  dynsym = some 100;
  dynstr = some 500;
  symtab = none;
  symtab_ent_count = 0;
  strtab = none;
  gnu_debugdata = none;
  gnu_debugdata_size = 0;
  elf_hash_table = some (record { nbucket = 1; nchain = 2; bucket = 308; chain = 312 });
  gnu_hash_table = none;
}

pub sample_initialises : init (new_elf_reader sample true) ≡ ok (true, sample_reader)
unfolding init init_image init_sections init_names read_sections read_section read_strtab
    section_name build_hash checked_offset is_valid_range new_elf_reader strcmp_eq
sample_initialises = refl

-- A file that was cut off: its .symtab ends behind it.
abbrev pub cut_header : Shdr
cut_header = section 0 2 980 24

abbrev pub truncated : ElfImage
truncated = record sample {
  ehdr = record {
    has_elf_magic = true;
    e_ehsize = 64;
    e_shoff = 700;
    e_shnum = 2;
    e_shentsize = 64;
    e_shstrndx = 0;
  };
  shdr_at = λ t i. some (if i == 0 then section 0 3 10 0 else cut_header);
}

abbrev pub truncated_reader : ElfReader
truncated_reader = record sample_reader {
  elf_wrapper = some truncated;
  dynsym = none;
  dynstr = none;
  symtab_ent_count = 2;
  elf_hash_table = none;
}

pub truncated_initialises : init (new_elf_reader truncated true) ≡ ok (true, truncated_reader)
unfolding init init_image init_sections init_names read_sections read_section read_strtab
    section_name read_symtab checked_offset is_valid_range new_elf_reader strcmp_eq
truncated_initialises = refl

pub truncated-IsOutside : IsOutside truncated cut_header
unfolding is_valid_range
truncated-IsOutside = record {
  has_size = λ e. ground arith;
  is_symtab = refl;
  ends_behind = refl;
  has_entries = λ e. ground arith;
}
