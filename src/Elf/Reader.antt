-- ===== src/Elf/Reader.antt =====
-- `ElfReader` of hprof/hprofdumper/src/main/cpp/elf_reader.cpp: its members and `Init`.
pub mod Sections
pub mod Kept
pub mod Outside
pub mod Sample
mod Runs
use xapm.Base.{
  ℕ, zero, suc, ◌+◌, ◌-◌, ◌*◌, ◌/◌, ◌%◌, Bool, true, false, not, ◌||◌, List, [], ◌∷◌, Option, none,
  some, Result, ok, fault, division_by_zero, ◌>>=◌, leb, ◌==◌, if◌then◌else◌, u32_mod, strcmp_eq,
}
use xapm.Elf.Image.{Shdr, ElfImage, readable, addr_mod}

-- Pointers are offsets into the file, `none` for nullptr. `elf_wrapper` is `none` where the
-- constructor was given a wrapper that is not valid.
pub record ElfHash : Type 0 where
  pub nbucket : ℕ
  pub nchain : ℕ
  pub bucket : ℕ
  pub chain : ℕ

pub record GnuHash : Type 0 where
  pub gnu_nbucket : ℕ
  pub gnu_maskwords : ℕ
  pub gnu_shift2 : ℕ
  pub gnu_bloom_filter : ℕ
  pub gnu_bucket : ℕ
  pub gnu_chain : ℕ

-- A hash table that is `none` is one whose `has_…` flag is false.
pub record ElfReader : Type 0 where
  pub elf_wrapper : Option ElfImage
  pub shdr_table : Option ℕ
  pub dynsym : Option ℕ
  pub dynstr : Option ℕ
  pub symtab : Option ℕ
  pub symtab_ent_count : ℕ
  pub strtab : Option ℕ
  pub gnu_debugdata : Option ℕ
  pub gnu_debugdata_size : ℕ
  pub elf_hash_table : Option ElfHash
  pub gnu_hash_table : Option GnuHash

-- The constructor; `valid` is what `elf_wrapper->IsValid()` answers.
pub new_elf_reader : ElfImage → Bool → ElfReader
new_elf_reader image valid = record {
  elf_wrapper = if valid then some image else none;
  shdr_table = none;
  dynsym = none;
  dynstr = none;
  symtab = none;
  symtab_ent_count = 0;
  strtab = none;
  gnu_debugdata = none;
  gnu_debugdata_size = 0;
  elf_hash_table = none;
  gnu_hash_table = none;
}

-- `offset <= Size()`: the `off_t` becomes unsigned, so that a negative one is a large number.
pub is_valid_range : ElfImage → ℕ → Bool
is_valid_range image offset = leb (offset % addr_mod image) image.size

pub checked_offset : ElfImage → ℕ → ℕ → Option ℕ
unfolding is_valid_range
checked_offset image offset size =
    if is_valid_range image (offset + size) then some offset else none

-- `BuildHash` on a section's first words.
pub build_hash : ElfImage → Option ℕ → ElfReader → Result ElfReader
build_hash image none r = ok r
build_hash image (some section) r = do
  nbucket ← readable (image.word_at section 0)
  nchain ← readable (image.word_at section 1)
  ok (record r {
    elf_hash_table = some (record {
      nbucket = nbucket;
      nchain = nchain;
      bucket = section + 4 * 2;
      chain = section + 4 * 2 + 4 * nbucket;
    });
  })

-- `BuildGnuHash`. `gnu_chain` is moved back by the first symbol's index, so that it is indexed by
-- symbol; `gnu_maskwords--` turns the number of words into a mask.
pub build_gnu_hash : ElfImage → Option ℕ → ElfReader → Result ElfReader
build_gnu_hash image none r = ok r
build_gnu_hash image (some section) r = do
  nbucket ← readable (image.word_at section 0)
  symndx ← readable (image.word_at section 1)
  maskwords ← readable (image.word_at section 2)
  shift2 ← readable (image.word_at section 3)
  let bloom = section + 4 * 4
  let bucket = bloom + image.word_size * maskwords
  ok (record r {
    gnu_hash_table = some (record {
      gnu_nbucket = nbucket;
      gnu_maskwords = (maskwords + u32_mod - 1) % u32_mod;
      gnu_shift2 = shift2;
      gnu_bloom_filter = bloom;
      gnu_bucket = bucket;
      gnu_chain = (bucket + 4 * nbucket + addr_mod image - 4 * symndx) % addr_mod image;
    });
  })

abbrev pub sht_progbits : ℕ
sht_progbits = 1

abbrev pub sht_symtab : ℕ
sht_symtab = 2

abbrev pub sht_strtab : ℕ
sht_strtab = 3

abbrev pub sht_hash : ℕ
sht_hash = 5

abbrev pub sht_dynsym : ℕ
sht_dynsym = 11

-- ".dynstr", ".strtab", ".gnu.hash" and ".gnu_debugdata".
abbrev pub dynstr_name : List ℕ
dynstr_name = b'.' ∷ b'd' ∷ b'y' ∷ b'n' ∷ b's' ∷ b't' ∷ b'r' ∷ []

abbrev pub strtab_name : List ℕ
strtab_name = b'.' ∷ b's' ∷ b't' ∷ b'r' ∷ b't' ∷ b'a' ∷ b'b' ∷ []

abbrev pub gnu_hash_name : List ℕ
gnu_hash_name = b'.' ∷ b'g' ∷ b'n' ∷ b'u' ∷ b'.' ∷ b'h' ∷ b'a' ∷ b's' ∷ b'h' ∷ []

abbrev pub gnu_debugdata_name : List ℕ
gnu_debugdata_name =
    b'.' ∷ b'g' ∷ b'n' ∷ b'u' ∷ b'_' ∷ b'd' ∷ b'e' ∷ b'b' ∷ b'u' ∷ b'g' ∷ b'd' ∷ b'a' ∷ b't' ∷ b'a'
    ∷ []

module _ (image : ElfImage) (shstr : ℕ) where
  -- `shstr + shdr_table_[index].sh_name`, a section's name.
  pub section_name : Shdr → Result (List ℕ)
  section_name h = readable (image.str_at (shstr + h.sh_name))

  pub read_strtab : Shdr → ElfReader → Result ElfReader
  unfolding section_name
  read_strtab h r = do
    let tmp_str = checked_offset image h.sh_offset h.sh_size
    name ← section_name h
    ok (
        if strcmp_eq name dynstr_name
        then record r { dynstr = tmp_str }
        else if strcmp_eq name strtab_name
        then record r { strtab = tmp_str }
        else r)

  -- `ElfW(Word)` keeps 32 bits of the quotient.
  pub read_symtab : Shdr → ElfReader → Result ElfReader
  read_symtab h r =
      if h.sh_entsize == 0
      then fault division_by_zero
      else ok (record r {
        symtab = checked_offset image h.sh_offset h.sh_size;
        symtab_ent_count = h.sh_size / h.sh_entsize % u32_mod;
      })

  pub read_progbits : Shdr → ElfReader → Result ElfReader
  unfolding section_name
  read_progbits h r = do
    name ← section_name h
    ok (
        if strcmp_eq name gnu_debugdata_name
        then record r {
          gnu_debugdata = checked_offset image h.sh_offset h.sh_size;
          gnu_debugdata_size = h.sh_size % u32_mod;
        }
        else r)

  pub read_other : Shdr → ElfReader → Result ElfReader
  unfolding section_name
  read_other h r = do
    name ← section_name h
    if strcmp_eq name gnu_hash_name
        then build_gnu_hash image (checked_offset image h.sh_offset h.sh_size) r
        else ok r

  -- `switch (sh_type)` on one section header.
  pub read_section : Shdr → ElfReader → Result ElfReader
  unfolding read_strtab read_symtab read_progbits read_other
  read_section h r =
      if h.sh_size == 0
      then ok r
      else if h.sh_type == sht_dynsym
      then ok (record r { dynsym = checked_offset image h.sh_offset h.sh_size })
      else if h.sh_type == sht_strtab
      then read_strtab h r
      else if h.sh_type == sht_symtab
      then read_symtab h r
      else if h.sh_type == sht_hash
      then build_hash image (checked_offset image h.sh_offset h.sh_size) r
      else if h.sh_type == sht_progbits
      then read_progbits h r
      else read_other h r

  -- The loop over the section headers from `index` on.
  pub read_sections : ℕ → ℕ → ℕ → ElfReader → Result ElfReader
  read_sections table zero index r = ok r
  read_sections table (suc n) index r = do
    h ← readable (image.shdr_at table index)
    r' ← read_section h r
    read_sections table n (suc index) r'

-- `Init` from the section names on, where their pointer is not null.
pub init_names : ElfImage → ℕ → ElfReader → Option ℕ → Result (Bool × ElfReader)
init_names image table r none = ok (false, r)
init_names image table r (some shstr) = do
  r' ← read_sections image shstr table image.ehdr.e_shnum 0 r
  ok (true, r')

-- `Init` from the section header table on.
pub init_sections : ElfImage → ElfReader → Option ℕ → Result (Bool × ElfReader)
unfolding init_names
init_sections image r none = ok (false, record r { shdr_table = none })
init_sections image r (some table) = do
  names ← readable (image.shdr_at table image.ehdr.e_shstrndx)
  init_names image table (record r { shdr_table = some table })
      (checked_offset image names.sh_offset names.sh_size)

-- `IsValidElf() && IsValidRange(e_ehsize)`, then the sections. The Boolean is what `Init` returns.
pub init_image : ElfReader → Option ElfImage → Result (Bool × ElfReader)
unfolding init_sections
init_image r none = ok (false, r)
init_image r (some image) =
    let h = image.ehdr in
    if not h.has_elf_magic || not (is_valid_range image h.e_ehsize)
    then ok (false, r)
    else init_sections image r (checked_offset image h.e_shoff (h.e_shnum * h.e_shentsize))

pub init : ElfReader → Result (Bool × ElfReader)
unfolding init_image
init r = init_image r r.elf_wrapper
