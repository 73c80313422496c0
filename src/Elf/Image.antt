-- ===== src/Elf/Image.antt =====
-- An ELF file mapped into memory, as hprof/hprofdumper/src/main/cpp/elf_reader.cpp reads it through
-- the structs of <link.h>: that header's layout and the file's bytes are the parameter here.
use xapm.Base.{arith, ◌≡◌, ℕ, ◌*◌, ◌^◌, List, Bool, Option, none, some, Result, ok, fault, bad_read}

-- The fields of ElfW(Ehdr), ElfW(Shdr) and ElfW(Sym) that the reader uses.
pub record Ehdr : Type 0 where
  pub has_elf_magic : Bool
  pub e_ehsize : ℕ
  pub e_shoff : ℕ
  pub e_shnum : ℕ
  pub e_shentsize : ℕ
  pub e_shstrndx : ℕ

pub record Shdr : Type 0 where
  pub sh_name : ℕ
  pub sh_type : ℕ
  pub sh_offset : ℕ
  pub sh_size : ℕ
  pub sh_entsize : ℕ

pub record Sym : Type 0 where
  pub st_name : ℕ
  pub st_info : ℕ
  pub st_value : ℕ

-- A pointer is an offset from the start of the file. A read outside the mapped memory is `none`.
-- `word_size` is sizeof(ElfW(Addr)): 4 or 8.
pub record ElfImage : Type 0 where
  pub size : ℕ
  pub word_size : ℕ
  pub ehdr : Ehdr
  -- shdr_table[index], dynsym[n], a 32-bit word and an address-sized word behind a pointer.
  pub shdr_at : ℕ → ℕ → Option Shdr
  pub sym_at : ℕ → ℕ → Option Sym
  pub word_at : ℕ → ℕ → Option ℕ
  pub addr_at : ℕ → ℕ → Option ℕ
  -- The text up to the next 0.
  pub str_at : ℕ → Option (List ℕ)

abbrev pub readable {ℓ} : {A : Type ℓ} → Option A → Result A
readable none = fault bad_read
readable (some a) = ok a

-- `size_t`, `off_t` and addresses wrap here.
abbrev pub addr_mod : ElfImage → ℕ
addr_mod image = 2 ^ (image.word_size * 8)

pub readable-eq-ok {ℓ} : {A : Type ℓ} (o : Option A) {a : A} → readable o ≡ ok a → o ≡ some a
readable-eq-ok none h = cc
readable-eq-ok (some a) h = ground arith
