-- ===== src/Elf/Lookup/Runs.antt =====
-- Runs of the lookups of elf_reader.cpp on a small file, and the theorems at it.
use xapm.Base.{
  ℕ, ◌-◌, ◌^◌, ◌≡◌, refl, true, false, Option, none, some, List, [], ◌∷◌, ok, fault, bad_read,
  strcmp_eq, arith, ◌==◌, if◌then◌else◌,
}
use xapm.Elf.Hash.{elf_hash, elf_hash_loop, elf_hash_round, gnu_hash, gnu_hash_loop}
use xapm.Elf.Image.{Sym, ElfImage}
use xapm.Elf.Reader.{ElfHash, GnuHash, ElfReader}
use xapm.Elf.Lookup.{
  has_name, named_value, elf_chain, lookup_by_elf_hash, bloom_test, lookup_by_gnu_hash,
  lookup_dynsym, after_dynsym, lookup_symbol, at_base,
}
use xapm.Elf.Reader.Sample.{
  cut_header, truncated, truncated_reader, truncated_initialises, truncated-IsOutside,
}
use xapm.Elf.Lookup.Unread.{lookup_symbol-null_symtab}
use xapm.Elf.Lookup.Answer.{Answer, lookup_symbol-Answer}
use xapm.Elf.Lookup.Chains.{
  NamedValue, value_of, IsElfChain, elf_end, elf_link, IsGnuChain, gnu_last, gnu_link,
  lookup_by_elf_hash-value_of, lookup_by_gnu_hash-value_of,
}

-- "a" and "b".
abbrev a_name : List ℕ
a_name = b'a' ∷ []

abbrev b_name : List ℕ
b_name = b'b' ∷ []

abbrev func : ℕ → ℕ → Sym
func name value = record { st_name = name; st_info = 18; st_value = value }

-- Words by the table they stand in: 100 the buckets, 200 the chain, 300 the GNU chain.
abbrev words : ℕ → ℕ → Option ℕ
words t n =
    if t == 100
    then some 1
    else if t == 200
    then some (if n == 1 then 2 else 0)
    else some (if n == 1 then 177670 else 177671)

abbrev symbols : ℕ → Option Sym
symbols n = if n == 1 then some (func 0 64) else if n == 2 then some (func 2 80) else none

abbrev strings : ℕ → Option (List ℕ)
strings p = if p == 400 then some a_name else if p == 402 then some b_name else none

-- A file with the symbols "a" and "b".
abbrev tiny : ElfImage
tiny = record {
  size = 1000;
  word_size = 8;
  ehdr = record {
    has_elf_magic = true;
    e_ehsize = 64;
    e_shoff = 0;
    e_shnum = 0;
    e_shentsize = 64;
    e_shstrndx = 0;
  };
  shdr_at = λ t n. none;
  sym_at = λ t n. symbols n;
  word_at = words;
  addr_at = λ t n. some (2 ^ 64 - 1);
  str_at = strings;
}

abbrev elf_table : ElfHash
elf_table = record { nbucket = 1; nchain = 3; bucket = 100; chain = 200 }

abbrev gnu_table : GnuHash
gnu_table = record {
  gnu_nbucket = 1;
  gnu_maskwords = 0;
  gnu_shift2 = 6;
  gnu_bloom_filter = 0;
  gnu_bucket = 100;
  gnu_chain = 300;
}

abbrev both : List NamedValue
both = record { name = a_name; value = 64 } ∷ record { name = b_name; value = 80 } ∷ []

both-IsElfChain : IsElfChain tiny 0 400 elf_table 1 both
both-IsElfChain =
    elf_link 1 2 (record { name = a_name; value = 64 }) _ (omega arith)
      (func 0 64, refl, refl, refl) refl
      (elf_link 2 0 (record { name = b_name; value = 80 }) _ (omega arith)
        (func 2 80, refl, refl, refl) refl elf_end)

lookup_by_elf_hash-value_of_example :
    lookup_by_elf_hash tiny 3 (some elf_table) (some 0) (some 400) b_name
    ≡ ok (value_of both b_name)
lookup_by_elf_hash-value_of_example =
    lookup_by_elf_hash-value_of tiny 0 400 3 elf_table b_name 1 both (omega arith) refl
      both-IsElfChain (omega arith)

both-IsGnuChain : IsGnuChain tiny 0 400 gnu_table 1 both
unfolding gnu_hash gnu_hash_loop
both-IsGnuChain =
    gnu_link 1 177670 (record { name = a_name; value = 64 }) _ (func 0 64, refl, refl, refl) refl
      refl refl
      (gnu_last 2 177671 (record { name = b_name; value = 80 }) (func 2 80, refl, refl, refl) refl
        refl refl)

passes_filter : bloom_test tiny gnu_table (gnu_hash b_name) ≡ ok true
unfolding bloom_test gnu_hash gnu_hash_loop
passes_filter = refl

lookup_by_gnu_hash-value_of_example :
    lookup_by_gnu_hash tiny 2 (some gnu_table) (some 0) (some 400) b_name
    ≡ ok (value_of both b_name)
lookup_by_gnu_hash-value_of_example =
    lookup_by_gnu_hash-value_of tiny 0 400 2 gnu_table b_name 1 both true passes_filter
      (λ e. absurd (ground arith)) (omega arith) refl both-IsGnuChain (omega arith)

-- A reader that has the symbols in its ELF hash table alone.
abbrev reader : ElfReader
reader = record {
  elf_wrapper = some tiny;
  shdr_table = some 0;
  dynsym = some 0;
  dynstr = some 400;
  symtab = none;
  symtab_ent_count = 0;
  strtab = none;
  gnu_debugdata = none;
  gnu_debugdata_size = 0;
  elf_hash_table = some elf_table;
  gnu_hash_table = none;
}

finds_b : lookup_symbol tiny 3 reader (some b_name) 4096 false ≡ ok (some 4176)
unfolding lookup_symbol lookup_dynsym lookup_by_elf_hash elf_chain named_value has_name after_dynsym
    at_base strcmp_eq elf_hash elf_hash_loop elf_hash_round
finds_b = refl

lookup_symbol-Answer_example : Answer tiny 3 reader b_name 4096 false (some 4176)
lookup_symbol-Answer_example =
    lookup_symbol-Answer tiny 3 reader b_name 4096 false (some 4176) finds_b

misses_b : lookup_dynsym truncated 3 truncated_reader b_name ≡ ok 0
unfolding lookup_dynsym lookup_by_elf_hash
misses_b = refl

lookup_symbol-null_symtab_example :
    lookup_symbol truncated 3 truncated_reader (some b_name) 4096 false ≡ fault bad_read
lookup_symbol-null_symtab_example =
    lookup_symbol-null_symtab truncated 1 3 4096 cut_header truncated_reader b_name (omega arith)
      refl truncated-IsOutside (λ j g a b e. absurd (omega arith)) truncated_initialises misses_b
