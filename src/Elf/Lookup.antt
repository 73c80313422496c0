-- ===== src/Elf/Lookup.antt =====
-- `LookupSymbol` of hprof/hprofdumper/src/main/cpp/elf_reader.cpp and the three searches it makes.
pub mod Sound
pub mod Symtab
pub mod Answer
pub mod Unread
pub mod Chains
pub mod Sample
mod Runs
use Prim.Native.Nat.{bit_and, bit_xor}
use xapm.Base.{
  ℕ, zero, suc, ◌+◌, ◌*◌, ◌/◌, ◌%◌, ◌^◌, Bool, true, false, not, ◌&&◌, ◌||◌, List, Option, none,
  some, Result, ok, fault, stuck, bad_read, division_by_zero, ◌>>=◌, ◌==◌, if◌then◌else◌, u32_mod,
  u64_mod, strcmp_eq,
}
use xapm.Elf.Hash.{elf_hash, gnu_hash}
use xapm.Elf.Image.{Sym, ElfImage, readable, addr_mod}
use xapm.Elf.Reader.{ElfHash, GnuHash, ElfReader}

abbrev pub stt_object : ℕ
stt_object = 1

abbrev pub stt_func : ℕ
stt_func = 2

module _ (image : ElfImage) where
  -- `strcmp(strings + sym.st_name, symbol) == 0`.
  pub has_name : ℕ → Sym → List ℕ → Result Bool
  has_name strings sym symbol = do
    name ← readable (image.str_at (strings + sym.st_name))
    ok (strcmp_eq name symbol)

  -- The body of a chain's loop at symbol `n`: the value of the symbol, if the names are equal.
  pub named_value : ℕ → ℕ → List ℕ → ℕ → Result (Option ℕ)
  named_value dynsym dynstr symbol n = do
    sym ← readable (image.sym_at dynsym n)
    found ← has_name dynstr sym symbol
    ok (if found then some sym.st_value else none)

  -- The loop of `LookupByElfHash` along a chain, from symbol `n` on. The chain may run in a circle:
  -- the fuel bounds its rounds.
  pub elf_chain : ℕ → ElfHash → ℕ → ℕ → List ℕ → ℕ → Result ℕ
  elf_chain zero t dynsym dynstr symbol n = stuck
  elf_chain (suc fuel) t dynsym dynstr symbol n = elim (n == 0) [
    | true ↦ ok 0
    | false ↦ do
      hit ← named_value dynsym dynstr symbol n
      elim hit [
        | some v ↦ ok v
        | none ↦ do
          next ← readable (image.word_at t.chain n)
          elf_chain fuel t dynsym dynstr symbol next
      ]
  ]

  pub lookup_by_elf_hash : ℕ → Option ElfHash → Option ℕ → Option ℕ → List ℕ → Result ℕ
  lookup_by_elf_hash fuel (some t) (some dynsym) (some dynstr) symbol =
      if t.nbucket == 0 then fault division_by_zero else (do
        n ← readable (image.word_at t.bucket (elf_hash symbol % t.nbucket))
        elf_chain fuel t dynsym dynstr symbol n)
  lookup_by_elf_hash fuel _ _ _ symbol = ok 0

  -- The test of symbol `n`: the hashes without their lowest bits, then the names.
  pub gnu_hit : ℕ → ℕ → ℕ → List ℕ → ℕ → Result (Option ℕ)
  gnu_hit word dynsym dynstr symbol n =
      if bit_xor word (gnu_hash symbol) / 2 == 0
      then named_value dynsym dynstr symbol n
      else ok none

  -- The loop of `LookupByGnuHash`: a chain ends with the word whose lowest bit is set.
  pub gnu_chain_loop : ℕ → GnuHash → ℕ → ℕ → List ℕ → ℕ → Result ℕ
  gnu_chain_loop zero t dynsym dynstr symbol n = stuck
  gnu_chain_loop (suc fuel) t dynsym dynstr symbol n = do
    word ← readable (image.word_at t.gnu_chain n)
    hit ← gnu_hit word dynsym dynstr symbol n
    elim hit [
      | some v ↦ ok v
      | none ↦ elim (word % 2 == 0) [
        | true ↦ gnu_chain_loop fuel t dynsym dynstr symbol ((n + 1) % u32_mod)
        | false ↦ ok 0
      ]
    ]

  -- The Bloom filter's answer: "certainly not" is false.
  pub bloom_test : GnuHash → ℕ → Result Bool
  bloom_test t hash = do
    let bits = image.word_size * 8
    word ← readable (image.addr_at t.gnu_bloom_filter (bit_and (hash / bits) t.gnu_maskwords))
    let h1 = hash % bits
    let h2 = hash / 2 ^ t.gnu_shift2 % bits
    ok (not (bit_and 1 (bit_and (word / 2 ^ h1) (word / 2 ^ h2)) == 0))

  pub gnu_bucket_search : ℕ → GnuHash → ℕ → ℕ → List ℕ → Result ℕ
  gnu_bucket_search fuel t dynsym dynstr symbol =
      if t.gnu_nbucket == 0 then fault division_by_zero else (do
        n ← readable (image.word_at t.gnu_bucket (gnu_hash symbol % t.gnu_nbucket))
        gnu_chain_loop fuel t dynsym dynstr symbol n)

  pub lookup_by_gnu_hash : ℕ → Option GnuHash → Option ℕ → Option ℕ → List ℕ → Result ℕ
  lookup_by_gnu_hash fuel (some t) (some dynsym) (some dynstr) symbol = do
    maybe ← bloom_test t (gnu_hash symbol)
    if maybe then gnu_bucket_search fuel t dynsym dynstr symbol else ok 0
  lookup_by_gnu_hash fuel _ _ _ symbol = ok 0

  -- A pointer that is read through: nullptr has no value.
  pub non_null : Option ℕ → Result ℕ
  non_null none = fault bad_read
  non_null (some p) = ok p

  -- The loop over the symbol table, from `index` on with `n` entries left. `none` is the end.
  pub symtab_loop : Option ℕ → Option ℕ → List ℕ → ℕ → ℕ → Result (Option ℕ)
  symtab_loop symtab strtab symbol zero index = ok none
  symtab_loop symtab strtab symbol (suc n) index = do
    table ← non_null symtab
    sym ← readable (image.sym_at table index)
    found ←
        if sym.st_info % 2 ^ 4 == stt_func || sym.st_info % 2 ^ 4 == stt_object
        then (do strings ← non_null strtab; has_name strings sym symbol)
        else ok false
    elim found [
      | true ↦ ok (some sym.st_value)
      | false ↦ symtab_loop symtab strtab symbol n (suc index)
    ]

  -- `load_base + value`.
  pub at_base : ℕ → Option ℕ → Option ℕ
  at_base load_base none = none
  at_base load_base (some v) = some ((load_base + v) % addr_mod image)

  pub lookup_dynsym : ℕ → ElfReader → List ℕ → Result ℕ
  lookup_dynsym fuel r symbol = elim r.gnu_hash_table [
    | none ↦ lookup_by_elf_hash fuel r.elf_hash_table r.dynsym r.dynstr symbol
    | some t ↦ lookup_by_gnu_hash fuel (some t) r.dynsym r.dynstr symbol
  ]

  -- `LookupSymbol` with what the dynamic symbols gave.
  pub after_dynsym : ElfReader → List ℕ → ℕ → Bool → ℕ → Result (Option ℕ)
  after_dynsym r symbol load_base only_dynsym sym_vaddr =
      if not (sym_vaddr == 0)
      then ok (at_base load_base (some sym_vaddr))
      else if only_dynsym
      then ok none
      else (do
        found ← symtab_loop r.symtab r.strtab symbol r.symtab_ent_count 0
        ok (at_base load_base found))

  -- `LookupSymbol`; a `symbol` of nullptr gives nullptr at once.
  pub lookup_symbol : ℕ → ElfReader → Option (List ℕ) → ℕ → Bool → Result (Option ℕ)
  lookup_symbol fuel r none load_base only_dynsym = ok none
  lookup_symbol fuel r (some symbol) load_base only_dynsym = do
    sym_vaddr ← lookup_dynsym fuel r symbol
    after_dynsym r symbol load_base only_dynsym sym_vaddr
