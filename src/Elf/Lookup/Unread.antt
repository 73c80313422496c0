-- ===== src/Elf/Lookup/Unread.antt =====
-- `LookupSymbol` of elf_reader.cpp on a file whose .symtab does not lie in it.
use xapm.Base.{
  ℕ, zero, suc, ◌<◌, ◌/◌, ◌%◌, ◌≡◌, ◌≢◌, refl, ap, ◌∙◌, true, false, List, Option, none, some,
  Result, ok, fault, bad_read, ◌>>=◌, u32_mod,
}
use xapm.Elf.Image.{Shdr, ElfImage}
use xapm.Elf.Reader.{ElfReader, new_elf_reader, init}
use xapm.Elf.Reader.Outside.{IsOutside, IsLast, init-HasSymtab}
use xapm.Elf.Lookup.{non_null, symtab_loop, at_base, lookup_dynsym, after_dynsym, lookup_symbol}

module _ (image : ElfImage) where
  -- The loop reads its first entry, wherever the table is.
  symtab_loop-null :
      (strtab : Option ℕ) (symbol : List ℕ) (n index : ℕ)
      → n ≢ 0
      → symtab_loop image none strtab symbol n index ≡ fault bad_read
  unfolding symtab_loop non_null
  symtab_loop-null strtab symbol zero index ne = absurd (ne refl)
  symtab_loop-null strtab symbol (suc n) index ne = refl

  -- A file whose section header table has a header of a symbol table with entries that ends behind the
  -- file, and none of that type after it. Where `Init` returns true on it and the dynamic symbols
  -- do not answer for a name, `LookupSymbol` reads the symbol table through a null pointer, unless it
  -- is asked for the dynamic symbols only.
  pub lookup_symbol-null_symtab :
      (k fuel load_base : ℕ) (h : Shdr) (r : ElfReader) (symbol : List ℕ)
      → k < image.ehdr.e_shnum
      → image.shdr_at image.ehdr.e_shoff k ≡ some h
      → IsOutside image h
      → IsLast image image.ehdr.e_shoff k image.ehdr.e_shnum
      → init (new_elf_reader image true) ≡ ok (true, r)
      → lookup_dynsym image fuel r symbol ≡ ok 0
      → lookup_symbol image fuel r (some symbol) load_base false ≡ fault bad_read
  unfolding lookup_symbol after_dynsym
  lookup_symbol-null_symtab k fuel load_base h r symbol below there outside last initialised
        missed =
      let (is_null, has_count) = init-HasSymtab image k h r below there outside last initialised in
      ap (λ (v : Result ℕ). v >>= after_dynsym image r symbol load_base false) missed
      ∙ ap
          (λ (f : Result (Option ℕ)).
            f >>= λ (found : Option ℕ). ok (at_base image load_base found))
          (ap (λ (t : Option ℕ). symtab_loop image t r.strtab symbol r.symtab_ent_count 0) is_null
            ∙ symtab_loop-null r.strtab symbol r.symtab_ent_count 0
                (λ z. outside.has_entries (has_count_zero has_count z)))
    where
      has_count_zero :
          r.symtab_ent_count ≡ h.sh_size / h.sh_entsize % u32_mod
          → r.symtab_ent_count ≡ 0
          → h.sh_size / h.sh_entsize % u32_mod ≡ 0
      has_count_zero e z = cc
