-- ===== src/Elf/Reader/Kept.antt =====
-- What `Init` of elf_reader.cpp keeps are sections that lie in the file.
use mathlib.Core.Option.{some-injective}
use mathlib.Core.Path.{subst}
use xapm.Base.{
  ℕ, ◌+◌, ◌*◌, ◌≡◌, refl, sym, ap, inl, inr, Bool, true, false, not, ◌||◌, Option, none, some, ok,
  >>=-eq-ok, ok-injective, arith,
}
use xapm.Elf.Image.{ElfImage, readable}
use xapm.Elf.Reader.{
  ElfReader, new_elf_reader, is_valid_range, checked_offset, read_sections, init_names,
  init_sections, init_image, init,
}
use xapm.Elf.Reader.Sections.{
  either_branch, IsUnwrapped, HasSections, read_sections-HasSections, none-IsSection,
}

pub pair-fst :
    (b b' : Bool) (r r' : ElfReader) → ◌≡◌ {A = Bool × ElfReader} (b, r) (b', r') → b ≡ b'
pair-fst b b' r r' e = ap (λ (p : Bool × ElfReader). p.0) e

pub pair-snd :
    (b b' : Bool) (r r' : ElfReader) → ◌≡◌ {A = Bool × ElfReader} (b, r) (b', r') → r ≡ r'
pair-snd b b' r r' e = ap (λ (p : Bool × ElfReader). p.1) e

module _ (image : ElfImage) (r' : ElfReader) where
  init_names-HasSections :
      (table : ℕ) (r : ElfReader) (shstr : Option ℕ)
      → IsUnwrapped image table
      → HasSections image table r
      → init_names image table r shstr ≡ ok (true, r')
      → HasSections image table r'
  unfolding init_names
  init_names-HasSections table r none w s e =
      absurd (ground (arith, pair-fst false true r r' (ok-injective _ _ e)))
  init_names-HasSections table r (some shstr) w s e =
      let (t, p, q) = >>=-eq-ok (read_sections image shstr table image.ehdr.e_shnum 0 r) _ e in
      subst (HasSections image table) (pair-snd true true t r' (ok-injective _ _ q))
        (read_sections-HasSections image table shstr image.ehdr.e_shnum 0 r t (omega arith) w s p)

  new_elf_reader-HasSections :
      (table : ℕ) (t : Option ℕ)
      → HasSections image table (record (new_elf_reader image true) { shdr_table = t })
  unfolding new_elf_reader
  new_elf_reader-HasSections table t = record {
    in_dynsym = none-IsSection image table;
    in_dynstr = none-IsSection image table;
    in_symtab = none-IsSection image table;
    in_strtab = none-IsSection image table;
    in_debugdata = none-IsSection image table;
  }

  init_sections-HasSections :
      (table : ℕ) (o : Option ℕ)
      → IsUnwrapped image table
      → ((t : ℕ) → o ≡ some t → t ≡ table)
      → init_sections image (new_elf_reader image true) o ≡ ok (true, r')
      → HasSections image table r'
  unfolding init_sections
  init_sections-HasSections table none w same e =
      absurd (ground (arith, pair-fst false true _ r' (ok-injective _ _ e)))
  init_sections-HasSections table (some t) w same e =
      let (names, p, q) = >>=-eq-ok (readable (image.shdr_at t image.ehdr.e_shstrndx)) _ e in
      subst (λ k. HasSections image k r') (same t refl)
        (init_names-HasSections t _ (checked_offset image names.sh_offset names.sh_size)
          (subst (IsUnwrapped image) (sym (same t refl)) w) (new_elf_reader-HasSections t (some t))
          q)

  pub checked_offset-same :
      (offset size t : ℕ) → checked_offset image offset size ≡ some t → t ≡ offset
  unfolding checked_offset
  checked_offset-same offset size t e =
      elim (either_branch (is_valid_range image (offset + size)) (some offset) none e) [
        | inl k ↦ sym (some-injective offset t k)
        | inr k ↦ absurd (ground arith)
      ]

  -- Where `Init` on a new reader returns true, each of the tables and texts that it keeps for the
  -- lookups (.dynsym, .dynstr, .symtab, .strtab and .gnu_debugdata) is nullptr or a section of the
  -- file's section header table, one of its e_shnum headers, that ends within the file: if no offset and
  -- size of a header of the table wrap around the address space, which `CheckedOffset` does not test.
  pub init-HasSections :
      IsUnwrapped image image.ehdr.e_shoff
      → init (new_elf_reader image true) ≡ ok (true, r')
      → HasSections image image.ehdr.e_shoff r'
  unfolding init init_image new_elf_reader
  init-HasSections w e =
      elim (either_branch
        (not image.ehdr.has_elf_magic || not (is_valid_range image image.ehdr.e_ehsize)) _ _ e) [
          | inl k ↦ absurd (ground (arith, pair-fst false true _ r' (ok-injective _ _ k)))
          | inr k ↦
              init_sections-HasSections image.ehdr.e_shoff
                (checked_offset image image.ehdr.e_shoff
                  (image.ehdr.e_shnum * image.ehdr.e_shentsize))
                w
                (checked_offset-same image.ehdr.e_shoff
                  (image.ehdr.e_shnum * image.ehdr.e_shentsize))
                k
        ]
