-- ===== src/Elf/Reader/Outside.antt =====
-- A file whose .symtab does not lie in it: `Init` of elf_reader.cpp keeps the number of its entries
-- without its address.
use mathlib.Core.Path.{subst}
use mathlib.Core.Option.{some-injective}
use xapm.Base.{
  ℕ, zero, suc, ◌+◌, ◌*◌, ◌/◌, ◌%◌, ◌≤◌, ◌<◌, ◌≡◌, ◌≢◌, refl, sym, ap, ◌∙◌, inl, inr, true, false,
  not, ◌||◌, Option, none, some, ok, >>=-eq-ok, ok-injective, ◌==◌, arith, strcmp_eq, Bool-cases,
  if_true, if_false, u32_mod,
}
use xapm.Elf.Image.{Shdr, ElfImage, readable, readable-eq-ok}
use xapm.Elf.Reader.{
  ElfReader, new_elf_reader, init_names, init_sections, init_image, init, is_valid_range,
  checked_offset, build_hash, build_gnu_hash, section_name, read_strtab, read_symtab, read_progbits,
  read_other, read_section, read_sections, sht_dynsym, sht_strtab, sht_symtab, sht_hash,
  sht_progbits, dynstr_name, strtab_name, gnu_debugdata_name, gnu_hash_name,
}
use xapm.Elf.Reader.Sections.{either_branch}
use xapm.Elf.Reader.Kept.{pair-fst, pair-snd, checked_offset-same}

-- The symbol table's members have these values.
abbrev pub HasSymtab : Option ℕ → ℕ → ElfReader → Type 0
HasSymtab symtab count r = (r.symtab ≡ symtab) × (r.symtab_ent_count ≡ count)

-- A section header of a symbol table that ends behind the file, and has entries.
pub record IsOutside (image : ElfImage) (h : Shdr) : Type 0 where
  pub has_size : h.sh_size ≢ 0
  pub is_symtab : h.sh_type ≡ sht_symtab
  pub ends_behind : is_valid_range image (h.sh_offset + h.sh_size) ≡ false
  pub has_entries : h.sh_size / h.sh_entsize % u32_mod ≢ 0

module _ (image : ElfImage) (symtab : Option ℕ) (count : ℕ) where
  HasSymtab-ok :
      (r r' : ElfReader) → ok r ≡ ok r' → HasSymtab symtab count r → HasSymtab symtab count r'
  HasSymtab-ok r r' e s = subst (HasSymtab symtab count) (ok-injective r r' e) s

  build_hash-HasSymtab :
      (section : Option ℕ) (r r' : ElfReader)
      → build_hash image section r ≡ ok r'
      → HasSymtab symtab count r
      → HasSymtab symtab count r'
  unfolding build_hash
  build_hash-HasSymtab none r r' e s = HasSymtab-ok r r' e s
  build_hash-HasSymtab (some section) r r' e s =
      let (nbucket, p, e1) = >>=-eq-ok (readable (image.word_at section 0)) _ e in
      let (nchain, q, e2) = >>=-eq-ok (readable (image.word_at section 1)) _ e1 in
      HasSymtab-ok _ r' e2 s

  build_gnu_hash-HasSymtab :
      (section : Option ℕ) (r r' : ElfReader)
      → build_gnu_hash image section r ≡ ok r'
      → HasSymtab symtab count r
      → HasSymtab symtab count r'
  unfolding build_gnu_hash
  build_gnu_hash-HasSymtab none r r' e s = HasSymtab-ok r r' e s
  build_gnu_hash-HasSymtab (some section) r r' e s =
      let (nbucket, p0, e0) = >>=-eq-ok (readable (image.word_at section 0)) _ e in
      let (symndx, p1, e1) = >>=-eq-ok (readable (image.word_at section 1)) _ e0 in
      let (maskwords, p2, e2) = >>=-eq-ok (readable (image.word_at section 2)) _ e1 in
      let (shift2, p3, e3) = >>=-eq-ok (readable (image.word_at section 3)) _ e2 in
      HasSymtab-ok _ r' e3 s

  module _ (shstr : ℕ) (h : Shdr) (r r' : ElfReader) (s : HasSymtab symtab count r) where
    read_strtab-HasSymtab : read_strtab image shstr h r ≡ ok r' → HasSymtab symtab count r'
    unfolding read_strtab
    read_strtab-HasSymtab e =
        let (name, p, q) = >>=-eq-ok (section_name image shstr h) _ e in
        elim (either_branch (strcmp_eq name dynstr_name) _ _ (ok-injective _ r' q)) [
          | inl a ↦ subst (HasSymtab symtab count) a s
          | inr a ↦ elim (either_branch (strcmp_eq name strtab_name) _ _ a) [
            | inl b ↦ subst (HasSymtab symtab count) b s
            | inr b ↦ subst (HasSymtab symtab count) b s
          ]
        ]

    read_progbits-HasSymtab : read_progbits image shstr h r ≡ ok r' → HasSymtab symtab count r'
    unfolding read_progbits
    read_progbits-HasSymtab e =
        let (name, p, q) = >>=-eq-ok (section_name image shstr h) _ e in
        elim (either_branch (strcmp_eq name gnu_debugdata_name) _ _ (ok-injective _ r' q)) [
          | inl a ↦ subst (HasSymtab symtab count) a s
          | inr a ↦ subst (HasSymtab symtab count) a s
        ]

    read_other-HasSymtab : read_other image shstr h r ≡ ok r' → HasSymtab symtab count r'
    unfolding read_other
    read_other-HasSymtab e =
        let (name, p, q) = >>=-eq-ok (section_name image shstr h) _ e in
        elim (either_branch (strcmp_eq name gnu_hash_name) _ _ q) [
          | inl a ↦ build_gnu_hash-HasSymtab _ r r' a s
          | inr a ↦ HasSymtab-ok r r' a s
        ]

    -- A section of another type leaves the symbol table as it was.
    read_section-HasSymtab :
        h.sh_type ≢ sht_symtab → read_section image shstr h r ≡ ok r' → HasSymtab symtab count r'
    unfolding read_section
    read_section-HasSymtab ne e = elim (either_branch (h.sh_size == 0) _ _ e) [
      | inl a ↦ HasSymtab-ok r r' a s
      | inr a ↦ elim (either_branch (h.sh_type == sht_dynsym) _ _ a) [
        | inl b ↦ HasSymtab-ok _ r' b s
        | inr b ↦ elim (either_branch (h.sh_type == sht_strtab) _ _ b) [
          | inl c ↦ read_strtab-HasSymtab c
          | inr c ↦
              let d = sym (if_false _ _ {b = h.sh_type == sht_symtab} (ground arith)) ∙ c in
              elim (either_branch (h.sh_type == sht_hash) _ _ d) [
                | inl x ↦ build_hash-HasSymtab _ r r' x s
                | inr x ↦ elim (either_branch (h.sh_type == sht_progbits) _ _ x) [
                  | inl y ↦ read_progbits-HasSymtab y
                  | inr y ↦ read_other-HasSymtab y
                ]
              ]
        ]
      ]
    ]

  -- So do sections of other types, one after the other.
  read_sections-HasSymtab :
      (shstr table n index : ℕ) (r r' : ElfReader)
      → ((j : ℕ) (g : Shdr)
          → index ≤ j
          → j < index + n
          → image.shdr_at table j ≡ some g
          → g.sh_type ≢ sht_symtab)
      → HasSymtab symtab count r
      → read_sections image shstr table n index r ≡ ok r'
      → HasSymtab symtab count r'
  unfolding read_sections
  read_sections-HasSymtab shstr table zero index r r' others s e = HasSymtab-ok r r' e s
  read_sections-HasSymtab shstr table (suc n) index r r' others s e =
      let (h, p, e1) = >>=-eq-ok (readable (image.shdr_at table index)) _ e in
      let (t, q, e2) = >>=-eq-ok (read_section image shstr h r) _ e1 in
      read_sections-HasSymtab shstr table n (suc index) t r'
        (λ j g a b k. others j g (omega arith) (omega arith) k)
        (read_section-HasSymtab shstr h r t s
          (others index h (omega arith) (omega arith) (readable-eq-ok _ p)) q)
        e2

module _ (image : ElfImage) where
  -- The header itself.
  read_section-IsOutside :
      (shstr : ℕ) (h : Shdr) (r r' : ElfReader)
      → IsOutside image h
      → read_section image shstr h r ≡ ok r'
      → HasSymtab none (h.sh_size / h.sh_entsize % u32_mod) r'
  unfolding read_section read_symtab checked_offset
  read_section-IsOutside shstr h r r' o e =
      let d =
        sym (
          if_false _ _ {b = h.sh_size == 0} (ground (arith, o.has_size))
          ∙ (if_false _ _ {b = h.sh_type == sht_dynsym} (ground (arith, o.is_symtab))
              ∙ (if_false _ _ {b = h.sh_type == sht_strtab} (ground (arith, o.is_symtab))
                  ∙ if_true _ _ {b = h.sh_type == sht_symtab} (ground (arith, o.is_symtab)))))
        ∙ e in
      elim (either_branch (h.sh_entsize == 0) _ _ d) [
        | inl a ↦ absurd (ground arith)
        | inr a ↦
            subst (HasSymtab none (h.sh_size / h.sh_entsize % u32_mod)) (ok-injective _ r' a)
              (if_false _ _ (o.ends_behind), refl)
      ]

  -- No header of a symbol table comes behind the `k`-th, below `n`.
  abbrev pub IsLast : ℕ → ℕ → ℕ → Type 0
  IsLast table k n =
      (j : ℕ) (g : Shdr) → k < j → j < n → image.shdr_at table j ≡ some g → g.sh_type ≢ sht_symtab

  module _ (table k : ℕ) (h : Shdr) (there : image.shdr_at table k ≡ some h)
      (outside : IsOutside image h) where
    read_sections-IsOutside :
        (shstr n index : ℕ) (r r' : ElfReader)
        → index ≤ k
        → k < index + n
        → IsLast table k (index + n)
        → read_sections image shstr table n index r ≡ ok r'
        → HasSymtab none (h.sh_size / h.sh_entsize % u32_mod) r'
    unfolding read_sections
    read_sections-IsOutside shstr zero index r r' a b last e = absurd (omega arith)
    read_sections-IsOutside shstr (suc n) index r r' a b last e =
        let (g, p, e1) = >>=-eq-ok (readable (image.shdr_at table index)) _ e in
        let (t, q, e2) = >>=-eq-ok (read_section image shstr g r) _ e1 in
        elim (Bool-cases (index == k)) [
          | inl same ↦
              let same_h : g ≡ h =
                some-injective g h
                  (sym (readable-eq-ok _ p) ∙ (ap (image.shdr_at table) (ground arith) ∙ there)) in
              read_sections-HasSymtab image none (h.sh_size / h.sh_entsize % u32_mod) shstr table n
                (suc index) t r' (λ j f c d l. last j f (ground arith) (omega arith) l)
                (read_section-IsOutside shstr h r t outside
                  (ap (λ (f : Shdr). read_section image shstr f r) (sym same_h) ∙ q))
                e2
          | inr other ↦
              read_sections-IsOutside shstr n (suc index) t r' (ground arith) (omega arith)
                (λ j f c d l. last j f c (omega arith) l) e2
        ]

  -- Where `Init` on a new reader returns true, it has gone through the section headers.
  init-read_sections :
      (r' : ElfReader)
      → init (new_elf_reader image true) ≡ ok (true, r')
      → (shstr : ℕ) × (r : ElfReader) × (read_sections image shstr image.ehdr.e_shoff
            image.ehdr.e_shnum 0 r
          ≡ ok r')
  unfolding init init_image new_elf_reader init_sections init_names
  init-read_sections r' e =
      elim (either_branch
        (not image.ehdr.has_elf_magic || not (is_valid_range image image.ehdr.e_ehsize)) _ _ e) [
          | inl k ↦ absurd (ground (arith, pair-fst false true _ r' (ok-injective _ _ k)))
          | inr k ↦
              by_table
                (checked_offset image image.ehdr.e_shoff
                  (image.ehdr.e_shnum * image.ehdr.e_shentsize))
                refl k
        ]
    where
      Went : Type 0
      Went =
          (shstr : ℕ) × (r : ElfReader) × (read_sections image shstr image.ehdr.e_shoff
              image.ehdr.e_shnum 0 r
            ≡ ok r')

      by_names :
          (r : ElfReader) (shstr : Option ℕ)
          → init_names image image.ehdr.e_shoff r shstr ≡ ok (true, r')
          → Went
      by_names r none h = absurd (ground (arith, pair-fst false true r r' (ok-injective _ _ h)))
      by_names r (some shstr) h =
          let (t, p, q) =
            >>=-eq-ok (read_sections image shstr image.ehdr.e_shoff image.ehdr.e_shnum 0 r) _ h in
          (shstr, r, p ∙ ap ok (pair-snd true true t r' (ok-injective _ _ q)))

      by_table :
          (o : Option ℕ)
          → checked_offset image image.ehdr.e_shoff (image.ehdr.e_shnum * image.ehdr.e_shentsize)
            ≡ o
          → init_sections image (new_elf_reader image true) o ≡ ok (true, r')
          → Went
      by_table none f h = absurd (ground (arith, pair-fst false true _ r' (ok-injective _ _ h)))
      by_table (some t) f h =
          let (names, p, q) = >>=-eq-ok (readable (image.shdr_at t image.ehdr.e_shstrndx)) _ h in
          let same = checked_offset-same image r' image.ehdr.e_shoff _ t f in
          let start = record (new_elf_reader image true) { shdr_table = some t } in
          by_names start (checked_offset image names.sh_offset names.sh_size) (
            ap
              (λ (u : ℕ).
                init_names image u start (checked_offset image names.sh_offset names.sh_size))
              (sym same)
            ∙ q)

  -- A file whose last symbol table section ends behind it, and has entries: the reader has their number
  -- and no table.
  pub init-HasSymtab :
      (k : ℕ) (h : Shdr) (r' : ElfReader)
      → k < image.ehdr.e_shnum
      → image.shdr_at image.ehdr.e_shoff k ≡ some h
      → IsOutside image h
      → IsLast image.ehdr.e_shoff k image.ehdr.e_shnum
      → init (new_elf_reader image true) ≡ ok (true, r')
      → HasSymtab none (h.sh_size / h.sh_entsize % u32_mod) r'
  init-HasSymtab k h r' below there outside last e =
      let (shstr, r, p) = init-read_sections r' e in
      read_sections-IsOutside image.ehdr.e_shoff k h there outside shstr image.ehdr.e_shnum 0 r r'
        (omega arith) (omega arith) (λ j g a b f. last j g a (omega arith) f) p
