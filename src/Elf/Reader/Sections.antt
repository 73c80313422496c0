-- ===== src/Elf/Reader/Sections.antt =====
-- The pointers that the section loop of elf_reader.cpp's `Init` keeps are sections in the file.
use mathlib.Core.Option.{some-injective}
use mathlib.Core.Path.{subst}
use native.Mathlib.Nat.{mod-eq_of_lt}
use xapm.Base.{
  ℕ, zero, suc, ◌+◌, ◌%◌, ◌≤◌, ◌<◌, ◌≡◌, sym, ◌∙◌, ◌⊎◌, inl, inr, Bool, true, false, Option, none,
  some, ok, >>=-eq-ok, ok-injective, leb, ◌==◌, if◌then◌else◌, arith, strcmp_eq, Bool-cases,
  if_true, if_false,
}
use xapm.Elf.Image.{Shdr, ElfImage, readable, readable-eq-ok, addr_mod}
use xapm.Elf.Reader.{
  ElfReader, is_valid_range, checked_offset, build_hash, build_gnu_hash, section_name, read_strtab,
  read_symtab, read_progbits, read_other, read_section, read_sections, sht_dynsym, sht_strtab,
  sht_symtab, sht_hash, sht_progbits, dynstr_name, strtab_name, gnu_debugdata_name, gnu_hash_name,
}

pub either_branch {ℓ} :
    {A : Type ℓ} (b : Bool) (x y : A) {z : A} → (if b then x else y) ≡ z → (x ≡ z) ⊎ (y ≡ z)
either_branch true x y h = inl h
either_branch false x y h = inr h

module _ (image : ElfImage) (table : ℕ) where
  -- The pointer, if it is not nullptr, is that of a section of the table that ends within the file.
  abbrev pub IsSection : Option ℕ → Type 0
  IsSection o =
      (p : ℕ)
      → o ≡ some p
      → (index : ℕ) × (h : Shdr) × (index < image.ehdr.e_shnum)
        × (image.shdr_at table index ≡ some h)
        × (p ≡ h.sh_offset)
        × (p + h.sh_size ≤ image.size)

  -- No end of a section of the table wraps around the address space.
  abbrev pub IsUnwrapped : Type 0
  IsUnwrapped =
      (index : ℕ) (h : Shdr)
      → index < image.ehdr.e_shnum
      → image.shdr_at table index ≡ some h
      → h.sh_offset + h.sh_size < addr_mod image

  pub record HasSections (r : ElfReader) : Type 0 where
    pub in_dynsym : IsSection r.dynsym
    pub in_dynstr : IsSection r.dynstr
    pub in_symtab : IsSection r.symtab
    pub in_strtab : IsSection r.strtab
    pub in_debugdata : IsSection r.gnu_debugdata

  checked_offset-IsSection :
      (index : ℕ) (h : Shdr)
      → index < image.ehdr.e_shnum
      → image.shdr_at table index ≡ some h
      → h.sh_offset + h.sh_size < addr_mod image
      → IsSection (checked_offset image h.sh_offset h.sh_size)
  unfolding checked_offset is_valid_range
  checked_offset-IsSection index h b e w p k =
      let m : (h.sh_offset + h.sh_size) % addr_mod image ≡ h.sh_offset + h.sh_size =
        mod-eq_of_lt w in
      elim (Bool-cases (leb ((h.sh_offset + h.sh_size) % addr_mod image) image.size)) [
        | inl c ↦
            let q = some-injective h.sh_offset p (sym (if_true _ _ c) ∙ k) in
            let within : (h.sh_offset + h.sh_size) % addr_mod image ≤ image.size = ground arith in
            let fits : p + h.sh_size ≤ image.size = omega arith in (index, h, b, e, sym q, fits)
        | inr c ↦ absurd (ground (arith, sym (if_false _ _ c) ∙ k))
      ]

  HasSections-ok : (r r' : ElfReader) → ok r ≡ ok r' → HasSections r → HasSections r'
  HasSections-ok r r' e s = subst HasSections (ok-injective r r' e) s

  -- The two hash tables are not pointers into the kept sections.
  build_hash-HasSections :
      (section : Option ℕ) (r r' : ElfReader)
      → build_hash image section r ≡ ok r'
      → HasSections r
      → HasSections r'
  unfolding build_hash
  build_hash-HasSections none r r' e s = HasSections-ok r r' e s
  build_hash-HasSections (some section) r r' e s =
      let (nbucket, p, e1) = >>=-eq-ok (readable (image.word_at section 0)) _ e in
      let (nchain, q, e2) = >>=-eq-ok (readable (image.word_at section 1)) _ e1 in
      HasSections-ok _ r' e2 (record {
        in_dynsym = s.in_dynsym;
        in_dynstr = s.in_dynstr;
        in_symtab = s.in_symtab;
        in_strtab = s.in_strtab;
        in_debugdata = s.in_debugdata;
      })

  build_gnu_hash-HasSections :
      (section : Option ℕ) (r r' : ElfReader)
      → build_gnu_hash image section r ≡ ok r'
      → HasSections r
      → HasSections r'
  unfolding build_gnu_hash
  build_gnu_hash-HasSections none r r' e s = HasSections-ok r r' e s
  build_gnu_hash-HasSections (some section) r r' e s =
      let (nbucket, p0, e0) = >>=-eq-ok (readable (image.word_at section 0)) _ e in
      let (symndx, p1, e1) = >>=-eq-ok (readable (image.word_at section 1)) _ e0 in
      let (maskwords, p2, e2) = >>=-eq-ok (readable (image.word_at section 2)) _ e1 in
      let (shift2, p3, e3) = >>=-eq-ok (readable (image.word_at section 3)) _ e2 in
      HasSections-ok _ r' e3 (record {
        in_dynsym = s.in_dynsym;
        in_dynstr = s.in_dynstr;
        in_symtab = s.in_symtab;
        in_strtab = s.in_strtab;
        in_debugdata = s.in_debugdata;
      })

  module _ (shstr : ℕ) (index : ℕ) (h : Shdr) (r r' : ElfReader)
      (k : IsSection (checked_offset image h.sh_offset h.sh_size)) (s : HasSections r) where
    read_strtab-HasSections : read_strtab image shstr h r ≡ ok r' → HasSections r'
    unfolding read_strtab
    read_strtab-HasSections e =
        let (name, p, q) = >>=-eq-ok (section_name image shstr h) _ e in
        elim (either_branch (strcmp_eq name dynstr_name) _ _ (ok-injective _ r' q)) [
          | inl a ↦ subst HasSections a (record {
            in_dynsym = s.in_dynsym;
            in_dynstr = k;
            in_symtab = s.in_symtab;
            in_strtab = s.in_strtab;
            in_debugdata = s.in_debugdata;
          })
          | inr a ↦ elim (either_branch (strcmp_eq name strtab_name) _ _ a) [
            | inl b ↦ subst HasSections b (record {
              in_dynsym = s.in_dynsym;
              in_dynstr = s.in_dynstr;
              in_symtab = s.in_symtab;
              in_strtab = k;
              in_debugdata = s.in_debugdata;
            })
            | inr b ↦ subst HasSections b s
          ]
        ]

    read_symtab-HasSections : read_symtab image shstr h r ≡ ok r' → HasSections r'
    unfolding read_symtab
    read_symtab-HasSections e = elim (either_branch (h.sh_entsize == 0) _ _ e) [
      | inl a ↦ absurd (ground arith)
      | inr a ↦ HasSections-ok _ r' a (record {
        in_dynsym = s.in_dynsym;
        in_dynstr = s.in_dynstr;
        in_symtab = k;
        in_strtab = s.in_strtab;
        in_debugdata = s.in_debugdata;
      })
    ]

    read_progbits-HasSections : read_progbits image shstr h r ≡ ok r' → HasSections r'
    unfolding read_progbits
    read_progbits-HasSections e =
        let (name, p, q) = >>=-eq-ok (section_name image shstr h) _ e in
        elim (either_branch (strcmp_eq name gnu_debugdata_name) _ _ (ok-injective _ r' q)) [
          | inl a ↦ subst HasSections a (record {
            in_dynsym = s.in_dynsym;
            in_dynstr = s.in_dynstr;
            in_symtab = s.in_symtab;
            in_strtab = s.in_strtab;
            in_debugdata = k;
          })
          | inr a ↦ subst HasSections a s
        ]

    read_other-HasSections : read_other image shstr h r ≡ ok r' → HasSections r'
    unfolding read_other
    read_other-HasSections e =
        let (name, p, q) = >>=-eq-ok (section_name image shstr h) _ e in
        elim (either_branch (strcmp_eq name gnu_hash_name) _ _ q) [
          | inl a ↦ build_gnu_hash-HasSections (checked_offset image h.sh_offset h.sh_size) r r' a s
          | inr a ↦ HasSections-ok r r' a s
        ]

    read_section-HasSections : read_section image shstr h r ≡ ok r' → HasSections r'
    unfolding read_section
    read_section-HasSections e = elim (either_branch (h.sh_size == 0) _ _ e) [
      | inl a ↦ HasSections-ok r r' a s
      | inr a ↦ elim (either_branch (h.sh_type == sht_dynsym) _ _ a) [
        | inl b ↦ HasSections-ok _ r' b (record {
          in_dynsym = k;
          in_dynstr = s.in_dynstr;
          in_symtab = s.in_symtab;
          in_strtab = s.in_strtab;
          in_debugdata = s.in_debugdata;
        })
        | inr b ↦ elim (either_branch (h.sh_type == sht_strtab) _ _ b) [
          | inl c ↦ read_strtab-HasSections c
          | inr c ↦ elim (either_branch (h.sh_type == sht_symtab) _ _ c) [
            | inl d ↦ read_symtab-HasSections d
            | inr d ↦ elim (either_branch (h.sh_type == sht_hash) _ _ d) [
              | inl f ↦ build_hash-HasSections (checked_offset image h.sh_offset h.sh_size) r r' f s
              | inr f ↦ elim (either_branch (h.sh_type == sht_progbits) _ _ f) [
                | inl g ↦ read_progbits-HasSections g
                | inr g ↦ read_other-HasSections g
              ]
            ]
          ]
        ]
      ]
    ]

  pub read_sections-HasSections :
      (shstr n index : ℕ) (r r' : ElfReader)
      → index + n ≤ image.ehdr.e_shnum
      → IsUnwrapped
      → HasSections r
      → read_sections image shstr table n index r ≡ ok r'
      → HasSections r'
  unfolding read_sections
  read_sections-HasSections shstr zero index r r' b w s e = HasSections-ok r r' e s
  read_sections-HasSections shstr (suc n) index r r' b w s e =
      let (h, p, e1) = >>=-eq-ok (readable (image.shdr_at table index)) _ e in
      let (t, q, e2) = >>=-eq-ok (read_section image shstr h r) _ e1 in
      let in_table : index < image.ehdr.e_shnum = omega arith in
      let at = readable-eq-ok _ p in
      let k = checked_offset-IsSection index h in_table at (w index h in_table at) in
      read_sections-HasSections shstr n (suc index) t r' (omega arith) w
        (read_section-HasSections shstr index h r t k s q) e2

  pub none-IsSection : IsSection none
  none-IsSection p e = absurd (ground arith)
