-- ===== src/Elf/Lookup/Answer.antt =====
-- What `LookupSymbol` of elf_reader.cpp answers, read off the reader's two symbol tables.
use mathlib.Core.Path.{subst}
use mathlib.Core.Option.{some-injective}
use xapm.Base.{
  ℕ, zero, suc, ◌+◌, ◌%◌, ◌<◌, ◌≡◌, ◌≢◌, refl, sym, ap, ◌∙◌, Bool, true, false, List, Option, none,
  some, Result, ok, fault, bad_read, ◌>>=◌, >>=-eq-ok, if◌then◌else◌, arith,
}
use xapm.Elf.Image.{Sym, ElfImage, readable, addr_mod}
use xapm.Elf.Reader.{ElfReader}
use xapm.Elf.Lookup.{non_null, symtab_loop, at_base, lookup_dynsym, after_dynsym, lookup_symbol}
use xapm.Elf.Lookup.Sound.{IsIn, lookup_dynsym-IsIn}
use xapm.Elf.Lookup.Symtab.{
  Names, NoneNames, Walked, no_entry, first_entry, is_listed, symtab_loop_lem,
}

-- An entry that needs the strings to be told apart stops the walk when they are not there.
unlisted_step :
    (listed : Bool) (hit : Option ℕ) {o : Option ℕ} {rest : Result (Option ℕ)}
    → ((if listed then fault bad_read else ok false)
        >>= (λ found. elim found [ true ↦ ok hit | false ↦ rest ]))
      ≡ ok o
    → rest ≡ ok o
unlisted_step true hit h = absurd (ground arith)
unlisted_step false hit h = h

module _ (image : ElfImage) where
  -- `load_base + v`.
  abbrev pub address : ℕ → ℕ → ℕ
  address load_base v = (load_base + v) % addr_mod image

  -- The first entry of .symtab that is a function or an object of that name has the value.
  abbrev pub IsFirst : Option ℕ → Option ℕ → ℕ → List ℕ → ℕ → Type 0
  IsFirst symtab strtab count symbol v =
      (table : ℕ) × (strings : ℕ) × (i : ℕ) × (s : Sym) × (symtab ≡ some table)
      × (strtab ≡ some strings)
      × (i < count)
      × Names image table strings symbol i s
      × (s.st_value ≡ v)
      × NoneNames image table strings symbol 0 i

  abbrev pub IsAbsent : Option ℕ → Option ℕ → ℕ → List ℕ → Type 0
  IsAbsent symtab strtab count symbol =
      (table strings : ℕ)
      → symtab ≡ some table
      → strtab ≡ some strings
      → NoneNames image table strings symbol 0 count

  -- Without strings the walk finds nothing.
  symtab_loop-no_strings :
      (symtab : Option ℕ) (symbol : List ℕ) (n index v : ℕ)
      → symtab_loop image symtab none symbol n index ≢ ok (some v)
  unfolding symtab_loop non_null
  symtab_loop-no_strings none symbol zero index v h = ground arith
  symtab_loop-no_strings none symbol (suc n) index v h = ground arith
  symtab_loop-no_strings (some t) symbol zero index v h = ground arith
  symtab_loop-no_strings (some t) symbol (suc n) index v h =
      let (s, p, q) = >>=-eq-ok (readable (image.sym_at t index)) _ h in
      symtab_loop-no_strings (some t) symbol n (suc index) v
        (unlisted_step (is_listed s) (some s.st_value) q)

  symtab_loop-no_table :
      (strtab : Option ℕ) (symbol : List ℕ) (n index v : ℕ)
      → symtab_loop image none strtab symbol n index ≢ ok (some v)
  unfolding symtab_loop non_null
  symtab_loop-no_table strtab symbol zero index v h = ground arith
  symtab_loop-no_table strtab symbol (suc n) index v h = ground arith

  Walked-IsFirst :
      (table strings count : ℕ) (symbol : List ℕ) (v : ℕ) (o : Option ℕ)
      → o ≡ some v
      → Walked image table strings symbol 0 count o
      → IsFirst (some table) (some strings) count symbol v
  Walked-IsFirst table strings count symbol v none e (no_entry none_named) = absurd (ground arith)
  Walked-IsFirst table strings count symbol v _ e (first_entry i s p q named before) =
      (table, strings, i, s, refl, refl, omega arith, named, some-injective s.st_value v e, before)

  symtab_loop-IsFirst :
      (symtab strtab : Option ℕ) (symbol : List ℕ) (n v : ℕ)
      → symtab_loop image symtab strtab symbol n 0 ≡ ok (some v)
      → IsFirst symtab strtab n symbol v
  symtab_loop-IsFirst none strtab symbol n v h = absurd (symtab_loop-no_table strtab symbol n 0 v h)
  symtab_loop-IsFirst (some t) none symbol n v h =
      absurd (symtab_loop-no_strings (some t) symbol n 0 v h)
  symtab_loop-IsFirst (some t) (some strings) symbol n v h =
      Walked-IsFirst t strings n symbol v (some v) refl
        (symtab_loop_lem image t strings symbol n 0 (some v) h)

  Walked-NoneNames :
      (table strings count : ℕ) (symbol : List ℕ) (o : Option ℕ)
      → o ≡ none
      → Walked image table strings symbol 0 count o
      → NoneNames image table strings symbol 0 count
  Walked-NoneNames table strings count symbol none e (no_entry none_named) =
      λ i s p q. none_named i s p (omega arith)
  Walked-NoneNames table strings count symbol _ e (first_entry i s p q named before) =
      absurd (ground arith)

  symtab_loop-IsAbsent :
      (symtab strtab : Option ℕ) (symbol : List ℕ) (n : ℕ)
      → symtab_loop image symtab strtab symbol n 0 ≡ ok none
      → IsAbsent symtab strtab n symbol
  symtab_loop-IsAbsent symtab strtab symbol n h table strings e k =
      Walked-NoneNames table strings n symbol none refl (
        symtab_loop_lem image table strings symbol n 0 none (
          ap (λ t. symtab_loop image t (some strings) symbol n 0) (sym e)
          ∙ (ap (λ t. symtab_loop image symtab t symbol n 0) (sym k) ∙ h)))

  -- How `LookupSymbol` came to its answer for a symbol that is not nullptr.
  pub data Answer (fuel : ℕ) (r : ElfReader) (symbol : List ℕ) (load_base : ℕ) (only_dynsym : Bool)
      : Option ℕ → Type 0 where
    in_dynsym :
        (v : ℕ)
        → v ≢ 0
        → lookup_dynsym image fuel r symbol ≡ ok v
        → IsIn image r.dynsym r.dynstr symbol v
        → Answer fuel r symbol load_base only_dynsym (some (address load_base v))
    not_in_dynsym :
        lookup_dynsym image fuel r symbol ≡ ok 0
        → only_dynsym ≡ true
        → Answer fuel r symbol load_base only_dynsym none
    in_symtab :
        (v : ℕ)
        → lookup_dynsym image fuel r symbol ≡ ok 0
        → only_dynsym ≡ false
        → IsFirst r.symtab r.strtab r.symtab_ent_count symbol v
        → Answer fuel r symbol load_base only_dynsym (some (address load_base v))
    nowhere :
        lookup_dynsym image fuel r symbol ≡ ok 0
        → only_dynsym ≡ false
        → IsAbsent r.symtab r.strtab r.symtab_ent_count symbol
        → Answer fuel r symbol load_base only_dynsym none

  after_dynsym-Answer :
      (fuel : ℕ) (r : ElfReader) (symbol : List ℕ) (load_base : ℕ) (only_dynsym : Bool) (v : ℕ)
      (o : Option ℕ)
      → lookup_dynsym image fuel r symbol ≡ ok v
      → after_dynsym image r symbol load_base only_dynsym v ≡ ok o
      → Answer fuel r symbol load_base only_dynsym o
  unfolding after_dynsym at_base
  after_dynsym-Answer fuel r symbol load_base only_dynsym (suc v) o d h =
      subst (Answer fuel r symbol load_base only_dynsym) (ground arith) (
        in_dynsym (suc v) (ground arith) d
          (lookup_dynsym-IsIn image fuel r symbol (suc v) d (ground arith)))
  after_dynsym-Answer fuel r symbol load_base true zero o d h =
      subst (Answer fuel r symbol load_base true) (ground arith) (not_in_dynsym d refl)
  after_dynsym-Answer fuel r symbol load_base false zero o d h =
      let (found, p, q) =
        >>=-eq-ok (symtab_loop image r.symtab r.strtab symbol r.symtab_ent_count 0) _ h in
      from_symtab found p q
    where
      from_symtab :
          (found : Option ℕ)
          → symtab_loop image r.symtab r.strtab symbol r.symtab_ent_count 0 ≡ ok found
          → ok (at_base image load_base found) ≡ ok o
          → Answer fuel r symbol load_base false o
      from_symtab none p q =
          subst (Answer fuel r symbol load_base false) (ground arith)
            (nowhere d refl (symtab_loop-IsAbsent r.symtab r.strtab symbol r.symtab_ent_count p))
      from_symtab (some w) p q =
          subst (Answer fuel r symbol load_base false) (ground arith) (
            in_symtab w d refl
              (symtab_loop-IsFirst r.symtab r.strtab symbol r.symtab_ent_count w p))

  -- Where `LookupSymbol` returns for a symbol that is not nullptr, what it returns comes from the
  -- tables that the reader keeps. A value that is not 0 of a dynamic symbol of that name, added to
  -- `load_base`; else, unless only the dynamic symbols are asked for, the value of the first function
  -- or object of that name in .symtab, added to `load_base`; and nullptr only where the hash lookup
  -- gave 0 and only the dynamic symbols are asked for or no entry of .symtab has that name and kind.
  pub lookup_symbol-Answer :
      (fuel : ℕ) (r : ElfReader) (symbol : List ℕ) (load_base : ℕ) (only_dynsym : Bool)
      (o : Option ℕ)
      → lookup_symbol image fuel r (some symbol) load_base only_dynsym ≡ ok o
      → Answer fuel r symbol load_base only_dynsym o
  unfolding lookup_symbol
  lookup_symbol-Answer fuel r symbol load_base only_dynsym o h =
      let (v, d, q) = >>=-eq-ok (lookup_dynsym image fuel r symbol) _ h in
      after_dynsym-Answer fuel r symbol load_base only_dynsym v o d q
