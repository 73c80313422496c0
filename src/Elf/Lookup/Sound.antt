-- ===== src/Elf/Lookup/Sound.antt =====
-- What the searches of elf_reader.cpp find is a symbol of that name.
use Prim.Native.Nat.{bit_xor}
use xapm.Base.{
  u32_mod, ◌/◌, ℕ, zero, suc, ◌+◌, ◌%◌, ◌≡◌, ◌≢◌, refl, sym, ap, ◌∙◌, ◌⊎◌, inl, inr, Bool, true,
  false, List, Option, none, some, Result, ok, >>=-eq-ok, ◌==◌, arith, strcmp_eq-eq, Bool-cases,
  if_true, if_false,
}
use xapm.Elf.Image.{Sym, ElfImage, readable, readable-eq-ok}
use xapm.Elf.Hash.{elf_hash, gnu_hash}
use xapm.Elf.Reader.{ElfHash, GnuHash, ElfReader}
use xapm.Elf.Lookup.{
  has_name, named_value, lookup_dynsym, elf_chain, lookup_by_elf_hash, gnu_hit, gnu_chain_loop,
  bloom_test, gnu_bucket_search, lookup_by_gnu_hash, lookup_dynsym,
}

either_table :
    (o : Option GnuHash) (x : Result ℕ) (f : GnuHash → Result ℕ) {v : ℕ}
    → elim o [ none ↦ x | some t ↦ f t ] ≡ ok v
    → (x ≡ ok v) ⊎ ((t : GnuHash) × (f t ≡ ok v))
either_table none x f h = inl h
either_table (some t) x f h = inr (t, h)

-- The table has a symbol of that name and value.
abbrev pub IsSymbol : ElfImage → ℕ → ℕ → List ℕ → ℕ → Type 0
IsSymbol image table strings symbol v =
    (n : ℕ) × (s : Sym) × (image.sym_at table n ≡ some s)
    × (image.str_at (strings + s.st_name) ≡ some symbol)
    × (s.st_value ≡ v)

-- How a search's loop goes on, read from its result.
hit-or-rest :
    (hit : Option ℕ) (rest : Result ℕ) {v : ℕ}
    → elim hit [ some w ↦ ok w | none ↦ rest ] ≡ ok v
    → (hit ≡ some v) ⊎ (rest ≡ ok v)
hit-or-rest none rest h = inr h
hit-or-rest (some w) rest h = inl (ground arith)

past_end :
    (b : Bool) (rest : Result ℕ) {v : ℕ}
    → elim b [ true ↦ ok 0 | false ↦ rest ] ≡ ok v
    → v ≢ 0
    → rest ≡ ok v
past_end true rest h ne = absurd (ground arith)
past_end false rest h ne = h

past_last :
    (b : Bool) (rest : Result ℕ) {v : ℕ}
    → elim b [ true ↦ rest | false ↦ ok 0 ] ≡ ok v
    → v ≢ 0
    → rest ≡ ok v
past_last true rest h ne = h
past_last false rest h ne = absurd (ground arith)

module _ (image : ElfImage) where
  has_name-eq :
      (strings : ℕ) (s : Sym) (symbol : List ℕ)
      → has_name image strings s symbol ≡ ok true
      → image.str_at (strings + s.st_name) ≡ some symbol
  unfolding has_name
  has_name-eq strings s symbol h =
      let (name, p, q) = >>=-eq-ok (readable (image.str_at (strings + s.st_name))) _ h in
      readable-eq-ok _ p ∙ ap some (strcmp_eq-eq name symbol (ground arith))

  named_value-IsSymbol :
      (dynsym dynstr : ℕ) (symbol : List ℕ) (n : ℕ) {v : ℕ}
      → named_value image dynsym dynstr symbol n ≡ ok (some v)
      → IsSymbol image dynsym dynstr symbol v
  unfolding named_value
  named_value-IsSymbol dynsym dynstr symbol n h =
      let (s, p, q) = >>=-eq-ok (readable (image.sym_at dynsym n)) _ h in
      let (found, p2, q2) = >>=-eq-ok (has_name image dynstr s symbol) _ q in
      elim (Bool-cases found) [
        | inl e ↦
            (n, s, readable-eq-ok _ p, has_name-eq dynstr s symbol (p2 ∙ ap ok e), ground arith)
        | inr e ↦ absurd (ground arith)
      ]

  elf_chain-IsSymbol :
      (fuel : ℕ) (t : ElfHash) (dynsym dynstr : ℕ) (symbol : List ℕ) (n v : ℕ)
      → elf_chain image fuel t dynsym dynstr symbol n ≡ ok v
      → v ≢ 0
      → IsSymbol image dynsym dynstr symbol v
  unfolding elf_chain
  elf_chain-IsSymbol zero t dynsym dynstr symbol n v h ne = cc
  elf_chain-IsSymbol (suc fuel) t dynsym dynstr symbol n v h ne =
      let (hit, p, q) =
        >>=-eq-ok (named_value image dynsym dynstr symbol n) _ (past_end (n == 0) _ h ne) in
      elim (hit-or-rest hit _ q) [
        | inl e ↦ named_value-IsSymbol dynsym dynstr symbol n (p ∙ ap ok e)
        | inr k ↦
            let (next, r, k') = >>=-eq-ok (readable (image.word_at t.chain n)) _ k in
            elf_chain-IsSymbol fuel t dynsym dynstr symbol next v k' ne
      ]

  gnu_hit-IsSymbol :
      (word dynsym dynstr : ℕ) (symbol : List ℕ) (n : ℕ) {v : ℕ}
      → gnu_hit image word dynsym dynstr symbol n ≡ ok (some v)
      → IsSymbol image dynsym dynstr symbol v
  unfolding gnu_hit
  gnu_hit-IsSymbol word dynsym dynstr symbol n h =
      elim (Bool-cases (bit_xor word (gnu_hash symbol) / 2 == 0)) [
        | inl e ↦ named_value-IsSymbol dynsym dynstr symbol n (sym (if_true _ _ e) ∙ h)
        | inr e ↦ absurd (ground arith)
      ]

  gnu_chain_loop-IsSymbol :
      (fuel : ℕ) (t : GnuHash) (dynsym dynstr : ℕ) (symbol : List ℕ) (n v : ℕ)
      → gnu_chain_loop image fuel t dynsym dynstr symbol n ≡ ok v
      → v ≢ 0
      → IsSymbol image dynsym dynstr symbol v
  unfolding gnu_chain_loop
  gnu_chain_loop-IsSymbol zero t dynsym dynstr symbol n v h ne = cc
  gnu_chain_loop-IsSymbol (suc fuel) t dynsym dynstr symbol n v h ne =
      let (word, p, q) = >>=-eq-ok (readable (image.word_at t.gnu_chain n)) _ h in
      let (hit, p2, q2) = >>=-eq-ok (gnu_hit image word dynsym dynstr symbol n) _ q in
      elim (hit-or-rest hit _ q2) [
        | inl e ↦ gnu_hit-IsSymbol word dynsym dynstr symbol n (p2 ∙ ap ok e)
        | inr k ↦
            gnu_chain_loop-IsSymbol fuel t dynsym dynstr symbol ((n + 1) % u32_mod) v
              (past_last (word % 2 == 0) _ k ne) ne
      ]

  -- One of the two tables that are kept for a table and its strings.
  abbrev pub IsIn : Option ℕ → Option ℕ → List ℕ → ℕ → Type 0
  IsIn symbols strings symbol v =
      (table : ℕ) × (names : ℕ) × (symbols ≡ some table)
      × (strings ≡ some names)
      × IsSymbol image table names symbol v

  lookup_by_elf_hash-IsIn :
      (fuel : ℕ) (t : Option ElfHash) (dynsym dynstr : Option ℕ) (symbol : List ℕ) (v : ℕ)
      → lookup_by_elf_hash image fuel t dynsym dynstr symbol ≡ ok v
      → v ≢ 0
      → IsIn dynsym dynstr symbol v
  unfolding lookup_by_elf_hash
  lookup_by_elf_hash-IsIn fuel (some t) (some d) (some s) symbol v h ne =
      elim (Bool-cases (t.nbucket == 0)) [
        | inl e ↦ absurd (ground arith)
        | inr e ↦
            let (n, p, q) =
              >>=-eq-ok (readable (image.word_at t.bucket (elf_hash symbol % t.nbucket))) _
                (sym (if_false _ _ e) ∙ h) in
            (d, s, refl, refl, elf_chain-IsSymbol fuel t d s symbol n v q ne)
      ]
  lookup_by_elf_hash-IsIn fuel none dynsym dynstr symbol v h ne = absurd (ground arith)
  lookup_by_elf_hash-IsIn fuel (some t) none dynstr symbol v h ne = absurd (ground arith)
  lookup_by_elf_hash-IsIn fuel (some t) (some d) none symbol v h ne = absurd (ground arith)

  gnu_bucket_search-IsSymbol :
      (fuel : ℕ) (t : GnuHash) (dynsym dynstr : ℕ) (symbol : List ℕ) (v : ℕ)
      → gnu_bucket_search image fuel t dynsym dynstr symbol ≡ ok v
      → v ≢ 0
      → IsSymbol image dynsym dynstr symbol v
  unfolding gnu_bucket_search
  gnu_bucket_search-IsSymbol fuel t dynsym dynstr symbol v h ne =
      elim (Bool-cases (t.gnu_nbucket == 0)) [
        | inl e ↦ absurd (ground arith)
        | inr e ↦
            let (n, p, q) =
              >>=-eq-ok (readable (image.word_at t.gnu_bucket (gnu_hash symbol % t.gnu_nbucket))) _
                (sym (if_false _ _ e) ∙ h) in
            gnu_chain_loop-IsSymbol fuel t dynsym dynstr symbol n v q ne
      ]

  lookup_by_gnu_hash-IsIn :
      (fuel : ℕ) (t : Option GnuHash) (dynsym dynstr : Option ℕ) (symbol : List ℕ) (v : ℕ)
      → lookup_by_gnu_hash image fuel t dynsym dynstr symbol ≡ ok v
      → v ≢ 0
      → IsIn dynsym dynstr symbol v
  unfolding lookup_by_gnu_hash
  lookup_by_gnu_hash-IsIn fuel (some t) (some d) (some s) symbol v h ne =
      let (maybe, p, q) = >>=-eq-ok (bloom_test image t (gnu_hash symbol)) _ h in
      elim (Bool-cases maybe) [
        | inl e ↦ (
          d,
          s,
          refl,
          refl,
          gnu_bucket_search-IsSymbol fuel t d s symbol v (sym (if_true _ _ e) ∙ q) ne,
        )
        | inr e ↦ absurd (ground arith)
      ]
  lookup_by_gnu_hash-IsIn fuel none dynsym dynstr symbol v h ne = absurd (ground arith)
  lookup_by_gnu_hash-IsIn fuel (some t) none dynstr symbol v h ne = absurd (ground arith)
  lookup_by_gnu_hash-IsIn fuel (some t) (some d) none symbol v h ne = absurd (ground arith)

  pub lookup_dynsym-IsIn :
      (fuel : ℕ) (r : ElfReader) (symbol : List ℕ) (v : ℕ)
      → lookup_dynsym image fuel r symbol ≡ ok v
      → v ≢ 0
      → IsIn r.dynsym r.dynstr symbol v
  unfolding lookup_dynsym
  lookup_dynsym-IsIn fuel r symbol v h ne = elim (either_table r.gnu_hash_table _ _ h) [
    | inl k ↦ lookup_by_elf_hash-IsIn fuel r.elf_hash_table r.dynsym r.dynstr symbol v k ne
    | inr (t, k) ↦ lookup_by_gnu_hash-IsIn fuel (some t) r.dynsym r.dynstr symbol v k ne
  ]
