-- ===== src/Elf/Lookup/Symtab.antt =====
-- The walk over .symtab in `LookupSymbol` of elf_reader.cpp finds the first entry of that name.
use mathlib.Core.Path.{subst}
use mathlib.Core.Option.{some-injective}
use native.Mathlib.Decide.{ℕ_discrete}
use xapm.Base.{
  ℕ, zero, suc, ◌+◌, ◌%◌, ◌^◌, ◌≤◌, ◌<◌, ◌≡◌, ◌≢◌, sym, ap, ◌∙◌, inl, inr, Bool, true, false, ◌||◌,
  List, Option, none, some, Result, ok, >>=-eq-ok, ◌==◌, if◌then◌else◌, arith, strcmp_eq,
  strcmp_eq-eq, strcmp_eq_refl, Bool-cases, if_true, if_false,
}
use xapm.Elf.Image.{Sym, ElfImage, readable, readable-eq-ok}
use xapm.Elf.Lookup.{has_name, non_null, symtab_loop, stt_func, stt_object}

-- A function or an object.
abbrev pub is_listed : Sym → Bool
is_listed s = s.st_info % 2 ^ 4 == stt_func || s.st_info % 2 ^ 4 == stt_object

module _ (image : ElfImage) where
  -- Entry `i` is a function or an object of that name.
  abbrev pub Names : ℕ → ℕ → List ℕ → ℕ → Sym → Type 0
  Names table strings symbol i s =
      (image.sym_at table i ≡ some s)
      × (is_listed s ≡ true)
      × (image.str_at (strings + s.st_name) ≡ some symbol)

  -- No entry of the range names the symbol.
  abbrev pub NoneNames : ℕ → ℕ → List ℕ → ℕ → ℕ → Type 0
  NoneNames table strings symbol from until =
      (i : ℕ) (s : Sym) → from ≤ i → i < until → ¬ Names table strings symbol i s

  -- The test that the loop makes of one entry.
  abbrev pub entry_test : ℕ → List ℕ → Sym → Result Bool
  entry_test strings symbol s = if is_listed s then has_name image strings s symbol else ok false

  has_name-str_at :
      (strings : ℕ) (s : Sym) (symbol : List ℕ) (found : Bool)
      → has_name image strings s symbol ≡ ok found
      → (name : List ℕ) × (image.str_at (strings + s.st_name) ≡ some name)
        × (strcmp_eq name symbol ≡ found)
  unfolding has_name
  has_name-str_at strings s symbol found h =
      let (name, p, q) = >>=-eq-ok (readable (image.str_at (strings + s.st_name))) _ h in
      (name, readable-eq-ok _ p, ground arith)

  entry_test-true :
      (strings : ℕ) (symbol : List ℕ) (s : Sym)
      → entry_test strings symbol s ≡ ok true
      → (is_listed s ≡ true) × (image.str_at (strings + s.st_name) ≡ some symbol)
  entry_test-true strings symbol s h = elim (Bool-cases (is_listed s)) [
    | inl e ↦
        let (name, p, q) = has_name-str_at strings s symbol true (sym (if_true _ _ e) ∙ h) in
        (e, p ∙ ap some (strcmp_eq-eq name symbol q))
    | inr e ↦ absurd (ground (arith, sym (if_false (has_name image strings s symbol) (ok false) e)))
  ]

  entry_test-false :
      (strings : ℕ) (symbol : List ℕ) (s : Sym)
      → entry_test strings symbol s ≡ ok false
      → is_listed s ≡ true
      → image.str_at (strings + s.st_name) ≢ some symbol
  entry_test-false strings symbol s h e k =
      let (name, p, q) = has_name-str_at strings s symbol false (sym (if_true _ _ e) ∙ h) in
      ground (arith, strcmp_eq_refl symbol)

  -- What the walk answers on the entries `index`, …, `index + n - 1`.
  pub data Walked (table strings : ℕ) (symbol : List ℕ) (index n : ℕ) : Option ℕ → Type 0 where
    no_entry :
        NoneNames table strings symbol index (index + n) → Walked table strings symbol index n none
    first_entry :
        (i : ℕ) (s : Sym)
        → index ≤ i
        → i < index + n
        → Names table strings symbol i s
        → NoneNames table strings symbol index i
        → Walked table strings symbol index n (some s.st_value)

  -- Entry `index` does not name the symbol.
  Passed : ℕ → ℕ → List ℕ → ℕ → Type 0
  Passed table strings symbol index = (s : Sym) → ¬ Names table strings symbol index s

  NoneNames-suc :
      (table strings : ℕ) (symbol : List ℕ) (index until : ℕ)
      → Passed table strings symbol index
      → NoneNames table strings symbol (suc index) until
      → NoneNames table strings symbol index until
  unfolding Passed
  NoneNames-suc table strings symbol index until here rest i s p q named =
      elim (ℕ_discrete index i) [
        | yes e ↦ here s (subst (λ k. Names table strings symbol k s) (sym e) named)
        | no ne ↦ rest i s (omega arith) q named
      ]

  Walked_suc :
      (table strings : ℕ) (symbol : List ℕ) (index n : ℕ) (o : Option ℕ)
      → Passed table strings symbol index
      → Walked table strings symbol (suc index) n o
      → Walked table strings symbol index (suc n) o
  Walked_suc table strings symbol index n none here (no_entry rest) = no_entry (λ i s p q.
      NoneNames-suc table strings symbol index (suc index + n) here rest i s p (omega arith))
  Walked_suc table strings symbol index n _ here (first_entry i s p q named rest) =
      first_entry i s (omega arith) (omega arith) named
        (NoneNames-suc table strings symbol index i here rest)

  entry_test-Passed :
      (table strings : ℕ) (symbol : List ℕ) (index : ℕ) (s : Sym)
      → image.sym_at table index ≡ some s
      → entry_test strings symbol s ≡ ok false
      → Passed table strings symbol index
  unfolding Passed
  entry_test-Passed table strings symbol index s p h s' (p', e, named) =
      let same = some-injective s s' (sym p ∙ p') in
      entry_test-false strings symbol s' (ap (entry_test strings symbol) (sym same) ∙ h) e named

  symtab_step :
      (table strings : ℕ) (symbol : List ℕ) (n index : ℕ) (o : Option ℕ) (s : Sym) (found : Bool)
      {rest : Result (Option ℕ)}
      → image.sym_at table index ≡ some s
      → entry_test strings symbol s ≡ ok found
      → elim found [ true ↦ ok (some s.st_value) | false ↦ rest ] ≡ ok o
      → (rest ≡ ok o → Walked table strings symbol (suc index) n o)
      → Walked table strings symbol index (suc n) o
  symtab_step table strings symbol n index none s true p t e rest = absurd (ground arith)
  symtab_step table strings symbol n index (some v) s true p t e rest =
      let (listed, named) = entry_test-true strings symbol s t in
      subst (λ w. Walked table strings symbol index (suc n) (some w)) (ground arith)
        (first_entry index s (omega arith) (omega arith) (p, listed, named)
          (λ i s q r k. absurd (omega arith)))
  symtab_step table strings symbol n index o s false p t e rest =
      Walked_suc table strings symbol index n o (entry_test-Passed table strings symbol index s p t)
        (rest e)

  pub symtab_loop_lem :
      (table strings : ℕ) (symbol : List ℕ) (n index : ℕ) (o : Option ℕ)
      → symtab_loop image (some table) (some strings) symbol n index ≡ ok o
      → Walked table strings symbol index n o
  unfolding symtab_loop non_null
  symtab_loop_lem table strings symbol zero index none h =
      no_entry (λ i s p q named. absurd (omega arith))
  symtab_loop_lem table strings symbol zero index (some v) h = absurd (ground arith)
  symtab_loop_lem table strings symbol (suc n) index o h =
      let (s, p, q) = >>=-eq-ok (readable (image.sym_at table index)) _ h in
      let (found, p2, q2) = >>=-eq-ok (entry_test strings symbol s) _ q in
      symtab_step table strings symbol n index o s found (readable-eq-ok _ p) p2 q2
        (symtab_loop_lem table strings symbol n (suc index) o)
