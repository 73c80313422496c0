-- ===== src/Elf/Lookup/Chains.antt =====
-- The two hash tables of elf_reader.cpp look symbols up the way an association list does: on a
-- chain that is all there, with fuel for it.
use Prim.Native.Nat.{bit_xor}
use xapm.Base.{
  ℕ, zero, suc, ◌+◌, ◌/◌, ◌%◌, ◌<◌, ◌≡◌, ◌≢◌, refl, sym, ap, ◌∙◌, inl, inr, Bool, true, false, List,
  [], ◌∷◌, none, some, Result, ok, ◌==◌, if◌then◌else◌, arith, u32_mod, length, strcmp_eq,
  strcmp_eq-eq, Bool-cases, if_true, if_false,
}
use xapm.Elf.Hash.{elf_hash, gnu_hash}
use xapm.Elf.Image.{Sym, ElfImage}
use xapm.Elf.Reader.{ElfHash, GnuHash}
use xapm.Elf.Lookup.{
  has_name, named_value, elf_chain, lookup_by_elf_hash, gnu_hit, gnu_chain_loop, gnu_bucket_search,
  bloom_test, lookup_by_gnu_hash,
}

-- The symbols along a chain: name and value.
pub record NamedValue : Type 0 where
  pub name : List ℕ
  pub value : ℕ

-- The value of the first symbol of that name, 0 if there is none.
pub value_of : List NamedValue → List ℕ → ℕ
value_of [] symbol = 0
value_of (e ∷ es) symbol = if strcmp_eq e.name symbol then e.value else value_of es symbol

not_end : (b : Bool) (rest : Result ℕ) → b ≡ false → elim b [ true ↦ ok 0 | false ↦ rest ] ≡ rest
not_end b rest e = rw e refl

module _ (image : ElfImage) (dynsym dynstr : ℕ) where
  -- Symbol `n` can be read and has this name and value.
  abbrev pub Reads : ℕ → NamedValue → Type 0
  Reads n e =
      (s : Sym) × (image.sym_at dynsym n ≡ some s)
      × (image.str_at (dynstr + s.st_name) ≡ some e.name)
      × (s.st_value ≡ e.value)

  -- The chain of an ELF hash table from symbol `n` on: it ends with symbol 0.
  pub data IsElfChain (t : ElfHash) : ℕ → List NamedValue → Type 0 where
    elf_end : IsElfChain t 0 []
    elf_link :
        (n next : ℕ) (e : NamedValue) (es : List NamedValue)
        → n ≢ 0
        → Reads n e
        → image.word_at t.chain n ≡ some next
        → IsElfChain t next es
        → IsElfChain t n (e ∷ es)

  -- The chain of a GNU hash table from symbol `n` on: a word for each symbol, the hash of its name
  -- but for the lowest bit, which is set in the last word alone.
  pub data IsGnuChain (t : GnuHash) : ℕ → List NamedValue → Type 0 where
    gnu_last :
        (n word : ℕ) (e : NamedValue)
        → Reads n e
        → image.word_at t.gnu_chain n ≡ some word
        → bit_xor word (gnu_hash e.name) / 2 ≡ 0
        → word % 2 ≡ 1
        → IsGnuChain t n (e ∷ [])
    gnu_link :
        (n word : ℕ) (e : NamedValue) (es : List NamedValue)
        → Reads n e
        → image.word_at t.gnu_chain n ≡ some word
        → bit_xor word (gnu_hash e.name) / 2 ≡ 0
        → word % 2 ≡ 0
        → IsGnuChain t ((n + 1) % u32_mod) es
        → IsGnuChain t n (e ∷ es)

  named_value_lem :
      (symbol : List ℕ) (n : ℕ) (e : NamedValue)
      → Reads n e
      → named_value image dynsym dynstr symbol n
        ≡ ok (if strcmp_eq e.name symbol then some e.value else none)
  unfolding named_value has_name
  named_value_lem symbol n e (s, p, q, v) = rw p (rw q (rw v refl))

  elf_chain_lem :
      (fuel : ℕ) (t : ElfHash) (symbol : List ℕ) (n : ℕ) (es : List NamedValue)
      → IsElfChain t n es
      → length es < fuel
      → elf_chain image fuel t dynsym dynstr symbol n ≡ ok (value_of es symbol)
  unfolding elf_chain value_of
  elf_chain_lem zero t symbol n es c f = absurd (omega arith)
  elf_chain_lem (suc fuel) t symbol _ _ elf_end f = refl
  elf_chain_lem (suc fuel) t symbol _ _ (elf_link n next e es ne r w c) f =
      not_end (n == 0) _ (ground arith) ∙ elim (Bool-cases (strcmp_eq e.name symbol)) [
        | inl k ↦ rw (named_value_lem symbol n e r, k) refl
        | inr k ↦
            rw (named_value_lem symbol n e r, k, w)
              (elf_chain_lem fuel t symbol next es c (omega arith))
      ]

  -- `LookupByElfHash` on a table that has buckets and whose chain for the symbol is all there, with
  -- fuel for the chain: the value of the first symbol of that name along the chain, 0 if there is
  -- none.
  pub lookup_by_elf_hash-value_of :
      (fuel : ℕ) (t : ElfHash) (symbol : List ℕ) (n : ℕ) (es : List NamedValue)
      → t.nbucket ≢ 0
      → image.word_at t.bucket (elf_hash symbol % t.nbucket) ≡ some n
      → IsElfChain t n es
      → length es < fuel
      → lookup_by_elf_hash image fuel (some t) (some dynsym) (some dynstr) symbol
        ≡ ok (value_of es symbol)
  unfolding lookup_by_elf_hash
  lookup_by_elf_hash-value_of fuel t symbol n es ne w c f =
      let some_buckets : (t.nbucket == 0) ≡ false = ground arith in
      if_false _ _ some_buckets ∙ rw w (elf_chain_lem fuel t symbol n es c f)

  gnu_hit_lem :
      (word : ℕ) (symbol : List ℕ) (n : ℕ) (e : NamedValue)
      → Reads n e
      → bit_xor word (gnu_hash e.name) / 2 ≡ 0
      → gnu_hit image word dynsym dynstr symbol n
        ≡ ok (if strcmp_eq e.name symbol then some e.value else none)
  unfolding gnu_hit
  gnu_hit_lem word symbol n e r w = elim (Bool-cases (strcmp_eq e.name symbol)) [
    | inl k ↦
        if_true _ _ (
          ap (λ name. bit_xor word (gnu_hash name) / 2 == 0) (sym (strcmp_eq-eq e.name symbol k))
          ∙ ap (λ rest. rest == 0) w)
        ∙ named_value_lem symbol n e r
    | inr k ↦ elim (Bool-cases (bit_xor word (gnu_hash symbol) / 2 == 0)) [
      | inl p ↦ if_true _ _ p ∙ named_value_lem symbol n e r
      | inr p ↦ if_false _ _ p ∙ rw k refl
    ]
  ]

  goes_on : (b : Bool) (rest : Result ℕ) → b ≡ true → elim b [ true ↦ rest | false ↦ ok 0 ] ≡ rest
  goes_on b rest e = rw e refl

  ends :
      (b : Bool) (rest : Result ℕ)
      → b ≡ false
      → ◌≡◌ {A = Result ℕ} (elim b [ true ↦ rest | false ↦ ok 0 ]) (ok 0)
  ends b rest e = rw e refl

  gnu_chain_loop_lem :
      (fuel : ℕ) (t : GnuHash) (symbol : List ℕ) (n : ℕ) (es : List NamedValue)
      → IsGnuChain t n es
      → length es < suc fuel
      → gnu_chain_loop image fuel t dynsym dynstr symbol n ≡ ok (value_of es symbol)
  unfolding gnu_chain_loop value_of
  gnu_chain_loop_lem zero t symbol _ _ (gnu_last n word e r w h l) f = absurd (omega arith)
  gnu_chain_loop_lem zero t symbol _ _ (gnu_link n word e es r w h l c) f = absurd (omega arith)
  gnu_chain_loop_lem (suc fuel) t symbol _ _ (gnu_last n word e r w h l) f =
      elim (Bool-cases (strcmp_eq e.name symbol)) [
        | inl k ↦ rw (w, gnu_hit_lem word symbol n e r h, k) refl
        | inr k ↦ rw (w, gnu_hit_lem word symbol n e r h, k) (ends (word % 2 == 0) _ (ground arith))
      ]
  gnu_chain_loop_lem (suc fuel) t symbol _ _ (gnu_link n word e es r w h l c) f =
      elim (Bool-cases (strcmp_eq e.name symbol)) [
        | inl k ↦ rw (w, gnu_hit_lem word symbol n e r h, k) refl
        | inr k ↦
            rw (w, gnu_hit_lem word symbol n e r h, k)
              (goes_on (word % 2 == 0) _ (ground arith)
                ∙ gnu_chain_loop_lem fuel t symbol ((n + 1) % u32_mod) es c (omega arith))
      ]

  gnu_bucket_search-value_of :
      (fuel : ℕ) (t : GnuHash) (symbol : List ℕ) (n : ℕ) (es : List NamedValue)
      → t.gnu_nbucket ≢ 0
      → image.word_at t.gnu_bucket (gnu_hash symbol % t.gnu_nbucket) ≡ some n
      → IsGnuChain t n es
      → length es < suc fuel
      → gnu_bucket_search image fuel t dynsym dynstr symbol ≡ ok (value_of es symbol)
  unfolding gnu_bucket_search
  gnu_bucket_search-value_of fuel t symbol n es ne w c f =
      let some_buckets : (t.gnu_nbucket == 0) ≡ false = ground arith in
      if_false _ _ some_buckets ∙ rw w (gnu_chain_loop_lem fuel t symbol n es c f)

  -- `LookupByGnuHash` on a table that has buckets, whose Bloom filter says no only to a symbol that
  -- is not on its chain, and whose chain for the symbol is all there, with fuel for the chain: the
  -- comparison of hashes passes over no symbol of that name, so that the result is the value of the
  -- first one along the chain, 0 if there is none.
  pub lookup_by_gnu_hash-value_of :
      (fuel : ℕ) (t : GnuHash) (symbol : List ℕ) (n : ℕ) (es : List NamedValue) (maybe : Bool)
      → bloom_test image t (gnu_hash symbol) ≡ ok maybe
      → (maybe ≡ false → value_of es symbol ≡ 0)
      → t.gnu_nbucket ≢ 0
      → image.word_at t.gnu_bucket (gnu_hash symbol % t.gnu_nbucket) ≡ some n
      → IsGnuChain t n es
      → length es < suc fuel
      → lookup_by_gnu_hash image fuel (some t) (some dynsym) (some dynstr) symbol
        ≡ ok (value_of es symbol)
  unfolding lookup_by_gnu_hash
  lookup_by_gnu_hash-value_of fuel t symbol n es true b absent ne w c f =
      rw b (gnu_bucket_search-value_of fuel t symbol n es ne w c f)
  lookup_by_gnu_hash-value_of fuel t symbol n es false b absent ne w c f = rw (b, absent refl) refl
