-- ===== src/Maps/Bias.antt =====
-- `GetVal` and `ReadLoadBias`: the program headers of a mapped file, read within its mapping.
-- Memory and the layout of <elf.h>'s structs are parameters.
pub mod Bounds
pub mod Headers
use xapm.Base.{
  ℕ, zero, suc, ◌+◌, ◌*◌, ◌%◌, ◌^◌, ◌≤◌, ◌<◌, ◌≡◌, refl, sym, ap, ◌∙◌, inl, inr, Bool, true, false,
  not, ◌&&◌, ◌||◌, List, Option, none, some, Result, ok, fault, bad_read, ◌>>=◌, >>=-eq-ok, ltb,
  ◌==◌, if◌then◌else◌, arith, Bool-cases, Option-cases, if_true, if_false,
}

-- `MapEntry`. `flags` are PROT_READ and PROT_EXEC.
pub record MapEntry : Type 0 where
  pub name : List ℕ
  pub start : ℕ
  pub end : ℕ
  pub offset : ℕ
  pub prot_read : Bool
  pub prot_exec : Bool

-- The fields of ElfW(Ehdr) and ElfW(Phdr): where each stands and how wide it is.
pub record Field : Type 0 where
  pub at : ℕ
  pub width : ℕ

-- Memory by address and width of the value read, `none` where reading is undefined behaviour.
pub record Process : Type 0 where
  -- sizeof(uintptr_t) and ElfW(Addr), in bytes.
  pub word_size : ℕ
  pub memory : ℕ → ℕ → Option ℕ
  pub e_phnum : Field
  pub e_phoff : Field
  pub p_type : Field
  pub p_flags : Field
  pub p_offset : Field
  pub p_vaddr : Field
  pub phdr_size : ℕ

abbrev pub pt_load : ℕ
pt_load = 1

module _ (process : Process) where
  -- `uintptr_t` wraps here.
  abbrev pub addr_mod : ℕ
  addr_mod = 2 ^ (process.word_size * 8)

  -- What is read: a value that `memory` does not give is undefined behaviour.
  unfoldable pub read_value : ℕ → ℕ → Result (Option ℕ)
  read_value addr width = elim (process.memory addr width) [
    | none ↦ fault bad_read
    | some v ↦ ok (some v)
  ]

  -- `GetVal<T>` for a T of `width` bytes. `addr + sizeof(T)` wraps.
  unfoldable pub get_val : MapEntry → ℕ → ℕ → Result (Option ℕ)
  get_val entry addr width =
      if not entry.prot_read || (ltb addr entry.start || ltb entry.end ((addr + width) % addr_mod))
      then ok none
      else if not (addr % width == 0)
      then ok none
      else read_value addr width

  -- A field of the struct at `addr`.
  unfoldable pub get_field : MapEntry → ℕ → Field → Result (Option ℕ)
  get_field entry addr f = get_val entry ((addr + f.at) % addr_mod) f.width

  -- `p_type == PT_LOAD && (p_flags & PF_X)`, PF_X being the lowest bit.
  unfoldable pub is_code_segment : ℕ → ℕ → Bool
  is_code_segment type flags = type == pt_load && not (flags % 2 == 0)

  -- `if (!GetVal(...)) return false;`
  abbrev pub or_return : Result (Option ℕ) → (ℕ → Result (Option ℕ)) → Result (Option ℕ)
  or_return m f = m >>= (λ o. elim o [ none ↦ ok none | some v ↦ f v ])

  -- The loop over `n` program headers, the next one at `addr`.
  unfoldable pub bias_loop : MapEntry → ℕ → ℕ → Result (Option ℕ)
  bias_loop entry zero addr = ok none
  bias_loop entry (suc n) addr =
      let rest = bias_loop entry n ((addr + process.phdr_size) % addr_mod) in
      or_return (get_field entry addr process.p_type) (λ type.
        or_return (get_field entry addr process.p_flags) (λ flags.
          or_return (get_field entry addr process.p_offset) (λ segment_offset.
            if is_code_segment type flags then get_field entry addr process.p_vaddr else rest)))

  -- `ReadLoadBias`: the bias, or `none` for false.
  unfoldable pub read_load_bias : MapEntry → Result (Option ℕ)
  read_load_bias entry = or_return (get_field entry entry.start process.e_phnum) (λ phnum.
      or_return (get_field entry entry.start process.e_phoff)
        (λ phoff. bias_loop entry phnum ((entry.start + phoff) % addr_mod)))
