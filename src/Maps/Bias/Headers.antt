-- ===== src/Maps/Bias/Headers.antt =====
-- `ReadLoadBias` of map_util.hpp finds the first program header of code.
use xapm.Base.{
  ℕ, ◌+◌, ◌%◌, ◌≡◌, refl, sym, ap, ◌∙◌, inl, inr, not, ◌&&◌, List, [], ◌∷◌, Option, none, some, ok,
  ◌==◌, if◌then◌else◌, length, Bool-cases, if_true, if_false,
}
use xapm.Maps.Bias.{
  MapEntry, Process, addr_mod, get_field, is_code_segment, bias_loop, read_load_bias, pt_load,
}

-- A program header.
pub record Segment : Type 0 where
  pub type : ℕ
  pub flags : ℕ
  pub segment_offset : ℕ
  pub vaddr : ℕ

-- The virtual address of the first loaded segment that may be executed.
pub first_code : List Segment → Option ℕ
first_code [] = none
first_code (s ∷ ss) =
    if s.type == pt_load && not (s.flags % 2 == 0) then some s.vaddr else first_code ss

module _ (process : Process) (entry : MapEntry) where
  -- The fields of the header at `addr`, which `GetVal` gives.
  pub record IsHeader (addr : ℕ) (s : Segment) : Type 0 where
    pub is_type : get_field process entry addr process.p_type ≡ ok (some s.type)
    pub is_flags : get_field process entry addr process.p_flags ≡ ok (some s.flags)
    pub is_offset : get_field process entry addr process.p_offset ≡ ok (some s.segment_offset)
    pub is_vaddr : get_field process entry addr process.p_vaddr ≡ ok (some s.vaddr)

  -- The headers from `addr` on.
  pub data IsTable : ℕ → List Segment → Type 0 where
    table_end : (addr : ℕ) → IsTable addr []
    table_next :
        (addr : ℕ) (s : Segment) (ss : List Segment)
        → IsHeader addr s
        → IsTable ((addr + process.phdr_size) % addr_mod process) ss
        → IsTable addr (s ∷ ss)

  bias_loop_lem :
      (addr : ℕ) (ss : List Segment)
      → IsTable addr ss
      → bias_loop process entry (length ss) addr ≡ ok (first_code ss)
  unfolding bias_loop first_code is_code_segment
  bias_loop_lem addr _ (table_end _) = refl
  bias_loop_lem addr _ (table_next _ s ss h t) =
      rw (h.is_type, h.is_flags, h.is_offset)
        (elim (Bool-cases (s.type == pt_load && not (s.flags % 2 == 0))) [
          | inl e ↦ if_true _ _ e ∙ (h.is_vaddr ∙ ap ok (sym (if_true _ _ e)))
          | inr e ↦
              if_false _ _ e
              ∙ (bias_loop_lem ((addr + process.phdr_size) % addr_mod process) ss t
                  ∙ ap ok (sym (if_false _ _ e)))
        ])

  -- `ReadLoadBias` on a mapping whose program headers can be read: the virtual address of the first
  -- loaded segment that may be executed, false if there is none.
  pub read_load_bias-first_code :
      (phoff : ℕ) (ss : List Segment)
      → get_field process entry entry.start process.e_phnum ≡ ok (some (length ss))
      → get_field process entry entry.start process.e_phoff ≡ ok (some phoff)
      → IsTable ((entry.start + phoff) % addr_mod process) ss
      → read_load_bias process entry ≡ ok (first_code ss)
  unfolding read_load_bias
  read_load_bias-first_code phoff ss n o t = rw (n, o) (bias_loop_lem _ ss t)
