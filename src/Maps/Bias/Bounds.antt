-- ===== src/Maps/Bias/Bounds.antt =====
-- `ReadLoadBias` of map_util.hpp reads nothing outside of the mapping, whatever the file says.
use xapm.Base.{ℕ, ◌+◌, ◌*◌, ◌%◌, ◌≤◌, ◌≡◌, ◌≢◌, ◌⊎◌, Option, some, Result, ok}
use xapm.Maps.Bias.{MapEntry, Process, addr_mod}

module _ (process : Process) where
  -- Within the mapping, or the last word of the address space.
  abbrev pub IsInside : MapEntry → ℕ → ℕ → Type 0
  IsInside entry addr width =
      ((entry.start ≤ addr) × (addr + width ≤ entry.end)) ⊎ (addr + width ≡ addr_mod process)

  -- The width is that of a machine type: the address space is a whole number of them.
  abbrev pub IsWidth : ℕ → Type 0
  IsWidth width = (width ≢ 0) × ((k : ℕ) × (k * width ≡ addr_mod process))

  -- Every aligned value of a machine type inside of the mapping can be read.
  abbrev pub IsMapped : MapEntry → Type 0
  IsMapped entry =
      (addr width : ℕ)
      → IsWidth width
      → addr % width ≡ 0
      → IsInside entry addr width
      → (v : ℕ) × (process.memory addr width ≡ some v)

  -- The fields that are read have the widths of machine types.
  abbrev pub HasWidths : Type 0
  HasWidths =
      IsWidth process.e_phnum.width
      × IsWidth process.e_phoff.width
      × IsWidth process.p_type.width
      × IsWidth process.p_flags.width
      × IsWidth process.p_offset.width
      × IsWidth process.p_vaddr.width

  abbrev pub Returns : Result (Option ℕ) → Type 0
  Returns m = (o : Option ℕ) × (m ≡ ok o)
