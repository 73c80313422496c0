-- ===== src/Maps/Find.antt =====
-- `GetLoadInfoByMaps`, `GetLoadInfoByDl` and `GetLoadInfo` of map_util.hpp. What sscanf makes of a
-- line of /proc/self/maps and the objects that dl_iterate_phdr shows are the arguments here.
pub mod Located
pub mod Matches
use xapm.Base.{
  ℕ, zero, suc, ◌+◌, ◌-◌, ◌%◌, ◌≡◌, Bool, true, false, not, ◌&&◌, ◌||◌, List, [], ◌∷◌, Option, none,
  some, Result, ok, ◌>>=◌, ◌==◌, ltb, if◌then◌else◌,
}
use xapm.Maps.Bias.{MapEntry, Process, addr_mod, read_load_bias}
use xapm.Maps.Names.{ends_with}

-- A line that has at least the four values of sscanf, with the rest of it from `name_pos` on.
pub record Scanned : Type 0 where
  pub scanned_start : ℕ
  pub scanned_end : ℕ
  pub permissions : List ℕ
  pub scanned_offset : ℕ
  pub map_name : List ℕ

-- Character `i` of a text, 0 behind its end.
unfoldable pub char_at : List ℕ → ℕ → ℕ
char_at [] i = 0
char_at (c ∷ t) zero = c
char_at (c ∷ t) (suc i) = char_at t i

-- A name without the newline behind it.
unfoldable pub strip_newline : List ℕ → List ℕ
strip_newline [] = []
strip_newline (c ∷ []) = if c == b'\n' then [] else c ∷ []
strip_newline (c ∷ (d ∷ t)) = c ∷ strip_newline (d ∷ t)

-- `MapEntry prev_entry = {}`.
abbrev pub no_entry : MapEntry
no_entry = record {
  name = [];
  start = 0;
  end = 0;
  offset = 0;
  prot_read = false;
  prot_exec = false;
}

-- `parse_line` and the name behind it.
unfoldable pub parse_entry : Scanned → MapEntry
unfolding strip_newline
parse_entry s = record {
  name = strip_newline s.map_name;
  start = s.scanned_start;
  end = s.scanned_end;
  offset = s.scanned_offset;
  prot_read = char_at s.permissions 0 == b'r';
  prot_exec = char_at s.permissions 2 == b'x';
}

-- The entry that a line gives, `none` where the loop goes on at once: a line that is not scanned,
-- or flags that are PROT_NONE.
unfoldable pub entry_of : Option Scanned → Option MapEntry
entry_of none = none
entry_of (some s) =
    let e = parse_entry s in if not e.prot_read && not e.prot_exec then none else some e

module _ (process : Process) (name : List ℕ) where
  -- The bias that the loop takes for an entry that is executable and has the name: its own file
  -- header's, or the one of the entry before, which must be readable, of offset 0 and of the name.
  unfoldable pub bias_of : MapEntry → MapEntry → Result (Option ℕ)
  bias_of prev_entry curr_entry =
      if curr_entry.offset == 0
      then read_load_bias process curr_entry
      else if ends_with prev_entry.name name
          && (prev_entry.offset == 0 && (prev_entry.prot_read && not prev_entry.prot_exec))
      then read_load_bias process prev_entry
      else ok none

  -- One entry: the bias, or `none` where the loop goes on.
  unfoldable pub match_entry : MapEntry → MapEntry → Result (Option ℕ)
  match_entry prev_entry curr_entry =
      if curr_entry.prot_exec && ends_with curr_entry.name name
      then bias_of prev_entry curr_entry
      else ok none

  -- `curr_entry.start - load_bias`, and the name.
  unfoldable pub load_info : MapEntry → ℕ → ℕ × List ℕ
  load_info e load_bias =
      ((e.start + addr_mod process - load_bias % addr_mod process) % addr_mod process, e.name)

  -- The loop over the lines.
  unfoldable pub maps_loop : MapEntry → List (Option Scanned) → Result (Option (ℕ × List ℕ))
  maps_loop prev_entry [] = ok none
  maps_loop prev_entry (line ∷ lines) = elim (entry_of line) [
    | none ↦ maps_loop prev_entry lines
    | some e ↦ do
      found ← match_entry prev_entry e
      elim found [ some load_bias ↦ ok (some (load_info e load_bias)) | none ↦ maps_loop e lines ]
  ]

  -- `GetLoadInfoByMaps`; `none` for the file is where fopen fails.
  unfoldable pub get_load_info_by_maps :
      Option (List (Option Scanned)) → Result (Option (ℕ × List ℕ))
  get_load_info_by_maps none = ok none
  get_load_info_by_maps (some lines) = maps_loop no_entry lines

  -- The callback of dl_iterate_phdr, called for one object after the other until it is not 0.
  unfoldable pub dl_loop : List (Option (List ℕ) × ℕ) → ℕ × List ℕ
  dl_loop [] = (0, [])
  dl_loop ((none, dlpi_addr) ∷ objects) = dl_loop objects
  dl_loop ((some dlpi_name, dlpi_addr) ∷ objects) =
      if ends_with dlpi_name name then (dlpi_addr, dlpi_name) else dl_loop objects

  unfoldable pub found_by_dl : ℕ × List ℕ → Option (ℕ × List ℕ)
  found_by_dl (load_base, full_name) = if load_base == 0 then none else some (load_base, full_name)

  unfoldable pub get_load_info_by_dl : List (Option (List ℕ) × ℕ) → Option (ℕ × List ℕ)
  get_load_info_by_dl objects = found_by_dl (dl_loop objects)

  -- `GetLoadInfo`: the dynamic linker from Android 6 on.
  unfoldable pub get_load_info :
      ℕ → Option (List (Option Scanned)) → List (Option (List ℕ) × ℕ) → Result (Option (ℕ × List ℕ))
  get_load_info android_api maps objects =
      if ltb 22 android_api then ok (get_load_info_by_dl objects) else get_load_info_by_maps maps
