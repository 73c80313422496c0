-- ===== src/Maps/Runs.antt =====
-- Runs of the searches of map_util.hpp, and the theorems at them.
use xapm.Base.{
  ℕ, ◌+◌, ◌&&◌, ◌||◌, Bool, leb, ◌≡◌, refl, true, Option, none, some, List, [], ◌∷◌, ok, ◌==◌,
  if◌then◌else◌, strstr, starts_with, ◌↔◌, ◌++◌,
}
use xapm.Maps.Bias.{
  MapEntry, Process, get_val, get_field, bias_loop, read_load_bias, read_value, is_code_segment,
}
use xapm.Maps.Bias.Headers.{
  Segment, first_code, IsHeader, table_end, table_next, read_load_bias-first_code,
}
use xapm.Maps.Names.{ends_with, is_last, ends_with_iff, OnlyLast}
use xapm.Maps.Find.{
  Scanned, get_load_info_by_maps, get_load_info, entry_of, maps_loop, match_entry, bias_of,
  load_info, parse_entry, char_at, strip_newline,
}
use xapm.Maps.Find.Located.{get_load_info-HasName}
use xapm.Maps.Find.Matches.{HasName}

-- A 64-bit file at 4096 with one program header, at offset 64: code at address 32.
abbrev header_word : ℕ → ℕ
header_word a =
    if a == 4152
    then 1
    else if a == 4128
    then 64
    else if a == 4160
    then 1
    else if a == 4164
    then 5
    else if a == 4176
    then 32
    else 0

-- Only the mapping can be read, and the last value of the address space.
abbrev in_mapping : ℕ → ℕ → Bool
in_mapping a w = (leb 4096 a && leb (a + w) 8192) || a + w == 18446744073709551616

abbrev memory : ℕ → ℕ → Option ℕ
memory a w = if in_mapping a w then some (header_word a) else none

abbrev process : Process
process = record {
  word_size = 8;
  memory = memory;
  e_phnum = record { at = 56; width = 2 };
  e_phoff = record { at = 32; width = 8 };
  p_type = record { at = 0; width = 4 };
  p_flags = record { at = 4; width = 4 };
  p_offset = record { at = 8; width = 8 };
  p_vaddr = record { at = 16; width = 8 };
  phdr_size = 56;
}

abbrev so_name : List ℕ
so_name = b'a' ∷ b'.' ∷ b's' ∷ b'o' ∷ []

abbrev mapped : MapEntry
mapped = record {
  name = b'/' ∷ so_name;
  start = 4096;
  end = 8192;
  offset = 0;
  prot_read = true;
  prot_exec = true;
}

-- No byte before the mapping.
unmapped : process.memory 4088 8 ≡ none
unmapped = refl

abbrev code_segment : Segment
code_segment = record { type = 1; flags = 5; segment_offset = 0; vaddr = 32 }

code_segment-IsHeader : IsHeader process mapped 4160 code_segment
unfolding get_field get_val read_value
code_segment-IsHeader = record {
  is_type = refl;
  is_flags = refl;
  is_offset = refl;
  is_vaddr = refl;
}

phnum_read : get_field process mapped mapped.start process.e_phnum ≡ ok (some 1)
unfolding get_field get_val read_value
phnum_read = refl

phoff_read : get_field process mapped mapped.start process.e_phoff ≡ ok (some 64)
unfolding get_field get_val read_value
phoff_read = refl

read_load_bias-first_code_example :
    read_load_bias process mapped ≡ ok (first_code (code_segment ∷ []))
read_load_bias-first_code_example =
    read_load_bias-first_code process mapped 64 (code_segment ∷ []) phnum_read phoff_read
      (table_next 4160 code_segment [] code_segment-IsHeader (table_end 4216))

-- A mapping that is not scanned, and one of the file.
abbrev lines : List (Option Scanned)
lines =
    none
    ∷ some (record {
      scanned_start = 4096;
      scanned_end = 8192;
      permissions = b'r' ∷ b'-' ∷ b'x' ∷ b'p' ∷ [];
      scanned_offset = 0;
      map_name = b'/' ∷ b'a' ∷ b'.' ∷ b's' ∷ b'o' ∷ b'\n' ∷ [];
    })
    ∷ []

finds_so : get_load_info_by_maps process so_name (some lines) ≡ ok (some (4064, b'/' ∷ so_name))
unfolding get_load_info_by_maps maps_loop match_entry bias_of load_info entry_of parse_entry char_at
    strip_newline ends_with is_last strstr starts_with read_load_bias bias_loop is_code_segment
    get_field get_val read_value
finds_so = refl

gets_so : get_load_info process so_name 21 (some lines) [] ≡ ok (some (4064, b'/' ∷ so_name))
unfolding get_load_info
gets_so = finds_so

get_load_info-HasName_example : HasName process so_name (b'/' ∷ so_name)
get_load_info-HasName_example =
    get_load_info-HasName process so_name 21 (some lines) [] 4064 (b'/' ∷ so_name) gets_so

ends_with_iff_example :
    (ends_with (b'/' ∷ so_name) so_name ≡ true)
    ↔ (((front : List ℕ) × (b'/' ∷ so_name ≡ front ++ so_name)) × OnlyLast (b'/' ∷ so_name) so_name)
ends_with_iff_example = ends_with_iff (b'/' ∷ so_name) so_name
