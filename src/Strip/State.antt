-- ===== src/Strip/State.antt =====
-- The members of class HprofStrip (hprof_strip.h), its constructor and its setters.
pub mod Strips
use xapm.Base.{
  ℕ, suc, ◌+◌, ◌-◌, ◌*◌, ◌%◌, Bool, false, List, [], Result, ok, fault, bad_write, ltb, ◌==◌,
  if◌then◌else◌, u32_mod,
}

-- An `int` member is its 32-bit pattern. `strip_index_list_pair` is the array's contents; reads and
-- writes are checked against `strip_list_length` where they happen.
pub record HprofStrip : Type 0 where
  pub hprof_fd : ℕ
  pub strip_bytes_sum : ℕ
  pub heap_serial_num : ℕ
  pub hook_write_serial_num : ℕ
  pub strip_index : ℕ
  pub is_hook_success : Bool
  pub is_current_system_heap : Bool
  pub hprof_name : List ℕ
  pub strip_index_list_pair : ℕ → ℕ

-- kStripListLength.
abbrev pub strip_list_length : ℕ
strip_list_length = 65536 * 2 * 2 + 2

-- The file descriptor -1.
abbrev pub fd_none : ℕ
fd_none = u32_mod - 1

pub new_hprof_strip : HprofStrip
new_hprof_strip = record {
  hprof_fd = fd_none;
  strip_bytes_sum = 0;
  heap_serial_num = 0;
  hook_write_serial_num = 0;
  strip_index = 0;
  is_hook_success = false;
  is_current_system_heap = false;
  hprof_name = [];
  strip_index_list_pair = λ j. 0;
}

unfoldable pub set_hprof_name : HprofStrip → List ℕ → HprofStrip
set_hprof_name s name = record s { hprof_name = name }

unfoldable pub reset : HprofStrip → HprofStrip
reset s = record s { strip_index = 0; strip_bytes_sum = 0 }

-- `strip_index_list_pair_[j] = v`.
abbrev pub update : (ℕ → ℕ) → ℕ → ℕ → ℕ → ℕ
update a j v i = if i == j then v else a i

-- `strip_index_list_pair_[strip_index_ * 2] = left`, the same with `+ 1` and `right`, and
-- `strip_index_++`. The index is not negative, so the two writes are in bounds together or not.
pub push_strip : HprofStrip → ℕ → ℕ → Result HprofStrip
push_strip s left right =
    let k = s.strip_index in
    if ltb (k * 2 + 1) strip_list_length
    then ok (record s {
      strip_index = suc k;
      strip_index_list_pair =
          update (update s.strip_index_list_pair (k * 2) left) (k * 2 + 1) right;
    })
    else fault bad_write

-- `strip_bytes_sum_ += n`.
pub add_strip_bytes : HprofStrip → ℕ → HprofStrip
add_strip_bytes s n = record s { strip_bytes_sum = (s.strip_bytes_sum + n) % u32_mod }
