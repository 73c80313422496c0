-- ===== src/Strip/Write.antt =====
-- `HookWriteInternal` of hprof_strip.cpp: cutting one buffer on its way to the file.
pub mod Gaps
pub mod Cut
pub mod Segment
pub mod Hook
pub mod Overflow
mod Runs
use xapm.Base.{
  ℕ, zero, suc, ◌+◌, ◌-◌, ◌*◌, ◌/◌, ◌%◌, ◌^◌, Bool, not, ◌&&◌, ◌||◌, List, Option, some, Result, ok,
  fault, bad_read, ◌>>=◌, take, drop, set, length, ltb, leb, ◌==◌, if◌then◌else◌, u32_mod, u64_mod,
  int_max, sub32,
}
use xapm.Strip.Tags.{
  hprof_tag_heap_dump, hprof_tag_heap_dump_segment, heap_tag_byte_size, record_time_byte_size,
  record_length_byte_size,
}
use xapm.Strip.State.{HprofStrip, reset}
use xapm.Strip.Heap.{load, get_int_from_bytes, process_heap}
use xapm.Strip.Kernel.{Kernel, system_write, fully_write}

-- The bytes `[start, start + count)` of the buffer that a `write` is given.
pub slice : List ℕ → ℕ → ℕ → Result (List ℕ)
slice buf start count =
    if ltb start int_max && leb (start + count) (length buf)
    then ok (take count (drop start buf))
    else fault bad_read

-- An `int` as a `size_t`, or as a `ssize_t`: the sign is extended.
abbrev pub to_size : ℕ → ℕ
to_size d = if ltb d int_max then d else d + (u64_mod - u32_mod)

abbrev pub is_heap_record : ℕ → Bool
is_heap_record tag = tag == hprof_tag_heap_dump || tag == hprof_tag_heap_dump_segment

-- Where the record's length stands.
abbrev pub length_index : ℕ
length_index = heap_tag_byte_size + record_time_byte_size

-- Where the record's body starts.
abbrev pub body_index : ℕ
body_index = heap_tag_byte_size + record_time_byte_size + record_length_byte_size

-- The walk, for a heap record. A call of `ProcessHeap` that does not jump back reads at an index of
-- its own below `count`, so `count + 1` calls are enough for it.
pub scan : List ℕ → ℕ → HprofStrip → ℕ → Result HprofStrip
scan buf count s tag =
    if is_heap_record tag
    then (do
      (n, t) ← process_heap (suc count) buf body_index (count % u32_mod) 0 s
      ok (record t { heap_serial_num = (t.heap_serial_num + 1) % u32_mod }))
    else ok s

-- The four bytes of a length, written back over the buffer.
pub put_int_to_bytes : List ℕ → ℕ → ℕ → List ℕ
put_int_to_bytes buf i v =
    set
      (set (set (set buf i (v / 2 ^ 24 % 2 ^ 8)) (i + 1) (v / 2 ^ 16 % 2 ^ 8)) (i + 2)
        (v / 2 ^ 8 % 2 ^ 8))
      (i + 3) (v % 2 ^ 8)

-- The new length of a heap record.
pub update_record_length : List ℕ → ℕ → ℕ → Result (List ℕ)
update_record_length buf strip_bytes_sum tag =
    if is_heap_record tag
    then (do
      record_length ← get_int_from_bytes buf length_index
      ok (put_int_to_bytes buf length_index (sub32 record_length strip_bytes_sum)))
    else ok buf

-- `if (write_len > 0) FullyWrite(fd, buf + start, write_len)`.
pub write_range : ℕ → List ℕ → ℕ → ℕ → Kernel → Result Kernel
write_range fd buf start write_len k =
    if ltb 0 write_len then (do bytes ← slice buf start write_len; fully_write fd bytes k) else ok k

-- The loop over the strips, from the `i`-th on: what lies between two of them is written.
pub write_gaps : ℕ → List ℕ → (ℕ → ℕ) → ℕ → ℕ → ℕ → Kernel → Result (ℕ × Kernel)
write_gaps fd buf pairs zero i start k = ok (start, k)
write_gaps fd buf pairs (suc n) i start k = do
  k' ← write_range fd buf start (to_size (sub32 (pairs (i * 2)) start)) k
  write_gaps fd buf pairs n (suc i) (pairs (i * 2 + 1)) k'

-- The strips of `s` cut out of the buffer on its way to the file.
pub write_out : ℕ → List ℕ → ℕ → HprofStrip → Kernel → Result Kernel
write_out fd buf count s k = do
  (start, k') ← write_gaps fd buf s.strip_index_list_pair s.strip_index 0 0 k
  write_range fd buf start ((count + u64_mod - to_size start) % u64_mod) k'

-- What a call of `HookWriteInternal` returns and leaves behind: the result (`none` is -1), the
-- caller's buffer, in which a heap record's length is changed, the object and the files.
pub record Hooked : Type 0 where
  pub result : Option ℕ
  pub buf : List ℕ
  pub strip : HprofStrip
  pub kernel : Kernel

pub write_stripped : ℕ → List ℕ → ℕ → HprofStrip → Kernel → Result Hooked
write_stripped fd buf count s k = do
  tag ← load buf 0
  t ← scan buf count (reset s) tag
  buf' ← update_record_length buf t.strip_bytes_sum tag
  k' ← write_out fd buf' count t k
  ok (record {
    result = some count;
    buf = buf';
    strip = record t { hook_write_serial_num = (t.hook_write_serial_num + 1) % u32_mod };
    kernel = k';
  })

pub hook_write_internal : ℕ → List ℕ → ℕ → HprofStrip → Kernel → Result Hooked
hook_write_internal fd buf count s k =
    if not (fd == s.hprof_fd)
    then (do
      bytes ← slice buf 0 count
      (r, k') ← system_write fd bytes k.outcomes k.files
      ok (record { result = r; buf = buf; strip = s; kernel = k' }))
    else write_stripped fd buf count s k
