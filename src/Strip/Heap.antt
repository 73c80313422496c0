-- ===== src/Strip/Heap.antt =====
-- `ProcessHeap` of hprof_strip.cpp: the walk over the sub-records of a heap dump segment.
pub mod Cursor
pub mod Classes
pub mod Steps
pub mod Whole
pub mod Primitives
pub mod Records
pub mod Walk
pub mod Full
pub mod Endless
use xapm.Base.{
  ℕ, zero, suc, ◌+◌, ◌*◌, ◌%◌, ◌^◌, ◌||◌, Option, none, some, List, get_elem?, Result, ok, fault,
  stuck, bad_read, ◌>>=◌, ltb, ◌==◌, if◌then◌else◌, u32_mod, int_max, add32, sub32, mul32, ge_int,
}
use xapm.Strip.Tags
use xapm.Strip.Tags.{
  HprofHeapTag, heap_tag_of_byte, get_byte_size_from_type, hprof_heap_zygote, hprof_heap_image,
  object_id_byte_size, jni_global_ref_id_byte_size, class_id_byte_size, class_loader_id_byte_size,
  instance_size_byte_size, constant_pool_length_byte_size, static_field_length_byte_size,
  instance_field_length_byte_size, stack_trace_serial_number_byte_size, string_id_byte_size,
  heap_tag_byte_size, thread_serial_byte_size, constant_poll_index_byte_size, basic_type_byte_size,
  heap_type_byte_size, u4_size,
}
use xapm.Strip.State.{HprofStrip, push_strip, add_strip_bytes}

or_bad_read : Option ℕ → Result ℕ
or_bad_read none = fault bad_read
or_bad_read (some b) = ok b

-- `buf[index]` at an `int` index. Outside the buffer, or in front of it, there is no value.
pub load : List ℕ → ℕ → Result ℕ
unfolding or_bad_read
load buf i = if ltb i int_max then or_bad_read (get_elem? buf i) else fault bad_read

pub get_short_from_bytes : List ℕ → ℕ → Result ℕ
get_short_from_bytes buf i = do
  b0 ← load buf i
  b1 ← load buf (add32 i 1)
  ok ((b0 * 2 ^ 8 + b1) % u32_mod)

pub get_int_from_bytes : List ℕ → ℕ → Result ℕ
get_int_from_bytes buf i = do
  b0 ← load buf i
  b1 ← load buf (add32 i 1)
  b2 ← load buf (add32 i 2)
  b3 ← load buf (add32 i 3)
  ok ((b0 * 2 ^ 24 + b1 * 2 ^ 16 + b2 * 2 ^ 8 + b3) % u32_mod)

-- Where one sub-record leads: `ProcessHeap` returns, or calls itself at `index`.
pub data Turn : Type 0 where
  stop : Turn
  go : (index : ℕ) (array_serial_no : ℕ) → HprofStrip → Turn

-- The loop over `n` entries that each have `lead` bytes, a type and a value of that type.
pub skip_entries : List ℕ → ℕ → ℕ → ℕ → Result ℕ
skip_entries buf lead zero index = ok index
skip_entries buf lead (suc n) index = do
  type ← load buf (add32 index lead)
  skip_entries buf lead n (add32 index (lead + basic_type_byte_size + get_byte_size_from_type type))

pub process_class_dump : List ℕ → ℕ → Result ℕ
process_class_dump buf first_index = do
  let pool = add32 first_index (
      heap_tag_byte_size + class_id_byte_size + stack_trace_serial_number_byte_size
      + class_id_byte_size + class_loader_id_byte_size + object_id_byte_size + object_id_byte_size
      + object_id_byte_size + object_id_byte_size + instance_size_byte_size)
  constant_pool_size ← get_short_from_bytes buf pool
  statics ←
      skip_entries buf constant_poll_index_byte_size constant_pool_size
        (add32 pool constant_pool_length_byte_size)
  static_fields_size ← get_short_from_bytes buf statics
  fields ←
      skip_entries buf string_id_byte_size static_fields_size
        (add32 statics static_field_length_byte_size)
  instance_fields_size ← get_short_from_bytes buf fields
  ok (
      add32 (add32 fields instance_field_length_byte_size)
        (mul32 (basic_type_byte_size + string_id_byte_size) instance_fields_size))

-- A system heap's record is cut out whole, from `first_index` up to `next`.
unfoldable pub strip_in_system_heap : HprofStrip → ℕ → ℕ → Result HprofStrip
strip_in_system_heap s first_index next =
    if s.is_current_system_heap
    then (do t ← push_strip s first_index next; ok (add_strip_bytes t (sub32 next first_index)))
    else ok s

pub process_instance_dump : List ℕ → ℕ → ℕ → HprofStrip → Result Turn
unfolding strip_in_system_heap
process_instance_dump buf first_index serial s = do
  let instance_dump_index = add32 first_index (
      heap_tag_byte_size + object_id_byte_size + stack_trace_serial_number_byte_size
      + class_id_byte_size)
  instance_size ← get_int_from_bytes buf instance_dump_index
  let next = add32 (add32 instance_dump_index u4_size) instance_size
  t ← strip_in_system_heap s first_index next
  ok (go next serial t)

pub process_object_array_dump : List ℕ → ℕ → ℕ → HprofStrip → Result Turn
unfolding strip_in_system_heap
process_object_array_dump buf first_index serial s = do
  length ← get_int_from_bytes buf (
      add32 first_index
        (heap_tag_byte_size + object_id_byte_size + stack_trace_serial_number_byte_size))
  let next = add32 first_index (
      add32
        (heap_tag_byte_size + object_id_byte_size + stack_trace_serial_number_byte_size + u4_size
          + class_id_byte_size)
        (mul32 u4_size length))
  t ← strip_in_system_heap s first_index next
  ok (go next serial t)

-- Cut in every heap; outside the system heaps the array's head stays, and the sum does not count it.
pub process_primitive_array_dump : List ℕ → ℕ → ℕ → HprofStrip → Result Turn
process_primitive_array_dump buf first_index serial s = do
  let length_index =
      add32 first_index
        (heap_tag_byte_size + object_id_byte_size + stack_trace_serial_number_byte_size)
  length ← get_int_from_bytes buf length_index
  let type_index = add32 length_index u4_size
  type ← load buf type_index
  let left = if s.is_current_system_heap then first_index else add32 type_index basic_type_byte_size
  let next =
      add32 type_index (add32 basic_type_byte_size (mul32 (get_byte_size_from_type type) length))
  t ← push_strip s left next
  ok (
      go next (add32 serial 1)
        (if s.is_current_system_heap then add_strip_bytes t (sub32 next first_index) else t))

pub process_heap_dump_info : List ℕ → ℕ → ℕ → HprofStrip → Result Turn
unfolding strip_in_system_heap
process_heap_dump_info buf first_index serial s = do
  heap_type ← load buf (add32 first_index (heap_tag_byte_size + 3))
  let system = heap_type == hprof_heap_zygote || heap_type == hprof_heap_image
  let next = add32 first_index (heap_tag_byte_size + heap_type_byte_size + string_id_byte_size)
  t ← strip_in_system_heap (record s { is_current_system_heap = system }) first_index next
  ok (go next serial t)

-- A record of a fixed size is passed over.
pub skip : ℕ → ℕ → ℕ → HprofStrip → Result Turn
skip first_index size serial s = ok (go (add32 first_index size) serial s)

-- `switch (subtag)`.
pub sub_record : List ℕ → ℕ → ℕ → HprofStrip → Option HprofHeapTag → Result Turn
unfolding skip
sub_record buf i n s none = ok stop
sub_record buf i n s (some Tags.root_unknown) =
    skip i (heap_tag_byte_size + object_id_byte_size) n s
sub_record buf i n s (some Tags.root_sticky_class) =
    skip i (heap_tag_byte_size + object_id_byte_size) n s
sub_record buf i n s (some Tags.root_monitor_used) =
    skip i (heap_tag_byte_size + object_id_byte_size) n s
sub_record buf i n s (some Tags.root_interned_string) =
    skip i (heap_tag_byte_size + object_id_byte_size) n s
sub_record buf i n s (some Tags.root_debugger) =
    skip i (heap_tag_byte_size + object_id_byte_size) n s
sub_record buf i n s (some Tags.root_vm_internal) =
    skip i (heap_tag_byte_size + object_id_byte_size) n s
sub_record buf i n s (some Tags.root_jni_global) =
    skip i (heap_tag_byte_size + object_id_byte_size + jni_global_ref_id_byte_size) n s
sub_record buf i n s (some Tags.root_jni_local) =
    skip i (heap_tag_byte_size + object_id_byte_size + thread_serial_byte_size + u4_size) n s
sub_record buf i n s (some Tags.root_java_frame) =
    skip i (heap_tag_byte_size + object_id_byte_size + thread_serial_byte_size + u4_size) n s
sub_record buf i n s (some Tags.root_jni_monitor) =
    skip i (heap_tag_byte_size + object_id_byte_size + thread_serial_byte_size + u4_size) n s
sub_record buf i n s (some Tags.root_native_stack) =
    skip i (heap_tag_byte_size + object_id_byte_size + thread_serial_byte_size) n s
sub_record buf i n s (some Tags.root_thread_block) =
    skip i (heap_tag_byte_size + object_id_byte_size + thread_serial_byte_size) n s
sub_record buf i n s (some Tags.root_thread_object) =
    skip i (heap_tag_byte_size + object_id_byte_size + thread_serial_byte_size + u4_size) n s
sub_record buf i n s (some Tags.class_dump) = do next ← process_class_dump buf i; ok (go next n s)
sub_record buf i n s (some Tags.instance_dump) = process_instance_dump buf i n s
sub_record buf i n s (some Tags.object_array_dump) = process_object_array_dump buf i n s
sub_record buf i n s (some Tags.primitive_array_dump) = process_primitive_array_dump buf i n s
sub_record buf i n s (some Tags.heap_dump_info) = process_heap_dump_info buf i n s
sub_record buf i n s (some Tags.root_finalizing) = skip i heap_tag_byte_size n s
sub_record buf i n s (some Tags.root_reference_cleanup) = skip i heap_tag_byte_size n s
sub_record buf i n s (some Tags.unreachable) = skip i heap_tag_byte_size n s
sub_record buf i n s (some Tags.primitive_array_nodata_dump) = skip i heap_tag_byte_size n s

-- One call of `ProcessHeap` without the call that it ends in.
pub heap_turn : List ℕ → ℕ → ℕ → ℕ → HprofStrip → Result Turn
heap_turn buf first_index max_len n s = if ge_int first_index max_len then ok stop else (do
  subtag ← load buf first_index
  sub_record buf first_index n s (heap_tag_of_byte subtag))

-- `heap_serial_no` is passed on and never read, so it is left out. The number of nested calls is
-- bounded by the fuel.
pub process_heap : ℕ → List ℕ → ℕ → ℕ → ℕ → HprofStrip → Result (ℕ × HprofStrip)
process_heap zero buf first_index max_len n s = stuck
process_heap (suc fuel) buf first_index max_len n s =
    heap_turn buf first_index max_len n s
    >>= elim [ stop ↦ ok (n, s) | go i m t ↦ process_heap fuel buf i max_len m t ]
