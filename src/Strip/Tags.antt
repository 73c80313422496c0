-- ===== src/Strip/Tags.antt =====
-- The enumerations of hprof/hprofclipper/src/main/cpp/hprof_strip.cpp, and the sizes of values.
use xapm.Base.{ℕ, ◌≡◌, refl, ◌||◌, Option, none, some, ◌==◌, if◌then◌else◌}

-- The record tags that `HookWriteInternal` tells apart; it treats all others alike.
abbrev pub hprof_tag_heap_dump : ℕ
hprof_tag_heap_dump = 0x0C

abbrev pub hprof_tag_heap_dump_segment : ℕ
hprof_tag_heap_dump_segment = 0x1C

-- enum HprofHeapTag.
pub data HprofHeapTag : Type 0 where
  root_unknown root_jni_global root_jni_local root_java_frame root_native_stack : HprofHeapTag
  root_sticky_class root_thread_block root_monitor_used root_thread_object : HprofHeapTag
  class_dump instance_dump object_array_dump primitive_array_dump : HprofHeapTag
  heap_dump_info root_interned_string root_finalizing root_debugger : HprofHeapTag
  root_reference_cleanup root_vm_internal root_jni_monitor unreachable : HprofHeapTag
  primitive_array_nodata_dump : HprofHeapTag

-- The value of each enumerator.
pub heap_tag_value : HprofHeapTag → ℕ
heap_tag_value root_unknown = 0xFF
heap_tag_value root_jni_global = 0x01
heap_tag_value root_jni_local = 0x02
heap_tag_value root_java_frame = 0x03
heap_tag_value root_native_stack = 0x04
heap_tag_value root_sticky_class = 0x05
heap_tag_value root_thread_block = 0x06
heap_tag_value root_monitor_used = 0x07
heap_tag_value root_thread_object = 0x08
heap_tag_value class_dump = 0x20
heap_tag_value instance_dump = 0x21
heap_tag_value object_array_dump = 0x22
heap_tag_value primitive_array_dump = 0x23
heap_tag_value heap_dump_info = 0xfe
heap_tag_value root_interned_string = 0x89
heap_tag_value root_finalizing = 0x8a
heap_tag_value root_debugger = 0x8b
heap_tag_value root_reference_cleanup = 0x8c
heap_tag_value root_vm_internal = 0x8d
heap_tag_value root_jni_monitor = 0x8e
heap_tag_value unreachable = 0x90
heap_tag_value primitive_array_nodata_dump = 0xc3

-- The label of `switch (subtag)` that a byte selects; `none` is `default`.
pub heap_tag_of_byte : ℕ → Option HprofHeapTag
heap_tag_of_byte b =
    if b == 0xFF
    then some root_unknown
    else if b == 0x01
    then some root_jni_global
    else if b == 0x02
    then some root_jni_local
    else if b == 0x03
    then some root_java_frame
    else if b == 0x04
    then some root_native_stack
    else if b == 0x05
    then some root_sticky_class
    else if b == 0x06
    then some root_thread_block
    else if b == 0x07
    then some root_monitor_used
    else if b == 0x08
    then some root_thread_object
    else if b == 0x20
    then some class_dump
    else if b == 0x21
    then some instance_dump
    else if b == 0x22
    then some object_array_dump
    else if b == 0x23
    then some primitive_array_dump
    else if b == 0xfe
    then some heap_dump_info
    else if b == 0x89
    then some root_interned_string
    else if b == 0x8a
    then some root_finalizing
    else if b == 0x8b
    then some root_debugger
    else if b == 0x8c
    then some root_reference_cleanup
    else if b == 0x8d
    then some root_vm_internal
    else if b == 0x8e
    then some root_jni_monitor
    else if b == 0x90
    then some unreachable
    else if b == 0xc3
    then some primitive_array_nodata_dump
    else none

-- enum HprofBasicType.
abbrev pub hprof_basic_object : ℕ
hprof_basic_object = 2

abbrev pub hprof_basic_boolean : ℕ
hprof_basic_boolean = 4

abbrev pub hprof_basic_char : ℕ
hprof_basic_char = 5

abbrev pub hprof_basic_float : ℕ
hprof_basic_float = 6

abbrev pub hprof_basic_double : ℕ
hprof_basic_double = 7

abbrev pub hprof_basic_byte : ℕ
hprof_basic_byte = 8

abbrev pub hprof_basic_short : ℕ
hprof_basic_short = 9

abbrev pub hprof_basic_int : ℕ
hprof_basic_int = 10

abbrev pub hprof_basic_long : ℕ
hprof_basic_long = 11

-- The two heap ids, of enum HprofHeapId, that make a heap a system heap.
abbrev pub hprof_heap_zygote : ℕ
hprof_heap_zygote = b'Z'

abbrev pub hprof_heap_image : ℕ
hprof_heap_image = b'I'

-- enum HprofTagBytes, and `U4` as `u4_size`.
abbrev pub object_id_byte_size : ℕ
object_id_byte_size = 4

abbrev pub jni_global_ref_id_byte_size : ℕ
jni_global_ref_id_byte_size = 4

abbrev pub class_id_byte_size : ℕ
class_id_byte_size = 4

abbrev pub class_loader_id_byte_size : ℕ
class_loader_id_byte_size = 4

abbrev pub instance_size_byte_size : ℕ
instance_size_byte_size = 4

abbrev pub constant_pool_length_byte_size : ℕ
constant_pool_length_byte_size = 2

abbrev pub static_field_length_byte_size : ℕ
static_field_length_byte_size = 2

abbrev pub instance_field_length_byte_size : ℕ
instance_field_length_byte_size = 2

abbrev pub stack_trace_serial_number_byte_size : ℕ
stack_trace_serial_number_byte_size = 4

abbrev pub record_time_byte_size : ℕ
record_time_byte_size = 4

abbrev pub record_length_byte_size : ℕ
record_length_byte_size = 4

abbrev pub string_id_byte_size : ℕ
string_id_byte_size = 4

abbrev pub heap_tag_byte_size : ℕ
heap_tag_byte_size = 1

abbrev pub thread_serial_byte_size : ℕ
thread_serial_byte_size = 4

abbrev pub constant_poll_index_byte_size : ℕ
constant_poll_index_byte_size = 2

abbrev pub basic_type_byte_size : ℕ
basic_type_byte_size = 1

abbrev pub heap_type_byte_size : ℕ
heap_type_byte_size = 4

abbrev pub u4_size : ℕ
u4_size = 4

unfoldable pub get_byte_size_from_type : ℕ → ℕ
get_byte_size_from_type t =
    if t == hprof_basic_boolean || t == hprof_basic_byte
    then 1
    else if t == hprof_basic_char || t == hprof_basic_short
    then 2
    else if t == hprof_basic_float || t == hprof_basic_int || t == hprof_basic_object
    then 4
    else if t == hprof_basic_long || t == hprof_basic_double
    then 8
    else 0

-- The labels are told apart by their values.
pub heap_tag_of_byte-value : (t : HprofHeapTag) → heap_tag_of_byte (heap_tag_value t) ≡ some t
unfolding heap_tag_of_byte heap_tag_value
heap_tag_of_byte-value root_unknown = refl
heap_tag_of_byte-value _ = refl
