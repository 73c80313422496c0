-- ===== src/Strip/Runs.antt =====
-- Runs of the hooks of hprof_strip.cpp on a small heap dump, and the theorems at it.
use xapm.Base.{
  ℕ, ◌+◌, ◌-◌, ◌≤◌, ◌≡◌, refl, true, false, Option, some, List, [], ◌∷◌, ◌++◌, ok, stuck, ◌>>=◌,
  arith, All, replicate, u32_mod,
}
use xapm.Strip.Tags
use xapm.Strip.Tags.{HprofHeapTag, heap_tag_value, get_byte_size_from_type}
use xapm.Strip.State.{HprofStrip}
use xapm.Strip.State.Strips.{Stepped}
use xapm.Strip.Kernel.{Kernel, failed, accepted, append_file, system_write, fully_write, write_loop}
use xapm.Strip.Kernel.Loop.{progress, fully_write_lem, write_loop_failing}
use xapm.Strip.Format.{HeapRecord, root, instances, primitives, info, encode_all, IsRecord, u4}
use xapm.Strip.Spec.{ranges, lost_all}
use xapm.Strip.Heap.{process_heap, get_int_from_bytes}
use xapm.Strip.Heap.Walk.{process_heap_lem}
use xapm.Strip.Heap.Endless.{process_heap-endless}
use xapm.Strip.Write.Segment.{segment, Stripped}
use xapm.Strip.Write.Hook.{hook_write-segment, hook_write-record_length, hook_write-other_fd}
use xapm.Strip.Write.{hook_write_internal, Hooked}
use xapm.Strip.Open.{hook_open_internal, Noted, hook_open_internal_lem}

abbrev zeros : ℕ → List ℕ
zeros n = replicate n 0

-- An app heap with a byte array and a root, then the zygote heap with an instance.
abbrev small_dump : List HeapRecord
small_dump =
    info (zeros 3) b'A' (zeros 4)
    ∷ primitives (zeros 8) 2 8 (11 ∷ 12 ∷ [])
    ∷ root Tags.root_unknown (zeros 4)
    ∷ info (zeros 3) b'Z' (zeros 4)
    ∷ instances (zeros 12) (9 ∷ [])
    ∷ []

abbrev opened : HprofStrip
opened = record {
  hprof_fd = 7;
  strip_bytes_sum = 0;
  heap_serial_num = 0;
  hook_write_serial_num = 0;
  strip_index = 0;
  is_hook_success = true;
  is_current_system_heap = false;
  hprof_name = b'd' ∷ [];
  strip_index_list_pair = λ j. 0;
}

-- It fails once and then takes one byte at a time.
abbrev slow_kernel : Kernel
slow_kernel = record { files = λ g. []; outcomes = failed ∷ replicate 80 (accepted 1) }

small_dump-IsRecord : All IsRecord small_dump
unfolding get_byte_size_from_type
small_dump-IsRecord = (omega arith, (omega arith, (refl, (omega arith, (omega arith, tt)))))

hook_write-segment_example :
    (h : Hooked) × (hook_write_internal 7
        (segment 0x1C 5 57 (encode_all small_dump))
        66
        opened
        slow_kernel
      ≡ ok h)
    × Stripped 7 0x1C 5 57 small_dump opened slow_kernel h
hook_write-segment_example =
    hook_write-segment 7 0x1C 5 57 small_dump opened slow_kernel refl refl (omega arith)
      small_dump-IsRecord (omega arith) (omega arith) (omega arith)

hook_write-record_length_example :
    (h : Hooked) × (hook_write_internal 7
        (segment 0x0C 5 57 (encode_all small_dump))
        66
        opened
        slow_kernel
      ≡ ok h)
    × (get_int_from_bytes h.buf 5 ≡ ok 30)
hook_write-record_length_example =
    hook_write-record_length 7 0x0C 5 small_dump opened slow_kernel refl refl small_dump-IsRecord
      (omega arith) (omega arith) (omega arith)

hook_write-other_fd_example : hook_write_internal 3 (1 ∷ 2 ∷ []) 2 opened slow_kernel ≡ (
    system_write 3 (1 ∷ 2 ∷ []) slow_kernel.outcomes slow_kernel.files
    >>= λ (p : Option ℕ × Kernel).
        ok (record { result = p.0; buf = 1 ∷ 2 ∷ []; strip = opened; kernel = p.1 }))
hook_write-other_fd_example =
    hook_write-other_fd 3 (1 ∷ 2 ∷ []) opened slow_kernel (omega arith) (omega arith)

fully_write_lem_example :
    (k : Kernel) × (fully_write 7 (4 ∷ 5 ∷ []) slow_kernel ≡ ok k)
    × (k.files ≡ append_file slow_kernel.files 7 (4 ∷ 5 ∷ []))
    × (80 ≤ progress k.outcomes + 2)
fully_write_lem_example = fully_write_lem 7 (4 ∷ 5 ∷ []) slow_kernel (omega arith)

write_loop_failing_example : write_loop 7 (failed ∷ failed ∷ []) (4 ∷ []) slow_kernel.files ≡ stuck
write_loop_failing_example =
    write_loop_failing 7 (failed ∷ failed ∷ []) (4 ∷ []) slow_kernel.files (refl, (refl, tt))
      (λ e. cc)

process_heap_lem_example :
    (t : HprofStrip) × (process_heap 6 (encode_all small_dump) 0 57 0 opened ≡ ok (1, t))
    × Stepped opened t true (ranges false 0 small_dump) (lost_all false small_dump)
process_heap_lem_example =
    process_heap_lem small_dump 6 0 0 57 opened false refl (omega arith) (omega arith)
      small_dump-IsRecord (record { here = refl; within = omega arith }) refl (omega arith)

abbrev backwards : List ℕ
backwards = heap_tag_value Tags.instance_dump ∷ (zeros 12 ++ (u4 (u32_mod - 17) ++ []))

process_heap-endless_example : process_heap 1000 backwards 0 17 0 opened ≡ stuck
process_heap-endless_example =
    process_heap-endless 1000 backwards 0 0 17 opened (zeros 12) []
      (record { here = refl; within = omega arith }) refl refl (omega arith) (omega arith)

abbrev dump_path : List ℕ
dump_path = b'/' ∷ b'd' ∷ b'1' ∷ []

hook_open_internal_lem_example :
    ((hook_open_internal 9 (some dump_path) opened).0 ≡ 9)
    × Noted 9 (some dump_path) opened (hook_open_internal 9 (some dump_path) opened).1
hook_open_internal_lem_example = hook_open_internal_lem 9 (some dump_path) opened
