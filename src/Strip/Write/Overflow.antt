-- ===== src/Strip/Write/Overflow.antt =====
-- `HookWriteInternal` on a heap dump record with more pieces to cut than the array of strips holds.
use xapm.Base.{
  ℕ, suc, ◌%◌, ◌<◌, ◌≡◌, refl, ◌∙◌, true, List, ◌∷◌, ◌++◌, fault, bad_write, arith, length, All,
  u32_mod, int_max, if_true, if_false,
}
use xapm.Strip.State.{HprofStrip, reset}
use xapm.Strip.State.Strips.{strip_capacity}
use xapm.Strip.Kernel.{Kernel}
use xapm.Strip.Format.{HeapRecord, encode_all, IsRecord, u4}
use xapm.Strip.Spec.{ranges}
use xapm.Strip.Heap.Cursor.{Cursor, move, load_at}
use xapm.Strip.Heap.Full.{process_heap-full}
use xapm.Strip.Write.Segment.{segment, length-encode_all}
use xapm.Strip.Write.Hook.{same_fd}
use xapm.Strip.Write.{is_heap_record, scan, write_stripped, hook_write_internal}

module _ (tag time len : ℕ) (rs : List HeapRecord) (s : HprofStrip)
    (is_heap : is_heap_record tag ≡ true) (all_records : All IsRecord rs)
    (fits : length (segment tag time len (encode_all rs)) < int_max)
    (full : strip_capacity < length (ranges s.is_current_system_heap 9 rs)) where
  abbrev buf : List ℕ
  buf = segment tag time len (encode_all rs)

  at_start : Cursor buf 0 buf
  at_start = record { here = refl; within = omega (arith, fits) }

  at_body : Cursor buf 9 (encode_all rs)
  at_body = move (tag ∷ (u4 time ++ u4 len)) 9 refl at_start

  scan-full : scan buf (length buf) (reset s) tag ≡ fault bad_write
  unfolding scan reset
  scan-full =
      let top : length buf % u32_mod ≡ length buf = omega (arith, fits) in
      if_true _ _ is_heap
      ∙ rw
          (
            top,
            process_heap-full rs (suc (length buf)) 9 0 (length buf) (reset s)
                s.is_current_system_heap refl (omega arith) (omega arith) (omega (arith, full))
                all_records at_body (omega arith) (omega (arith, length-encode_all rs)),
          )
          refl

  -- A heap dump record with more pieces to cut than the array of strips holds, handed to `write` on the
  -- dump's file descriptor, makes the hook write behind the end of the array, before any of the record
  -- has reached the file. The sub-records are well-formed and the record is shorter than 2 ^ 31; how
  -- the kernel answers does not matter.
  pub hook_write-full :
      (fd : ℕ) (k : Kernel)
      → s.hprof_fd ≡ fd
      → hook_write_internal fd buf (length buf) s k ≡ fault bad_write
  unfolding hook_write_internal write_stripped
  hook_write-full fd k e = if_false _ _ (same_fd s fd e) ∙ rw (load_at at_start, scan-full) refl
