-- ===== src/Strip/Write/Hook.antt =====
-- `HookWriteInternal` of hprof_strip.cpp, call by call: what reaches the file.
use xapm.Base.{
  ℕ, ◌+◌, ◌%◌, ◌≤◌, ◌<◌, ◌≡◌, refl, ap, ◌∙◌, true, false, not, Option, some, List, ◌∷◌, ◌++◌, ok,
  ◌>>=◌, arith, length, All, ◌==◌, u32_mod, int_max, sub32, if_true, if_false, take_all, ◌≢◌,
  le→leb,
}
use xapm.Strip.State.{HprofStrip, reset}
use xapm.Strip.State.Strips.{strip_capacity}
use xapm.Strip.Kernel.{Kernel, append_file, system_write}
use xapm.Strip.Kernel.Loop.{progress}
use xapm.Strip.Format.{HeapRecord, encode_all, IsRecord, u4}
use xapm.Strip.Spec.{ranges, lost_all, restored_all, restored_all-lost_all}
use xapm.Strip.Heap.{get_int_from_bytes}
use xapm.Strip.Heap.Cursor.{Cursor, load_at, get_int_at}
use xapm.Strip.Write.Gaps.{write_rest_lem}
use xapm.Strip.Write.Segment.{segment, Stripped, write_stripped_lem}
use xapm.Strip.Write.{
  is_heap_record, scan, update_record_length, write_stripped, write_out, hook_write_internal, slice,
  Hooked,
}

pub same_fd : (s : HprofStrip) (fd : ℕ) → s.hprof_fd ≡ fd → not (fd == s.hprof_fd) ≡ false
same_fd s fd e = ground arith

-- A heap dump record that ART hands to `write` on the dump's file descriptor, whole and in one call,
-- reaches the file as its tag and time, its length less the bytes cut from the system heaps, and of
-- each sub-record what the specification keeps: nothing of instances, arrays and heap infos in the
-- zygote and image heaps, a primitive array's head but not its elements elsewhere, all else in full.
-- The object then knows the heap that the record ended in. The record is shorter than 2 ^ 31, has at
-- most as many pieces to cut as the array holds, and the kernel goes on taking bytes.
pub hook_write-segment :
    (fd tag time len : ℕ) (rs : List HeapRecord) (s : HprofStrip) (k : Kernel)
    → s.hprof_fd ≡ fd
    → is_heap_record tag ≡ true
    → len < u32_mod
    → All IsRecord rs
    → length (segment tag time len (encode_all rs)) < int_max
    → length (ranges s.is_current_system_heap 9 rs) ≤ strip_capacity
    → length (segment tag time len (encode_all rs)) ≤ progress k.outcomes
    → (h : Hooked) × (hook_write_internal fd
          (segment tag time len (encode_all rs))
          (length (segment tag time len (encode_all rs)))
          s
          k
        ≡ ok h)
      × Stripped fd tag time len rs s k h
unfolding hook_write_internal
hook_write-segment fd tag time len rs s k e is_heap w all fits room enough =
    let (h, p, q) = write_stripped_lem tag time len rs s is_heap w all fits room k enough fd in
    (h, if_false _ _ (same_fd s fd e) ∙ p, q)

-- A record of another kind goes to the dump's file unchanged, and is not scanned: the buffer, the heap
-- kind and the dump's descriptor stay as they are, and the kernel has taken no more than the record's
-- bytes.
pub hook_write-other_tag :
    (fd tag : ℕ) (body : List ℕ) (s : HprofStrip) (k : Kernel)
    → s.hprof_fd ≡ fd
    → is_heap_record tag ≡ false
    → length (tag ∷ body) < int_max
    → length (tag ∷ body) ≤ progress k.outcomes
    → (h : Hooked) × (hook_write_internal fd (tag ∷ body) (length (tag ∷ body)) s k ≡ ok h)
      × (h.result ≡ some (length (tag ∷ body)))
      × (h.buf ≡ tag ∷ body)
      × (h.kernel.files ≡ append_file k.files fd (tag ∷ body))
      × (h.strip.is_current_system_heap ≡ s.is_current_system_heap)
      × (h.strip.hprof_fd ≡ s.hprof_fd)
      × (progress k.outcomes ≤ progress h.kernel.outcomes + length (tag ∷ body))
unfolding hook_write_internal write_stripped write_out scan update_record_length reset
hook_write-other_tag fd tag body s k e other fits enough =
    let buf = tag ∷ body in
    let (k', p, f, g) =
      write_rest_lem fd buf s.strip_index_list_pair 0 0 0 k (omega arith) fits (omega arith) in
    let start : Cursor buf 0 buf = record { here = refl; within = omega arith } in
    (
      record {
        result = some (length buf);
        buf = buf;
        strip = record s {
          strip_index = 0;
          strip_bytes_sum = 0;
          hook_write_serial_num = (s.hook_write_serial_num + 1) % u32_mod;
        };
        kernel = k';
      },
      if_false _ _ (same_fd s fd e) ∙ rw (load_at start, other, p),
      refl,
      refl,
      f,
      refl,
      refl,
      omega (arith, g),
    )

-- Where the record declares the length of its sub-records, the length that `HookWriteInternal` leaves
-- in it is the length of the sub-records that a reader gets back: those that are not cut, and in the
-- app heap the primitive arrays at full size.
pub hook_write-record_length :
    (fd tag time : ℕ) (rs : List HeapRecord) (s : HprofStrip) (k : Kernel)
    → s.hprof_fd ≡ fd
    → is_heap_record tag ≡ true
    → All IsRecord rs
    → length (segment tag time (length (encode_all rs)) (encode_all rs)) < int_max
    → length (ranges s.is_current_system_heap 9 rs) ≤ strip_capacity
    → length (segment tag time (length (encode_all rs)) (encode_all rs)) ≤ progress k.outcomes
    → (h : Hooked) × (hook_write_internal fd
          (segment tag time (length (encode_all rs)) (encode_all rs))
          (length (segment tag time (length (encode_all rs)) (encode_all rs)))
          s
          k
        ≡ ok h)
      × (get_int_from_bytes h.buf 5 ≡ ok (length (restored_all s.is_current_system_heap rs)))
hook_write-record_length fd tag time rs s k e is_heap all fits room enough =
    let sys = s.is_current_system_heap in
    let len = length (encode_all rs) in
    let (h, p, q) =
      hook_write-segment fd tag time len rs s k e is_heap (omega (arith, fits)) all fits room
        enough in
    let kept_length : sub32 len (lost_all sys rs % u32_mod) ≡ length (restored_all sys rs) =
      omega (arith, restored_all-lost_all sys rs, fits) in
    let at_length : Cursor (segment tag time (length (restored_all sys rs)) (encode_all rs)) 5
        (u4 (length (restored_all sys rs)) ++ encode_all rs) =
      record { here = refl; within = omega (arith, fits) } in
    (
      h,
      p,
      rw (q.buf_of ∙ ap (λ (v : ℕ). segment tag time v (encode_all rs)) kept_length) (
          get_int_at (length (restored_all sys rs))
            (omega (arith, restored_all-lost_all sys rs, fits)) at_length),
    )

whole_slice : (buf : List ℕ) → length buf < int_max → slice buf 0 (length buf) ≡ ok buf
unfolding slice
whole_slice buf fits =
    rw (le→leb (0 + length buf) (length buf) (omega arith), take_all (length buf) buf (omega arith))

-- On any other file descriptor one `write` is made with the caller's bytes, its result is returned,
-- and neither the object nor the buffer changes.
pub hook_write-other_fd :
    (fd : ℕ) (buf : List ℕ) (s : HprofStrip) (k : Kernel)
    → fd ≢ s.hprof_fd
    → length buf < int_max
    → hook_write_internal fd buf (length buf) s k ≡ (
        system_write fd buf k.outcomes k.files >>= λ (p : Option ℕ × Kernel).
        ok (record { result = p.0; buf = buf; strip = s; kernel = p.1 }))
unfolding hook_write_internal
hook_write-other_fd fd buf s k ne fits =
    let other : not (fd == s.hprof_fd) ≡ true = ground arith in
    if_true _ _ other ∙ rw (whole_slice buf fits)
