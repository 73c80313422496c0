-- ===== src/Strip/Write/Segment.antt =====
-- `HookWriteInternal` on a heap dump record: the walk, the new length and the cut together.
use xapm.Base.{
  ℕ, suc, ◌+◌, ◌/◌, ◌%◌, ◌^◌, ◌≤◌, ◌<◌, ◌≡◌, refl, ap, ◌∙◌, Bool, true, some, List, [], ◌∷◌, ◌++◌,
  ok, arith, length, length-append, All, u32_mod, int_max, sub32, if_true,
}
use xapm.Strip.State.{HprofStrip, reset}
use xapm.Strip.State.Strips.{strip_capacity, Stepped}
use xapm.Strip.Kernel.{Kernel, append_file}
use xapm.Strip.Kernel.Loop.{progress}
use xapm.Strip.Format.{HeapRecord, encode, encode_all, IsRecord, u4}
use xapm.Strip.Spec.{enter_all, kept_all, ranges, lost_all}
use xapm.Strip.Heap.Cursor.{Cursor, move, load_at, get_int_at}
use xapm.Strip.Heap.Records.{encode_pos}
use xapm.Strip.Heap.Walk.{process_heap_lem}
use xapm.Strip.Write.Gaps.{cut, write_rest_lem}
use xapm.Strip.Write.Cut.{Cuts-records}
use xapm.Strip.Write.{
  is_heap_record, scan, update_record_length, put_int_to_bytes, write_stripped, write_out, Hooked,
}

-- A heap dump record as ART hands it to `write`: the tag, the time, the length and the sub-records.
abbrev pub segment : ℕ → ℕ → ℕ → List ℕ → List ℕ
segment tag time len body = tag ∷ (u4 time ++ (u4 len ++ body))

-- The object and the files after such a write.
pub record Stripped (fd tag time len : ℕ) (rs : List HeapRecord) (s : HprofStrip) (k : Kernel)
    (h : Hooked) : Type 0 where
  pub result_of : h.result ≡ some (length (segment tag time len (encode_all rs)))
  pub files_of :
      h.kernel.files
      ≡ append_file k.files fd (
          segment tag time
            (sub32 len (lost_all s.is_current_system_heap rs % u32_mod))
            (kept_all s.is_current_system_heap rs))
  pub buf_of :
      h.buf
      ≡ segment tag time
          (sub32 len (lost_all s.is_current_system_heap rs % u32_mod))
          (encode_all rs)
  pub heap_of : h.strip.is_current_system_heap ≡ enter_all s.is_current_system_heap rs
  pub heap_serial_of : h.strip.heap_serial_num ≡ (s.heap_serial_num + 1) % u32_mod
  pub write_serial_of : h.strip.hook_write_serial_num ≡ (s.hook_write_serial_num + 1) % u32_mod
  pub fd_of : h.strip.hprof_fd ≡ s.hprof_fd
  pub progress_of :
      progress k.outcomes
      ≤ progress h.kernel.outcomes + length (segment tag time len (encode_all rs))

pub length-encode_all : (rs : List HeapRecord) → length rs ≤ length (encode_all rs)
length-encode_all [] = omega arith
length-encode_all (r ∷ rs) =
    omega (arith, length-encode_all rs, encode_pos r, length-append (encode r) (encode_all rs))

module _ (tag time len : ℕ) (rs : List HeapRecord) (s : HprofStrip)
    (is_heap : is_heap_record tag ≡ true) (len_fits : len < u32_mod) (all_records : All IsRecord rs)
    (fits : length (segment tag time len (encode_all rs)) < int_max)
    (room : length (ranges s.is_current_system_heap 9 rs) ≤ strip_capacity) where
  abbrev buf : List ℕ
  buf = segment tag time len (encode_all rs)

  abbrev sys : Bool
  sys = s.is_current_system_heap

  at_start : Cursor buf 0 buf
  at_start = record { here = refl; within = omega (arith, fits) }

  at_body : Cursor buf 9 (encode_all rs)
  at_body = move (tag ∷ (u4 time ++ u4 len)) 9 refl at_start

  scan_lem :
      (t : HprofStrip) × (scan buf (length buf) (reset s) tag
        ≡ ok (record t { heap_serial_num = (t.heap_serial_num + 1) % u32_mod }))
      × Stepped (reset s) t (enter_all sys rs) (ranges sys 9 rs) (lost_all sys rs)
  unfolding scan reset
  scan_lem =
      let (t, p, q) =
        process_heap_lem rs (suc (length buf)) 9 0 (length buf) (reset s) sys refl (omega arith)
          (omega (arith, room)) all_records at_body (omega arith)
          (omega (arith, length-encode_all rs)) in
      let top : length buf % u32_mod ≡ length buf = omega (arith, fits) in
      (t, if_true _ _ is_heap ∙ rw (top, p), q)

  update_lem :
      (sum : ℕ)
      → sum < u32_mod
      → update_record_length buf sum tag ≡ ok (segment tag time (sub32 len sum) (encode_all rs))
  unfolding update_record_length put_int_to_bytes
  update_lem sum w = if_true _ _ is_heap ∙ rw (get_int_at len len_fits at_length, high)
    where
      high : sub32 len sum / 2 ^ 24 % 2 ^ 8 ≡ sub32 len sum / 2 ^ 24
      high = omega arith

      at_length : Cursor buf 5 (u4 len ++ encode_all rs)
      at_length = move (tag ∷ u4 time) 5 refl at_start

  module _ (k : Kernel) (enough : length buf ≤ progress k.outcomes) where
    pub write_stripped_lem :
        (fd : ℕ)
        → (h : Hooked) × (write_stripped fd buf (length buf) s k ≡ ok h)
          × Stripped fd tag time len rs s k h
    unfolding write_stripped write_out reset
    write_stripped_lem fd =
        let (t, p, q) = scan_lem in
        let sum = t.strip_bytes_sum in
        let counted : sum ≡ lost_all sys rs % u32_mod = omega (arith, q.sum_of) in
        let u = update_lem sum (omega (arith, q.sum_of)) in
        let buf' = segment tag time (sub32 len sum) (encode_all rs) in
        let (o, c) = Cuts-records buf' rs 9 sys refl (omega arith) 0 (omega arith) in
        let (k', p', f, g) =
          write_rest_lem fd buf' t.strip_index_list_pair t.strip_index 0 0 k (rw q.strips_of o)
            (omega (arith, fits)) (omega (arith, enough)) in
        (
          record {
            result = some (length buf);
            buf = buf';
            strip = record t {
              heap_serial_num = (t.heap_serial_num + 1) % u32_mod;
              hook_write_serial_num = (t.hook_write_serial_num + 1) % u32_mod;
            };
            kernel = k';
          },
          rw (load_at at_start, p, u, p'),
          record {
            result_of = refl;
            files_of =
                f
                ∙ ap (append_file k.files fd) (
                    ap (λ (ps : List (ℕ × ℕ)). cut buf' 0 ps) q.strips_of
                    ∙ c
                    ∙ ap (λ (v : ℕ). segment tag time (sub32 len v) (kept_all sys rs)) counted);
            buf_of = ap (λ (v : ℕ). segment tag time (sub32 len v) (encode_all rs)) counted;
            heap_of = q.heap_of;
            heap_serial_of = rw q.same_heap_serial;
            write_serial_of = rw q.same_write_serial;
            fd_of = q.same_fd;
            progress_of = omega (arith, g);
          },
        )
