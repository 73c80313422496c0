-- ===== src/Strip/Heap/Walk.antt =====
-- `ProcessHeap` over a whole encoded segment: it comes to the end, and has noted the pieces to cut.
use xapm.Base.{
  ℕ, zero, suc, ◌+◌, ◌≤◌, ◌<◌, ◌≡◌, refl, ◌∙◌, Bool, true, false, List, [], ◌∷◌, ◌++◌, some, ok,
  arith, length, length-append, All, int_max, u32_mod, ge_int, le→leb, lt→leb_false,
}
use xapm.Strip.Tags.{heap_tag_of_byte-value}
use xapm.Strip.State.{HprofStrip}
use xapm.Strip.State.Strips.{strip_capacity, Stepped, Stepped-refl, Stepped-trans}
use xapm.Strip.Format.{HeapRecord, encode, encode_all, IsRecord}
use xapm.Strip.Spec.{enter, enter_all, range, ranges, lost_all, serial, serial_all}
use xapm.Strip.Heap.Cursor.{Cursor, move}
use xapm.Strip.Heap.Records.{tag_of, load_tag, encode_pos, record_turn}
use xapm.Strip.Heap.{go, sub_record, heap_turn, process_heap}

ge_int_above : (a b : ℕ) → a < int_max → b ≤ a → ge_int a b ≡ true
ge_int_above a b h k = le→leb _ _ (omega arith)

pub ge_int_below : (a b : ℕ) → b < int_max → a < b → ge_int a b ≡ false
ge_int_below a b h k = lt→leb_false _ _ (omega arith)

module _ (buf : List ℕ) (max_len : ℕ) where
  walk_end :
      (fuel i n : ℕ) (s : HprofStrip)
      → i < int_max
      → max_len ≤ i
      → process_heap (suc fuel) buf i max_len n s ≡ ok (n, s)
  unfolding process_heap heap_turn
  walk_end fuel i n s h k = rw (ge_int_above i max_len h k)

  pub walk_turn :
      (fuel i n : ℕ) (s t : HprofStrip) (r : HeapRecord) (rest : List ℕ) (j m : ℕ)
      → Cursor buf i (encode r ++ rest)
      → i < max_len
      → max_len < int_max
      → sub_record buf i n s (some (tag_of r)) ≡ ok (go j m t)
      → process_heap (suc fuel) buf i max_len n s ≡ process_heap fuel buf j max_len m t
  unfolding process_heap heap_turn
  walk_turn fuel i n s t r rest j m c h k e =
      rw (ge_int_below i max_len k h, load_tag i r rest c, heap_tag_of_byte-value (tag_of r), e)

-- On a whole sequence of well-formed sub-records `ProcessHeap` ends at their end, after one call for
-- each and a last one. It has noted exactly the pieces that the specification cuts, counted the bytes
-- lost from the system heaps and the primitive arrays, and knows the heap it ended in; descriptor, name
-- and serial numbers are as before. The array must have room for the pieces, and the buffer is shorter
-- than 2 ^ 31.
pub process_heap_lem :
    {buf : List ℕ} (rs : List HeapRecord) (fuel i n max_len : ℕ) (s : HprofStrip) (sys : Bool)
    → s.is_current_system_heap ≡ sys
    → s.strip_bytes_sum < u32_mod
    → s.strip_index + length (ranges sys i rs) ≤ strip_capacity
    → All IsRecord rs
    → Cursor buf i (encode_all rs)
    → max_len ≡ i + length (encode_all rs)
    → length rs < fuel
    → (t : HprofStrip) × (process_heap fuel buf i max_len n s ≡ ok (serial_all n rs, t))
      × Stepped s t (enter_all sys rs) (ranges sys i rs) (lost_all sys rs)
process_heap_lem rs zero i n max_len s sys e w room wf c top h = absurd (omega arith)
process_heap_lem {buf} [] (suc fuel) i n max_len s sys e w room wf c top h = (
  s,
  walk_end buf max_len fuel i n s (omega (arith, c.within)) (omega arith),
  Stepped-refl s sys e w,
)
process_heap_lem {buf} (r ∷ rs) (suc fuel) i n max_len s sys e w room (wf, wfs) c top h =
    let (t, p, q) = record_turn i n s sys (encode_all rs) r e w (omega (arith, split)) wf c in
    let j = i + length (encode r) in
    let (u, p', q') =
      process_heap_lem rs fuel j (serial n r) max_len t (enter sys r) q.heap_of
        (omega (arith, q.sum_of)) (omega (arith, split, q.index_of)) wfs (move (encode r) j refl c)
        (omega (arith, size)) (omega arith) in
    (
      u,
      walk_turn buf max_len fuel i n s t r (encode_all rs) j (serial n r) c
            (omega (arith, top, size, encode_pos r)) (omega (arith, c.within)) p
          ∙ p',
      Stepped-trans q q',
    )
  where
    split :
        length (ranges sys i (r ∷ rs))
        ≡ length (range sys i r) + length (ranges (enter sys r) (i + length (encode r)) rs)
    split = length-append (range sys i r) _

    size : length (encode_all (r ∷ rs)) ≡ length (encode r) + length (encode_all rs)
    size = length-append (encode r) (encode_all rs)
