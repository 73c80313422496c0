-- ===== src/Strip/Heap/Full.antt =====
-- `ProcessHeap` where there are more pieces to cut than the array of strips holds.
use xapm.Base.{
  ℕ, zero, suc, ◌+◌, ◌≤◌, ◌<◌, ◌≡◌, refl, ◌∙◌, ◌⊎◌, inl, inr, Bool, Option, none, some, List, [],
  ◌∷◌, ◌++◌, fault, bad_write, arith, length, length-append, All, int_max, u32_mod, leb, Bool-cases,
}
use xapm.Strip.Tags.{heap_tag_of_byte-value}
use xapm.Strip.State.{HprofStrip}
use xapm.Strip.State.Strips.{strip_capacity}
use xapm.Strip.Format.{HeapRecord, encode, encode_all, IsRecord}
use xapm.Strip.Spec.{enter, cut_to, range, range_of, ranges, serial}
use xapm.Strip.Heap.Cursor.{Cursor, move}
use xapm.Strip.Heap.Records.{tag_of, load_tag, encode_pos, record_turn, record_full}
use xapm.Strip.Heap.Walk.{ge_int_below, walk_turn}
use xapm.Strip.Heap.{sub_record, heap_turn, process_heap}

length-range_of : (k : Option (List ℕ)) (i : ℕ) (r : HeapRecord) → length (range_of k i r) ≤ 1
length-range_of none i r = omega arith
length-range_of (some k) i r = omega arith

-- A record either fits, or meets a full array with a piece to cut.
fits_or_full :
    (k n : ℕ)
    → k ≤ strip_capacity
    → n ≤ 1
    → (k + n ≤ strip_capacity) ⊎ ((strip_capacity ≤ k) × (1 ≤ n))
fits_or_full k n h m = elim (Bool-cases (leb (k + n) strip_capacity)) [
  | inl e ↦ inl (ground arith)
  | inr e ↦ inr (ground arith, ground arith)
]

module _ (buf : List ℕ) (max_len : ℕ) where
  walk_fault :
      (fuel i n : ℕ) (s : HprofStrip) (r : HeapRecord) (rest : List ℕ)
      → Cursor buf i (encode r ++ rest)
      → i < max_len
      → max_len < int_max
      → sub_record buf i n s (some (tag_of r)) ≡ fault bad_write
      → process_heap (suc fuel) buf i max_len n s ≡ fault bad_write
  unfolding process_heap heap_turn
  walk_fault fuel i n s r rest c h k e =
      rw (ge_int_below i max_len k h, load_tag i r rest c, heap_tag_of_byte-value (tag_of r), e)

-- On a sequence of well-formed sub-records with more pieces to cut than the array of strips has places
-- left, `ProcessHeap` writes behind the array.
pub process_heap-full :
    {buf : List ℕ} (rs : List HeapRecord) (fuel i n max_len : ℕ) (s : HprofStrip) (sys : Bool)
    → s.is_current_system_heap ≡ sys
    → s.strip_bytes_sum < u32_mod
    → s.strip_index ≤ strip_capacity
    → strip_capacity < s.strip_index + length (ranges sys i rs)
    → All IsRecord rs
    → Cursor buf i (encode_all rs)
    → max_len ≡ i + length (encode_all rs)
    → length rs < fuel
    → process_heap fuel buf i max_len n s ≡ fault bad_write
process_heap-full rs zero i n max_len s sys e w room full wf c top h = absurd (omega arith)
process_heap-full [] (suc fuel) i n max_len s sys e w room full wf c top h = absurd (omega arith)
process_heap-full {buf} (r ∷ rs) (suc fuel) i n max_len s sys e w room full (wf, wfs) c top h =
    elim (fits_or_full s.strip_index (length (range sys i r)) room
      (length-range_of (cut_to (enter sys r) r) i r)) [
        | inl fits ↦
            let (t, p, q) = record_turn i n s sys (encode_all rs) r e w fits wf c in
            let j = i + length (encode r) in
            walk_turn buf max_len fuel i n s t r (encode_all rs) j (serial n r) c below
              (omega (arith, c.within)) p
            ∙ process_heap-full rs fuel j (serial n r) max_len t (enter sys r) q.heap_of
                (omega (arith, q.sum_of)) (omega (arith, q.index_of))
                (omega (arith, split, q.index_of)) wfs (move (encode r) j refl c)
                (omega (arith, size)) (omega arith)
        | inr (none_left, some_cut) ↦
            walk_fault buf max_len fuel i n s r (encode_all rs) c below (omega (arith, c.within))
              (record_full i n s sys (encode_all rs) r e w none_left some_cut wf c)
      ]
  where
    split :
        length (ranges sys i (r ∷ rs))
        ≡ length (range sys i r) + length (ranges (enter sys r) (i + length (encode r)) rs)
    split = length-append (range sys i r) _

    size : length (encode_all (r ∷ rs)) ≡ length (encode r) + length (encode_all rs)
    size = length-append (encode r) (encode_all rs)

    below : i < max_len
    below = omega (arith, top, size, encode_pos r)
