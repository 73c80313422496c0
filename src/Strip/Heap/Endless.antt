-- ===== src/Strip/Heap/Endless.antt =====
-- A length with the top bit set is a negative `int`, and takes `ProcessHeap` back.
use xapm.Base.{
  ℕ, zero, suc, ◌+◌, ◌-◌, ◌<◌, ◌≡◌, refl, List, ◌∷◌, ◌++◌, some, ok, stuck, arith, length,
  length-append, add32, int_max, u32_mod, false, if_false,
}
use xapm.Strip.Tags
use xapm.Strip.Tags.{heap_tag_value, heap_tag_of_byte-value}
use xapm.Strip.State.{HprofStrip}
use xapm.Strip.Format.{u4}
use xapm.Strip.Heap.Cursor.{Cursor, move, load_at, get_int_at}
use xapm.Strip.Heap.Walk.{ge_int_below}
use xapm.Strip.Heap.{
  go, sub_record, heap_turn, process_heap, process_instance_dump, strip_in_system_heap,
}

module _ {buf : List ℕ} (i n : ℕ) (s : HprofStrip) (head rest : List ℕ)
    (c : Cursor buf i (heap_tag_value Tags.instance_dump ∷ (head ++ (u4 (u32_mod - 17) ++ rest))))
    (head_size : length head ≡ 12) (app : s.is_current_system_heap ≡ false) where
  back_turn : sub_record buf i n s (some Tags.instance_dump) ≡ ok (go i n s)
  unfolding sub_record process_instance_dump strip_in_system_heap
  back_turn = rw (get_int_at (u32_mod - 17) (omega arith) at_size, back, kept)
    where
      tail : List ℕ
      tail = u4 (u32_mod - 17) ++ rest

      fits : i + 17 < int_max
      fits = omega (arith, c.within, head_size, length-append head tail)

      at_size : Cursor buf (add32 i 13) tail
      at_size =
          move (heap_tag_value Tags.instance_dump ∷ head) (add32 i 13)
            (omega (arith, head_size, fits)) c

      back : add32 (add32 (add32 i 13) 4) (u32_mod - 17) ≡ i
      back = omega (arith, fits)

      kept : strip_in_system_heap s i i ≡ ok s
      kept = if_false _ _ app

-- An instance dump in the app heap whose length field holds -17, which takes the walk back over the
-- 17 bytes in front of the fields: no number of calls is enough, `ProcessHeap` calls itself at the
-- same place for ever.
pub process_heap-endless :
    (fuel : ℕ) (buf : List ℕ) (i n max_len : ℕ) (s : HprofStrip) (head rest : List ℕ)
    → Cursor buf i (heap_tag_value Tags.instance_dump ∷ (head ++ (u4 (u32_mod - 17) ++ rest)))
    → length head ≡ 12
    → s.is_current_system_heap ≡ false
    → i < max_len
    → max_len < int_max
    → process_heap fuel buf i max_len n s ≡ stuck
unfolding process_heap heap_turn
process_heap-endless zero buf i n max_len s head rest c size app lt fits = refl
process_heap-endless (suc fuel) buf i n max_len s head rest c size app lt fits =
    rw
      (
        ge_int_below i max_len fits lt,
        load_at c,
        heap_tag_of_byte-value Tags.instance_dump,
        back_turn i n s head rest c size app,
      )
      (process_heap-endless fuel buf i n max_len s head rest c size app lt fits)
