-- ===== src/Strip/Heap/Steps.antt =====
-- The instances, object arrays and heap infos of hprof_strip.cpp, up to where they are cut.
use xapm.Base.{
  ℕ, ◌+◌, ◌*◌, ◌<◌, ◌≡◌, refl, List, ◌∷◌, ◌++◌, some, Result, ok, ◌>>=◌, arith, length,
  length-append, append_assoc, add32, mul32, int_max,
}
use xapm.Strip.Tags
use xapm.Strip.Tags.{HprofHeapTag, heap_tag_value, get_byte_size_from_type}
use xapm.Strip.State.{HprofStrip}
use xapm.Strip.Format.{HeapRecord, instances, objects, info, encode, u4, IsRecord}
use xapm.Strip.Spec.{is_system_heap}
use xapm.Strip.Heap.Cursor.{Cursor, move, load_next, get_int_at}
use xapm.Strip.Heap.{
  Turn, go, strip_in_system_heap, process_instance_dump, process_object_array_dump,
  process_heap_dump_info, sub_record,
}

abbrev pub go_on : ℕ → ℕ → HprofStrip → Result Turn
go_on j m t = ok (go j m t)

-- The object once it has read a heap info.
abbrev pub entered : HprofStrip → ℕ → HprofStrip
entered s heap = record s { is_current_system_heap = is_system_heap heap }

module _ {buf : List ℕ} (i n : ℕ) (s : HprofStrip) (rest : List ℕ) where
  pub instances_step :
      (head body : List ℕ)
      → let r = instances head body in
        IsRecord r
        → Cursor buf i (encode r ++ rest)
        → sub_record buf i n s (some Tags.instance_dump)
          ≡ (strip_in_system_heap s i (i + length (encode r)) >>= go_on (i + length (encode r)) n)
  unfolding sub_record process_instance_dump
  instances_step head body (head_size, fits) c =
      rw (get_int_at (length body) fits at_size, next) refl
    where
      r : HeapRecord
      r = instances head body

      tail : List ℕ
      tail = u4 (length body) ++ (body ++ rest)

      c' : Cursor buf i (heap_tag_value Tags.instance_dump ∷ (head ++ tail))
      c' = simp append_assoc at c

      size : (length (encode r) ≡ 17 + length body) × (i + 17 + length body < int_max)
      size = omega (
        arith,
        head_size,
        c'.within,
        length-append head tail,
        length-append body rest,
        length-append head (u4 (length body) ++ body),
      )

      at_size : Cursor buf (add32 i 13) tail
      at_size =
          move (heap_tag_value Tags.instance_dump ∷ head) (add32 i 13)
            (omega (arith, head_size, size)) c'

      next : add32 (add32 (add32 i 13) 4) (length body) ≡ i + length (encode r)
      next = omega (arith, size)

  pub objects_step :
      (head : List ℕ) (m : ℕ) (class_id elements : List ℕ)
      → let r = objects head m class_id elements in
        IsRecord r
        → Cursor buf i (encode r ++ rest)
        → sub_record buf i n s (some Tags.object_array_dump)
          ≡ (strip_in_system_heap s i (i + length (encode r)) >>= go_on (i + length (encode r)) n)
  unfolding sub_record process_object_array_dump
  objects_step head m class_id elements (head_size, fits, class_size, elements_size) c =
      rw (get_int_at m fits at_size, next) refl
    where
      r : HeapRecord
      r = objects head m class_id elements

      tail : List ℕ
      tail = u4 m ++ (class_id ++ (elements ++ rest))

      c' : Cursor buf i (heap_tag_value Tags.object_array_dump ∷ (head ++ tail))
      c' = simp append_assoc at c

      size : (length (encode r) ≡ 17 + 4 * m) × (i + 17 + 4 * m < int_max)
      size = omega (
        arith,
        head_size,
        class_size,
        elements_size,
        c'.within,
        length-append head tail,
        length-append class_id (elements ++ rest),
        length-append elements rest,
        length-append head (u4 m ++ (class_id ++ elements)),
        length-append class_id elements,
      )

      at_size : Cursor buf (add32 i 9) tail
      at_size =
          move (heap_tag_value Tags.object_array_dump ∷ head) (add32 i 9)
            (omega (arith, head_size, size)) c'

      next : add32 i (add32 17 (mul32 4 m)) ≡ i + length (encode r)
      next = omega (arith, size)

  pub info_step :
      (high : List ℕ) (heap : ℕ) (name : List ℕ)
      → let r = info high heap name in
        IsRecord r
        → Cursor buf i (encode r ++ rest)
        → sub_record buf i n s (some Tags.heap_dump_info) ≡ (
            strip_in_system_heap (entered s heap) i (i + length (encode r))
            >>= go_on (i + length (encode r)) n)
  unfolding sub_record process_heap_dump_info
  info_step high heap name (high_size, name_size) c =
      rw
        (
          load_next 4 (heap_tag_value Tags.heap_dump_info ∷ high) heap (name ++ rest)
              (omega (arith, high_size)) c',
          next,
        )
        refl
    where
      r : HeapRecord
      r = info high heap name

      c' : Cursor buf i (heap_tag_value Tags.heap_dump_info ∷ (high ++ (heap ∷ (name ++ rest))))
      c' = simp append_assoc at c

      size : (length (encode r) ≡ 9) × (i + 9 < int_max)
      size = omega (
        arith,
        high_size,
        name_size,
        c'.within,
        length-append high (heap ∷ (name ++ rest)),
        length-append name rest,
        length-append high (heap ∷ name),
      )

      next : add32 i 9 ≡ i + length (encode r)
      next = omega (arith, size)
