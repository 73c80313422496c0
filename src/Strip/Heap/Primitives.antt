-- ===== src/Strip/Heap/Primitives.antt =====
-- The primitive arrays of hprof_strip.cpp: cut in every heap, outside the system heaps behind the
-- array's head.
use xapm.Base.{
  ℕ, ◌+◌, ◌*◌, ◌≤◌, ◌<◌, refl, some, fault, bad_write, if◌then◌else◌, ◌≡◌, ◌∙◌, Bool, true, false,
  List, [], ◌∷◌, ◌++◌, arith, length, length-append, append_assoc, add32, sub32, mul32, int_max,
  u32_mod, if_true, if_false,
}
use xapm.Strip.Tags
use xapm.Strip.Tags.{HprofHeapTag, heap_tag_value, get_byte_size_from_type}
use xapm.Strip.State.{HprofStrip, add_strip_bytes}
use xapm.Strip.State.Strips.{
  strip_capacity, add_strip_bytes-Stepped, push_strip_lem, push_strip-full,
}
use xapm.Strip.Format.{primitives, encode, u4, IsRecord}
use xapm.Strip.Spec.{cut_to, kept_of}
use xapm.Strip.Heap.Whole.{Turns}
use xapm.Strip.Heap.Cursor.{Cursor, move, load_at, get_int_at}
use xapm.Strip.Heap.{process_primitive_array_dump, sub_record}

module _ {buf : List ℕ} (i n : ℕ) (s : HprofStrip) (rest : List ℕ) (w : s.strip_bytes_sum < u32_mod)
    (head : List ℕ) (m type : ℕ) (elements : List ℕ)
    (wf : IsRecord (primitives head m type elements))
    (c : Cursor buf i (encode (primitives head m type elements) ++ rest)) where
  tail : List ℕ
  tail = u4 m ++ (type ∷ (elements ++ rest))

  abbrev size : ℕ
  size = length (encode (primitives head m type elements))

  abbrev kept_size : ℕ
  kept_size =
      length
        (kept_of (cut_to false (primitives head m type elements)) (primitives head m type elements))

  at_head : Cursor buf i (heap_tag_value Tags.primitive_array_dump ∷ (head ++ tail))
  unfolding tail
  at_head = simp append_assoc at c

  sizes :
      (size ≡ 14 + get_byte_size_from_type type * m)
      × (i + 14 + get_byte_size_from_type type * m < int_max)
  unfolding tail
  sizes = omega (
    arith,
    wf.0,
    wf.2,
    at_head.within,
    length-append head tail,
    length-append elements rest,
    length-append head (u4 m ++ (type ∷ elements)),
  )

  at_size : Cursor buf (add32 i 9) tail
  at_size =
      move (heap_tag_value Tags.primitive_array_dump ∷ head) (add32 i 9)
        (omega (arith, wf.0, sizes)) at_head

  at_type : Cursor buf (add32 (add32 i 9) 4) (type ∷ (elements ++ rest))
  unfolding tail
  at_type = move (u4 m) (add32 (add32 i 9) 4) (omega (arith, sizes)) at_size

  next : add32 (add32 (add32 i 9) 4) (add32 1 (mul32 (get_byte_size_from_type type) m)) ≡ i + size
  next = omega (arith, sizes)

  abbrev Turned : Bool → Type 0
  Turned sys = Turns buf i n s sys Tags.primitive_array_dump (primitives head m type elements)

  pub primitives_turn :
      s.strip_index < strip_capacity → (sys : Bool) → s.is_current_system_heap ≡ sys → Turned sys
  unfolding sub_record process_primitive_array_dump tail
  primitives_turn room true e =
      let (t, p, q) = push_strip_lem s (i + 0) (i + size) true e room w in
      let start : i ≡ i + 0 = omega arith in
      let counted : sub32 (i + size) i ≡ size = omega (arith, sizes) in
      (
        add_strip_bytes t size,
        rw (
          get_int_at m wf.1 at_size,
          load_at at_type,
          next,
          if_true i (add32 (add32 (add32 i 9) 4) 1) e ∙ start,
          p,
          if_true (add_strip_bytes t (sub32 (i + size) i)) t e,
          counted,
        ),
        add_strip_bytes-Stepped size q,
      )
  primitives_turn room false e =
      let left = i + kept_size in
      let (t, p, q) = push_strip_lem s left (i + size) false e room w in
      let start : add32 (add32 (add32 i 9) 4) 1 ≡ left =
        omega (arith, sizes, wf.0, length-append head (u4 m ++ (type ∷ []))) in
      (
        t,
        rw (
          get_int_at m wf.1 at_size,
          load_at at_type,
          next,
          if_false i (add32 (add32 (add32 i 9) 4) 1) e ∙ start,
          p,
          if_false (add_strip_bytes t (sub32 (i + size) i)) t e,
        ),
        q,
      )

  -- Where the array of strips is full, the strip is written behind it.
  pub primitives_full :
      strip_capacity ≤ s.strip_index
      → sub_record buf i n s (some Tags.primitive_array_dump) ≡ fault bad_write
  unfolding sub_record process_primitive_array_dump tail
  primitives_full full =
      let left = if s.is_current_system_heap then i else add32 (add32 (add32 i 9) 4) 1 in
      rw
        (
          get_int_at m wf.1 at_size,
          load_at at_type,
          push_strip-full s left
              (add32 (add32 (add32 i 9) 4) (add32 1 (mul32 (get_byte_size_from_type type) m))) full,
        )
        refl
