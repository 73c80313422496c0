-- ===== src/Strip/Heap/Classes.antt =====
-- The class dumps of hprof_strip.cpp: the walk passes over the pool and the fields to their end.
use xapm.Base.{
  ℕ, ◌+◌, ◌*◌, ◌^◌, ◌<◌, ◌≡◌, refl, sym, ap, ◌∙◌, List, [], ◌∷◌, ◌++◌, ok, arith, length,
  length-append, append_assoc, All, add32, int_max,
}
use xapm.Strip.Tags.{get_byte_size_from_type}
use xapm.Strip.Format.{u2, Entry, encode_entries, IsEntry}
use xapm.Strip.Heap.Cursor.{Cursor, move, load_next, get_short_at}
use xapm.Strip.Heap.{skip_entries, process_class_dump}

skip_entries_lem :
    (buf : List ℕ) (lead : ℕ) (es : List Entry) (i : ℕ) (rest : List ℕ)
    → All (IsEntry lead) es
    → Cursor buf i (encode_entries es ++ rest)
    → skip_entries buf lead (length es) i ≡ ok (i + length (encode_entries es))
unfolding skip_entries
skip_entries_lem buf lead [] i rest h c = ap ok (omega arith)
skip_entries_lem buf lead (e ∷ es) i rest h c =
    rw (load_next lead e.name e.type _ (sym h.0.lead_size) c')
      (skip_entries_lem buf lead es next rest h.1 after ∙ ap ok total)
  where
    tail : List ℕ
    tail = encode_entries es ++ rest

    c' : Cursor buf i (e.name ++ (e.type ∷ (e.value ++ tail)))
    c' = simp append_assoc at c

    next : ℕ
    next = add32 i (lead + 1 + get_byte_size_from_type e.type)

    fits : i + (lead + 1 + get_byte_size_from_type e.type) + length (encode_entries es) < int_max
    fits = omega (
      arith,
      c'.within,
      h.0.lead_size,
      h.0.value_size,
      length-append e.name (e.type ∷ (e.value ++ tail)),
      length-append e.value tail,
      length-append (encode_entries es) rest,
    )

    after : Cursor buf next tail
    after = move e.value next (omega (arith, fits, h.0.lead_size, h.0.value_size)) (
        move (e.type ∷ []) (i + lead + 1) (omega arith)
          (move e.name (i + lead) (omega (arith, h.0.lead_size)) c'))

    total :
        next + length (encode_entries es)
        ≡ i + length (e.name ++ (e.type ∷ (e.value ++ encode_entries es)))
    total = omega (
      arith,
      fits,
      h.0.lead_size,
      h.0.value_size,
      length-append e.name (e.type ∷ (e.value ++ encode_entries es)),
      length-append e.value (encode_entries es),
    )

module _ {buf : List ℕ} {i : ℕ} (tag : ℕ) (head : List ℕ) (constants statics : List Entry) (n : ℕ)
    (fields rest : List ℕ) (head_size : length head ≡ 36)
    (few_constants : length constants < 2 ^ 16) (all_constants : All (IsEntry 2) constants)
    (few_statics : length statics < 2 ^ 16) (all_statics : All (IsEntry 4) statics)
    (few_fields : n < 2 ^ 16) (fields_size : length fields ≡ 5 * n)
    (c : Cursor buf i (
      tag
      ∷ (head
          ++ (u2 (length constants)
              ++ (encode_entries constants
                  ++ (u2 (length statics)
                      ++ (encode_entries statics ++ (u2 n ++ (fields ++ rest))))))))) where
  pub class_dump_lem :
      process_class_dump buf i
      ≡ ok (
          i
          + (43
              + length (encode_entries constants)
              + length (encode_entries statics)
              + length fields))
  unfolding process_class_dump
  class_dump_lem =
      rw
        (
          get_short_at (length constants) few_constants at_pool,
          skip_entries_lem buf 2 constants (add32 pool 2) behind_pool all_constants at_constants,
          get_short_at (length statics) few_statics at_statics,
          skip_entries_lem buf 4 statics (add32 statics_index 2) behind_statics all_statics
              at_static_fields,
          get_short_at n few_fields at_fields,
        )
        (ap ok (omega (arith, fits, fields_size)))
    where
      behind_statics : List ℕ
      behind_statics = u2 n ++ (fields ++ rest)

      behind_pool : List ℕ
      behind_pool = u2 (length statics) ++ (encode_entries statics ++ behind_statics)

      pool : ℕ
      pool = add32 i 37

      statics_index : ℕ
      statics_index = add32 pool 2 + length (encode_entries constants)

      fields_index : ℕ
      fields_index = add32 statics_index 2 + length (encode_entries statics)

      fits :
          i
            + 43
            + length (encode_entries constants)
            + length (encode_entries statics)
            + length fields
          < int_max
      fits = omega (
        arith,
        c.within,
        head_size,
        length-append head (u2 (length constants) ++ (encode_entries constants ++ behind_pool)),
        length-append (encode_entries constants) behind_pool,
        length-append (encode_entries statics) behind_statics,
        length-append fields rest,
      )

      at_pool : Cursor buf pool (u2 (length constants) ++ (encode_entries constants ++ behind_pool))
      at_pool = move (tag ∷ head) pool (omega (arith, head_size, fits)) c

      at_constants : Cursor buf (add32 pool 2) (encode_entries constants ++ behind_pool)
      at_constants = move (u2 (length constants)) (add32 pool 2) (omega (arith, fits)) at_pool

      at_statics : Cursor buf statics_index behind_pool
      at_statics = move (encode_entries constants) statics_index refl at_constants

      at_static_fields :
          Cursor buf (add32 statics_index 2) (encode_entries statics ++ behind_statics)
      at_static_fields =
          move (u2 (length statics)) (add32 statics_index 2) (omega (arith, fits)) at_statics

      at_fields : Cursor buf fields_index behind_statics
      at_fields = move (encode_entries statics) fields_index refl at_static_fields
