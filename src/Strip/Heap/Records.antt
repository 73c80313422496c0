-- ===== src/Strip/Heap/Records.antt =====
-- `ProcessHeap` on an encoded segment: one record of any kind, and by induction all of them.
use xapm.Base.{
  ℕ, suc, ◌+◌, ◌≤◌, ◌<◌, ◌≡◌, ap, Bool, true, false, List, ◌++◌, some, ok, fault, bad_write, arith,
  length, length-append, append_assoc, int_max, u32_mod,
}
use xapm.Strip.Tags
use xapm.Strip.Tags.{HprofHeapTag, heap_tag_value, get_byte_size_from_type}
use xapm.Strip.State.{HprofStrip}
use xapm.Strip.State.Strips.{strip_capacity, Stepped-refl}
use xapm.Strip.Format.{
  HeapRecord, root, classes, instances, objects, primitives, info, encode, u2, body_size, IsRecord,
  Entry, encode_entries,
}
use xapm.Strip.Spec.{range}
use xapm.Strip.Heap.Cursor.{Cursor, load_at}
use xapm.Strip.Heap.Whole.{
  Turns, instances_turn, objects_turn, info_turn, instances_full, objects_full, info_full,
}
use xapm.Strip.Heap.Primitives.{primitives_turn, primitives_full}
use xapm.Strip.Heap.Classes.{class_dump_lem}
use xapm.Strip.Heap.{load, go, sub_record}

root_turn :
    (buf : List ℕ) (i n : ℕ) (s : HprofStrip) (tag : HprofHeapTag) (body : List ℕ)
    → body_size tag ≡ some (length body)
    → i + suc (length body) < int_max
    → sub_record buf i n s (some tag) ≡ ok (go (i + suc (length body)) n s)
unfolding sub_record
root_turn buf i n s Tags.root_unknown body h w = ground arith
root_turn buf i n s _ body h w = ground arith

abbrev pub tag_of : HeapRecord → HprofHeapTag
tag_of (root tag body) = tag
tag_of (classes head constants statics n fields) = Tags.class_dump
tag_of (instances head body) = Tags.instance_dump
tag_of (objects head n class_id elements) = Tags.object_array_dump
tag_of (primitives head n type elements) = Tags.primitive_array_dump
tag_of (info high heap name) = Tags.heap_dump_info

-- Every record begins with its tag, which the walk reads.
pub load_tag :
    {buf : List ℕ} (i : ℕ) (r : HeapRecord) (rest : List ℕ)
    → Cursor buf i (encode r ++ rest)
    → load buf i ≡ ok (heap_tag_value (tag_of r))
load_tag i (root tag body) rest c = load_at c
load_tag i (classes head constants statics n fields) rest c = load_at c
load_tag i (instances head body) rest c = load_at c
load_tag i (objects head n class_id elements) rest c = load_at c
load_tag i (primitives head n type elements) rest c = load_at c
load_tag i (info high heap name) rest c = load_at c

pub encode_pos : (r : HeapRecord) → 1 ≤ length (encode r)
encode_pos (root tag body) = omega arith
encode_pos (classes head constants statics n fields) = omega arith
encode_pos (instances head body) = omega arith
encode_pos (objects head n class_id elements) = omega arith
encode_pos (primitives head n type elements) = omega arith
encode_pos (info high heap name) = omega arith

class_turn :
    {buf : List ℕ} (i n : ℕ) (s : HprofStrip) (head : List ℕ) (constants statics : List Entry)
    (m : ℕ) (fields rest : List ℕ)
    → IsRecord (classes head constants statics m fields)
    → Cursor buf i (encode (classes head constants statics m fields) ++ rest)
    → sub_record buf i n s (some Tags.class_dump)
      ≡ ok (go (i + length (encode (classes head constants statics m fields))) n s)
unfolding sub_record
class_turn {buf} i n s head constants statics m fields rest wf c =
    rw
      (class_dump_lem (heap_tag_value Tags.class_dump) head constants statics m fields rest wf.0
        wf.1 wf.2 wf.3 wf.4 wf.5 wf.6 (simp append_assoc at c))
      (ap (λ (j : ℕ). ok (go j n s)) size)
  where
    behind_statics : List ℕ
    behind_statics = u2 m ++ fields

    behind_pool : List ℕ
    behind_pool = u2 (length statics) ++ (encode_entries statics ++ behind_statics)

    size :
        i
          + (43
              + length (encode_entries constants)
              + length (encode_entries statics)
              + length fields)
        ≡ i + length (encode (classes head constants statics m fields))
    size = omega (
      arith,
      wf.0,
      length-append head (u2 (length constants) ++ (encode_entries constants ++ behind_pool)),
      length-append (encode_entries constants) behind_pool,
      length-append (encode_entries statics) behind_statics,
    )

module _ {buf : List ℕ} (i n : ℕ) (s : HprofStrip) (sys : Bool) (rest : List ℕ) where
  pub record_turn :
      (r : HeapRecord)
      → s.is_current_system_heap ≡ sys
      → s.strip_bytes_sum < u32_mod
      → s.strip_index + length (range sys i r) ≤ strip_capacity
      → IsRecord r
      → Cursor buf i (encode r ++ rest)
      → Turns buf i n s sys (tag_of r) r
  record_turn (root tag body) e w room wf c = (
    s,
    root_turn buf i n s tag body wf (omega (arith, c.within, length-append body rest)),
    Stepped-refl s sys e w,
  )
  record_turn (classes head constants statics m fields) e w room wf c =
      (s, class_turn i n s head constants statics m fields rest wf c, Stepped-refl s sys e w)
  record_turn (instances head body) e w room wf c =
      instances_turn i n s sys rest w head body e room wf c
  record_turn (objects head m class_id elements) e w room wf c =
      objects_turn i n s sys rest w head m class_id elements e room wf c
  record_turn (primitives head m type elements) e w room wf c =
      primitives_turn i n s rest w head m type elements wf c (primitives_room sys room) sys e
    where
      primitives_room :
          (b : Bool)
          → s.strip_index + length (range b i (primitives head m type elements)) ≤ strip_capacity
          → s.strip_index < strip_capacity
      primitives_room true h = omega arith
      primitives_room false h = omega arith
  record_turn (info high heap name) e w room wf c =
      info_turn i n s sys rest w high heap name room wf c

  -- A record with a piece to cut, where the array of strips is full.
  pub record_full :
      (r : HeapRecord)
      → s.is_current_system_heap ≡ sys
      → s.strip_bytes_sum < u32_mod
      → strip_capacity ≤ s.strip_index
      → 1 ≤ length (range sys i r)
      → IsRecord r
      → Cursor buf i (encode r ++ rest)
      → sub_record buf i n s (some (tag_of r)) ≡ fault bad_write
  record_full (root tag body) e w full some_cut wf c = absurd (omega arith)
  record_full (classes head constants statics m fields) e w full some_cut wf c =
      absurd (omega arith)
  record_full (instances head body) e w full some_cut wf c =
      instances_full i n s sys rest w head body e full some_cut wf c
  record_full (objects head m class_id elements) e w full some_cut wf c =
      objects_full i n s sys rest w head m class_id elements e full some_cut wf c
  record_full (primitives head m type elements) e w full some_cut wf c =
      primitives_full i n s rest w head m type elements wf c full
  record_full (info high heap name) e w full some_cut wf c =
      info_full i n s sys rest w high heap name full some_cut wf c
