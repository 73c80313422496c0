-- ===== src/Strip/Heap/Whole.antt =====
-- The instances, object arrays and heap infos of hprof_strip.cpp: cut whole in a system heap.
use xapm.Base.{
  ℕ, ◌+◌, ◌≤◌, ◌<◌, ◌≡◌, refl, ap, ◌∙◌, Bool, true, false, List, [], ◌∷◌, ◌++◌, Option, none, some,
  Result, ok, fault, bad_write, ◌>>=◌, arith, length, length-append, sub32, int_max, u32_mod,
  if_true, if_false,
}
use xapm.Strip.Tags
use xapm.Strip.Tags.{HprofHeapTag, heap_tag_value, get_byte_size_from_type}
use xapm.Strip.State.{HprofStrip, push_strip, add_strip_bytes}
use xapm.Strip.State.Strips.{
  strip_capacity, Stepped, Stepped-refl, add_strip_bytes-Stepped, push_strip_lem, push_strip-full,
}
use xapm.Strip.Format.{HeapRecord, instances, objects, info, encode, IsRecord}
use xapm.Strip.Spec.{is_system_heap, enter, cut_to, range, range_of, lost, lost_of, serial}
use xapm.Strip.Heap.Cursor.{Cursor}
use xapm.Strip.Heap.Steps.{go_on, entered, instances_step, objects_step, info_step}
use xapm.Strip.Heap.{go, strip_in_system_heap, sub_record}

-- A record that is cut whole in a system heap, and left alone elsewhere.
abbrev whole_cut : Bool → Option (List ℕ)
whole_cut true = some []
whole_cut false = none

system_strip :
    (s : HprofStrip) (i : ℕ) (r : HeapRecord) (sys : Bool) (k : Option (List ℕ))
    → s.is_current_system_heap ≡ sys
    → k ≡ whole_cut sys
    → s.strip_index + length (range_of k i r) ≤ strip_capacity
    → s.strip_bytes_sum < u32_mod
    → i + length (encode r) < int_max
    → (t : HprofStrip) × (strip_in_system_heap s i (i + length (encode r)) ≡ ok t)
      × Stepped s t sys (range_of k i r) (lost_of sys k r)
unfolding strip_in_system_heap
system_strip s i r false k e d room w h = (s, if_false _ _ e, rw d (Stepped-refl s false e w))
system_strip s i r true (some (x ∷ xs)) e d room w h = cc
system_strip s i r true none e d room w h = cc
system_strip s i r true (some []) e d room w h =
    let len = length (encode r) in
    let (t, p, q) = push_strip_lem s (i + 0) (i + len) true e (omega arith) w in
    let start : i ≡ i + 0 = omega arith in
    let size : sub32 (i + len) i ≡ len = omega arith in
    (
      add_strip_bytes t len,
      if_true _ _ e
          ∙ rw (ap (λ (l : ℕ). push_strip s l (i + len)) start ∙ p)
              (ap (λ (n : ℕ). ok (add_strip_bytes t n)) size),
      add_strip_bytes-Stepped len q,
    )

instances_whole :
    (sys : Bool) (head body : List ℕ) → cut_to sys (instances head body) ≡ whole_cut sys
instances_whole true head body = refl
instances_whole false head body = refl

objects_whole :
    (sys : Bool) (head : List ℕ) (n : ℕ) (class_id elements : List ℕ)
    → cut_to sys (objects head n class_id elements) ≡ whole_cut sys
objects_whole true head n class_id elements = refl
objects_whole false head n class_id elements = refl

info_whole :
    (sys : Bool) (high : List ℕ) (heap : ℕ) (name : List ℕ)
    → cut_to sys (info high heap name) ≡ whole_cut sys
info_whole true high heap name = refl
info_whole false high heap name = refl

-- A cut in a system heap that finds the array full is written behind it.
pub strip_in_system_heap-full :
    (s : HprofStrip) (i next : ℕ) (r : HeapRecord) (sys : Bool) (k : Option (List ℕ))
    → s.is_current_system_heap ≡ sys
    → k ≡ whole_cut sys
    → 1 ≤ length (range_of k i r)
    → strip_capacity ≤ s.strip_index
    → strip_in_system_heap s i next ≡ fault bad_write
unfolding strip_in_system_heap
strip_in_system_heap-full s i next r sys none e d some_cut full = absurd (omega arith)
strip_in_system_heap-full s i next r false (some k) e d some_cut full = cc
strip_in_system_heap-full s i next r true (some k) e d some_cut full =
    if_true _ _ e
    ∙ ap
        (λ (u : Result HprofStrip). u >>= λ (t : HprofStrip). ok (add_strip_bytes t (sub32 next i)))
        (push_strip-full s i next full)

-- The turn that a record leads to, and what it leaves in the object.
abbrev pub Turns : List ℕ → ℕ → ℕ → HprofStrip → Bool → HprofHeapTag → HeapRecord → Type 0
Turns buf i n s sys tag r =
    (t : HprofStrip) × (sub_record buf i n s (some tag)
      ≡ ok (go (i + length (encode r)) (serial n r) t))
    × Stepped s t (enter sys r) (range sys i r) (lost sys r)

module _ {buf : List ℕ} (i n : ℕ) (s : HprofStrip) (sys : Bool) (rest : List ℕ)
    (w : s.strip_bytes_sum < u32_mod) where
  -- The index behind a record is an int.
  behind : (r : HeapRecord) → Cursor buf i (encode r ++ rest) → i + length (encode r) < int_max
  behind r c = omega (arith, c.within, length-append (encode r) rest)

  pub instances_turn :
      (head body : List ℕ)
      → let r = instances head body in
        s.is_current_system_heap ≡ sys
        → s.strip_index + length (range sys i r) ≤ strip_capacity
        → IsRecord r
        → Cursor buf i (encode r ++ rest)
        → Turns buf i n s sys Tags.instance_dump r
  instances_turn head body e room wf c =
      let r = instances head body in
      let (t, p, q) =
        system_strip s i r sys _ e (instances_whole sys head body) room w (behind r c) in
      (
        t,
        instances_step i n s rest head body wf c
            ∙ ap (λ (u : Result HprofStrip). u >>= go_on (i + length (encode r)) n) p,
        q,
      )

  pub objects_turn :
      (head : List ℕ) (m : ℕ) (class_id elements : List ℕ)
      → let r = objects head m class_id elements in
        s.is_current_system_heap ≡ sys
        → s.strip_index + length (range sys i r) ≤ strip_capacity
        → IsRecord r
        → Cursor buf i (encode r ++ rest)
        → Turns buf i n s sys Tags.object_array_dump r
  objects_turn head m class_id elements e room wf c =
      let r = objects head m class_id elements in
      let (t, p, q) =
        system_strip s i r sys _ e (objects_whole sys head m class_id elements) room w
          (behind r c) in
      (
        t,
        objects_step i n s rest head m class_id elements wf c
            ∙ ap (λ (u : Result HprofStrip). u >>= go_on (i + length (encode r)) n) p,
        q,
      )

  pub info_turn :
      (high : List ℕ) (heap : ℕ) (name : List ℕ)
      → let r = info high heap name in
        s.strip_index + length (range sys i r) ≤ strip_capacity
        → IsRecord r
        → Cursor buf i (encode r ++ rest)
        → Turns buf i n s sys Tags.heap_dump_info r
  info_turn high heap name room wf c =
      let r = info high heap name in
      let opened = is_system_heap heap in
      let (t, p, q) =
        system_strip (entered s heap) i r opened _ refl (info_whole opened high heap name) room w
          (behind r c) in
      (
        t,
        info_step i n s rest high heap name wf c
            ∙ ap (λ (u : Result HprofStrip). u >>= go_on (i + length (encode r)) n) p,
        record {
          strips_of = q.strips_of;
          index_of = q.index_of;
          sum_of = q.sum_of;
          heap_of = q.heap_of;
          same_fd = q.same_fd;
          same_heap_serial = q.same_heap_serial;
          same_write_serial = q.same_write_serial;
          same_hook = q.same_hook;
          same_name = q.same_name;
        },
      )

  -- The same records, where the array is full and there is a piece to cut.
  pub instances_full :
      (head body : List ℕ)
      → let r = instances head body in
        s.is_current_system_heap ≡ sys
        → strip_capacity ≤ s.strip_index
        → 1 ≤ length (range sys i r)
        → IsRecord r
        → Cursor buf i (encode r ++ rest)
        → sub_record buf i n s (some Tags.instance_dump) ≡ fault bad_write
  instances_full head body e full some_cut wf c =
      let r = instances head body in
      instances_step i n s rest head body wf c
      ∙ ap (λ (u : Result HprofStrip). u >>= go_on (i + length (encode r)) n)
          (strip_in_system_heap-full s i (i + length (encode r)) r sys (cut_to sys r) e
            (instances_whole sys head body) some_cut full)

  pub objects_full :
      (head : List ℕ) (m : ℕ) (class_id elements : List ℕ)
      → let r = objects head m class_id elements in
        s.is_current_system_heap ≡ sys
        → strip_capacity ≤ s.strip_index
        → 1 ≤ length (range sys i r)
        → IsRecord r
        → Cursor buf i (encode r ++ rest)
        → sub_record buf i n s (some Tags.object_array_dump) ≡ fault bad_write
  objects_full head m class_id elements e full some_cut wf c =
      let r = objects head m class_id elements in
      objects_step i n s rest head m class_id elements wf c
      ∙ ap (λ (u : Result HprofStrip). u >>= go_on (i + length (encode r)) n)
          (strip_in_system_heap-full s i (i + length (encode r)) r sys (cut_to sys r) e
            (objects_whole sys head m class_id elements) some_cut full)

  pub info_full :
      (high : List ℕ) (heap : ℕ) (name : List ℕ)
      → let r = info high heap name in
        strip_capacity ≤ s.strip_index
        → 1 ≤ length (range sys i r)
        → IsRecord r
        → Cursor buf i (encode r ++ rest)
        → sub_record buf i n s (some Tags.heap_dump_info) ≡ fault bad_write
  info_full high heap name full some_cut wf c =
      let r = info high heap name in
      let opened = is_system_heap heap in
      info_step i n s rest high heap name wf c
      ∙ ap (λ (u : Result HprofStrip). u >>= go_on (i + length (encode r)) n)
          (strip_in_system_heap-full (entered s heap) i (i + length (encode r)) r opened
            (cut_to opened r) refl (info_whole opened high heap name) some_cut full)
