-- ===== src/Strip/Format.antt =====
-- The sub-records of an HPROF heap dump segment as ART writes them, as the comments of `ProcessHeap`
-- in hprof/hprofclipper/src/main/cpp/hprof_strip.cpp give their layout.
use xapm.Base.{
  ℕ, ◌*◌, ◌/◌, ◌%◌, ◌^◌, ◌<◌, ◌≡◌, Option, none, some, List, [], ◌∷◌, ◌++◌, length, All,
}
use xapm.Strip.Tags
use xapm.Strip.Tags.{HprofHeapTag, heap_tag_value, get_byte_size_from_type}

-- Big-endian numbers of two and four bytes.
abbrev pub u2 : ℕ → List ℕ
u2 n = n / 2 ^ 8 ∷ n % 2 ^ 8 ∷ []

abbrev pub u4 : ℕ → List ℕ
u4 n = n / 2 ^ 24 ∷ n / 2 ^ 16 % 2 ^ 8 ∷ n / 2 ^ 8 % 2 ^ 8 ∷ n % 2 ^ 8 ∷ []

-- An entry of a constant pool or a static field: an index or a name, the type, the value.
pub record Entry : Type 0 where
  pub name : List ℕ
  pub type : ℕ
  pub value : List ℕ

abbrev pub encode_entries : List Entry → List ℕ
encode_entries [] = []
encode_entries (e ∷ es) = e.name ++ e.type ∷ (e.value ++ encode_entries es)

-- `lead` is the length of the name.
pub record IsEntry (lead : ℕ) (e : Entry) : Type 0 where
  pub lead_size : length e.name ≡ lead
  pub value_size : length e.value ≡ get_byte_size_from_type e.type

-- `head` is what stands between the tag and the first number that the walk reads. The last list of
-- `classes` holds the instance fields, five bytes for each; `info` has the low byte of the heap's
-- type behind its three others.
pub data HeapRecord : Type 0 where
  root : HprofHeapTag → List ℕ → HeapRecord
  classes : (head : List ℕ) → List Entry → List Entry → ℕ → List ℕ → HeapRecord
  instances : (head : List ℕ) → List ℕ → HeapRecord
  objects : (head : List ℕ) → ℕ → (class_id elements : List ℕ) → HeapRecord
  primitives : (head : List ℕ) → ℕ → (type : ℕ) → (elements : List ℕ) → HeapRecord
  info : (high : List ℕ) → (heap : ℕ) → (name : List ℕ) → HeapRecord

abbrev pub encode : HeapRecord → List ℕ
encode (root tag body) = heap_tag_value tag ∷ body
encode (classes head constants statics n fields) =
    heap_tag_value Tags.class_dump
    ∷ (head
        ++ (u2 (length constants)
            ++ (encode_entries constants
                ++ (u2 (length statics) ++ (encode_entries statics ++ (u2 n ++ fields))))))
encode (instances head body) =
    heap_tag_value Tags.instance_dump ∷ (head ++ (u4 (length body) ++ body))
encode (objects head n class_id elements) =
    heap_tag_value Tags.object_array_dump ∷ (head ++ (u4 n ++ (class_id ++ elements)))
encode (primitives head n type elements) =
    heap_tag_value Tags.primitive_array_dump ∷ (head ++ (u4 n ++ (type ∷ elements)))
encode (info high heap name) = heap_tag_value Tags.heap_dump_info ∷ (high ++ (heap ∷ name))

abbrev pub encode_all : List HeapRecord → List ℕ
encode_all [] = []
encode_all (r ∷ rs) = encode r ++ encode_all rs

-- The bytes behind the tag of a record that has a fixed size. The four obsolete tags have none: the
-- walk passes over the tag alone.
abbrev pub body_size : HprofHeapTag → Option ℕ
body_size Tags.root_unknown = some 4
body_size Tags.root_sticky_class = some 4
body_size Tags.root_monitor_used = some 4
body_size Tags.root_interned_string = some 4
body_size Tags.root_debugger = some 4
body_size Tags.root_vm_internal = some 4
body_size Tags.root_jni_global = some 8
body_size Tags.root_native_stack = some 8
body_size Tags.root_thread_block = some 8
body_size Tags.root_jni_local = some 12
body_size Tags.root_java_frame = some 12
body_size Tags.root_jni_monitor = some 12
body_size Tags.root_thread_object = some 12
body_size Tags.root_finalizing = some 0
body_size Tags.root_reference_cleanup = some 0
body_size Tags.unreachable = some 0
body_size Tags.primitive_array_nodata_dump = some 0
body_size _ = none

-- The sizes agree with the numbers in the record, and the numbers fit their fields.
abbrev pub IsRecord : HeapRecord → Type 0
IsRecord (root tag body) = body_size tag ≡ some (length body)
IsRecord (classes head constants statics n fields) =
    (length head ≡ 36)
    × (length constants < 2 ^ 16)
    × All (IsEntry 2) constants
    × (length statics < 2 ^ 16)
    × All (IsEntry 4) statics
    × (n < 2 ^ 16)
    × (length fields ≡ 5 * n)
IsRecord (instances head body) = (length head ≡ 12) × (length body < 2 ^ 32)
IsRecord (objects head n class_id elements) =
    (length head ≡ 8) × (n < 2 ^ 32) × (length class_id ≡ 4) × (length elements ≡ 4 * n)
IsRecord (primitives head n type elements) =
    (length head ≡ 8) × (n < 2 ^ 32) × (length elements ≡ get_byte_size_from_type type * n)
IsRecord (info high heap name) = (length high ≡ 3) × (length name ≡ 4)
