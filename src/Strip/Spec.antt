-- ===== src/Strip/Spec.antt =====
-- What stripping a heap dump segment is meant to do, record by record: hprof/hprofclipper/README.md
-- and the comments of `ProcessHeap`. Nothing here looks at indices of the buffer but `ranges`, which
-- says where the cut pieces lie.
use xapm.Base.{
  ℕ, ◌+◌, Bool, true, false, ◌||◌, Option, none, some, List, [], ◌∷◌, ◌++◌, length, ◌==◌, add32,
  ◌≡◌, arith, length-append,
}
use xapm.Strip.Tags
use xapm.Strip.Tags.{heap_tag_value, hprof_heap_zygote, hprof_heap_image}
use xapm.Strip.Format.{
  HeapRecord, root, classes, instances, objects, primitives, info, encode, encode_all, u4,
}

-- The zygote heap and the image heap are shared by all processes.
abbrev pub is_system_heap : ℕ → Bool
is_system_heap heap = heap == hprof_heap_zygote || heap == hprof_heap_image

-- Whether a record is in a system heap; a heap info record is in the heap that it opens.
abbrev pub enter : Bool → HeapRecord → Bool
enter sys (info high heap name) = is_system_heap heap
enter sys (root tag body) = sys
enter sys (classes head constants statics n fields) = sys
enter sys (instances head body) = sys
enter sys (objects head n class_id elements) = sys
enter sys (primitives head n type elements) = sys

-- What is left of a record that is cut; `none` for one that is not. Outside the system heaps only
-- the elements of primitive arrays go.
abbrev pub cut_to : Bool → HeapRecord → Option (List ℕ)
cut_to sys (root tag body) = none
cut_to sys (classes head constants statics n fields) = none
cut_to true (instances head body) = some []
cut_to false (instances head body) = none
cut_to true (objects head n class_id elements) = some []
cut_to false (objects head n class_id elements) = none
cut_to true (primitives head n type elements) = some []
cut_to false (primitives head n type elements) =
    some (heap_tag_value Tags.primitive_array_dump ∷ (head ++ (u4 n ++ (type ∷ []))))
cut_to true (info high heap name) = some []
cut_to false (info high heap name) = none

-- The bytes of a record that reach the file.
abbrev pub kept_of : Option (List ℕ) → HeapRecord → List ℕ
kept_of none r = encode r
kept_of (some k) r = k

abbrev pub kept : Bool → HeapRecord → List ℕ
kept sys r = kept_of (cut_to (enter sys r) r) r

abbrev pub kept_all : Bool → List HeapRecord → List ℕ
kept_all sys [] = []
kept_all sys (r ∷ rs) = kept sys r ++ kept_all (enter sys r) rs

abbrev pub enter_all : Bool → List HeapRecord → Bool
enter_all sys [] = sys
enter_all sys (r ∷ rs) = enter_all (enter sys r) rs

-- The pieces `[left, right)` that are cut from records that start at index `i`.
abbrev pub range_of : Option (List ℕ) → ℕ → HeapRecord → List (ℕ × ℕ)
range_of none i r = []
range_of (some k) i r = (i + length k, i + length (encode r)) ∷ []

abbrev pub range : Bool → ℕ → HeapRecord → List (ℕ × ℕ)
range sys i r = range_of (cut_to (enter sys r) r) i r

abbrev pub ranges : Bool → ℕ → List HeapRecord → List (ℕ × ℕ)
ranges sys i [] = []
ranges sys i (r ∷ rs) = range sys i r ++ ranges (enter sys r) (i + length (encode r)) rs

-- The bytes that the file lacks for good: a primitive array outside the system heaps is filled up
-- again, to its full size, when the file is read.
abbrev pub lost_of : Bool → Option (List ℕ) → HeapRecord → ℕ
lost_of sys none r = 0
lost_of true (some k) r = length (encode r)
lost_of false (some k) r = 0

abbrev pub lost : Bool → HeapRecord → ℕ
lost sys r = lost_of (enter sys r) (cut_to (enter sys r) r) r

abbrev pub lost_all : Bool → List HeapRecord → ℕ
lost_all sys [] = 0
lost_all sys (r ∷ rs) = lost sys r + lost_all (enter sys r) rs

-- The running number of primitive arrays.
abbrev pub serial : ℕ → HeapRecord → ℕ
serial n (primitives head m type elements) = add32 n 1
serial n (root tag body) = n
serial n (classes head constants statics m fields) = n
serial n (instances head body) = n
serial n (objects head m class_id elements) = n
serial n (info high heap name) = n

abbrev pub serial_all : ℕ → List HeapRecord → ℕ
serial_all n [] = n
serial_all n (r ∷ rs) = serial_all (serial n r) rs

-- A record as a reader sees it again, once the primitive arrays are filled up.
abbrev pub restored_of : Bool → Option (List ℕ) → HeapRecord → List ℕ
restored_of sys none r = encode r
restored_of true (some k) r = []
restored_of false (some k) r = encode r

abbrev pub restored_all : Bool → List HeapRecord → List ℕ
restored_all sys [] = []
restored_all sys (r ∷ rs) =
    restored_of (enter sys r) (cut_to (enter sys r) r) r ++ restored_all (enter sys r) rs

restored_of-lost_of :
    (sys : Bool) (k : Option (List ℕ)) (r : HeapRecord)
    → lost_of sys k r + length (restored_of sys k r) ≡ length (encode r)
restored_of-lost_of sys none r = omega arith
restored_of-lost_of true (some k) r = omega arith
restored_of-lost_of false (some k) r = omega arith

-- What is lost and what is restored make up the segment.
pub restored_all-lost_all :
    (sys : Bool) (rs : List HeapRecord)
    → lost_all sys rs + length (restored_all sys rs) ≡ length (encode_all rs)
restored_all-lost_all sys [] = omega arith
restored_all-lost_all sys (r ∷ rs) =
    let flag = enter sys r in
    let left = restored_of flag (cut_to flag r) r in
    omega (
      arith,
      restored_all-lost_all flag rs,
      restored_of-lost_of flag (cut_to flag r) r,
      length-append (encode r) (encode_all rs),
      length-append left (restored_all flag rs),
    )
