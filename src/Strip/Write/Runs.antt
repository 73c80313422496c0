-- ===== src/Strip/Write/Runs.antt =====
-- A heap dump with one piece to cut too many for hprof_strip.cpp, and the theorem at it.
use xapm.Base.{
  ℕ, zero, suc, ◌+◌, ◌*◌, ◌≡◌, refl, true, List, [], ◌∷◌, fault, bad_write, arith, length,
  length-append, All, replicate,
}
use xapm.Strip.State.{HprofStrip}
use xapm.Strip.Kernel.{Kernel}
use xapm.Strip.Format.{HeapRecord, instances, encode, encode_all, IsRecord}
use xapm.Strip.Spec.{range, ranges}
use xapm.Strip.Write.Segment.{segment}
use xapm.Strip.Write.Overflow.{hook_write-full}
use xapm.Strip.Write.{hook_write_internal}

-- An instance of one byte, many times.
abbrev instance : HeapRecord
instance = instances (replicate 12 0) (9 ∷ [])

copies : ℕ → List HeapRecord
copies zero = []
copies (suc n) = instance ∷ copies n

copies-IsRecord : (n : ℕ) → All IsRecord (copies n)
unfolding copies
copies-IsRecord zero = tt
copies-IsRecord (suc n) = ((refl, omega arith), copies-IsRecord n)

length-copies : (n : ℕ) → length (encode_all (copies n)) ≡ 18 * n
unfolding copies
length-copies zero = refl
length-copies (suc n) =
    omega (arith, length-copies n, length-append (encode instance) (encode_all (copies n)))

length-ranges-copies : (i n : ℕ) → length (ranges true i (copies n)) ≡ n
unfolding copies
length-ranges-copies i zero = refl
length-ranges-copies i (suc n) = omega (
  arith,
  length-ranges-copies (i + length (encode instance)) n,
  length-append (range true i instance) (ranges true (i + length (encode instance)) (copies n)),
)

-- The dump goes on in the zygote heap.
abbrev in_zygote : HprofStrip
in_zygote = record {
  hprof_fd = 7;
  strip_bytes_sum = 0;
  heap_serial_num = 0;
  hook_write_serial_num = 0;
  strip_index = 0;
  is_hook_success = true;
  is_current_system_heap = true;
  hprof_name = b'd' ∷ [];
  strip_index_list_pair = λ j. 0;
}

abbrev kernel : Kernel
kernel = record { files = λ g. []; outcomes = [] }

hook_write-full_example :
    hook_write_internal 7
      (segment 0x1C 5 0 (encode_all (copies 131074)))
      (length (segment 0x1C 5 0 (encode_all (copies 131074))))
      in_zygote
      kernel
    ≡ fault bad_write
hook_write-full_example =
    hook_write-full 0x1C 5 0 (copies 131074) in_zygote refl (copies-IsRecord 131074)
      (omega (arith, length-copies 131074)) (omega (arith, length-ranges-copies 9 131074)) 7 kernel
      refl
