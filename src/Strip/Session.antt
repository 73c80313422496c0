-- ===== src/Strip/Session.antt =====
-- The records of a dump, each of which ART writes by one call of `write`, through the hook of
-- hprof_strip.cpp.
pub mod Calls
pub mod Mixed
pub mod Sample
use mathlib.Core.Path.{subst}
use xapm.Base.{
  ℕ, ◌+◌, ◌%◌, ◌≤◌, ◌<◌, ◌≡◌, ◌≢◌, refl, sym, ap, ◌∙◌, Bool, true, false, Option, some, List, [],
  ◌∷◌, ◌++◌, Result, ok, ◌>>=◌, arith, length, length-append, All, u32_mod, int_max, sub32,
  append-nil, Contains,
}
use xapm.Strip.State.{HprofStrip}
use xapm.Strip.State.Strips.{strip_capacity}
use xapm.Strip.Kernel.{Kernel, Files, append_file}
use xapm.Strip.Kernel.Loop.{progress, append_file-nil, append_file-append}
use xapm.Strip.Format.{HeapRecord, encode_all, IsRecord}
use xapm.Strip.Spec.{enter_all, kept_all, ranges, lost_all, restored_all, restored_all-lost_all}
use xapm.Strip.Write.{is_heap_record, hook_write_internal, Hooked}
use xapm.Strip.Write.Segment.{segment, Stripped}
use xapm.Strip.Write.Hook.{hook_write-segment, hook_write-other_tag}
use xapm.Strip.Open.{hook_open_internal, hook_open-dump}

-- A record of the dump: one of another kind, with its tag, or a heap dump with its tag and time.
pub data DumpRecord : Type 0 where
  other : ℕ → List ℕ → DumpRecord
  heap_dump : (tag time : ℕ) → List HeapRecord → DumpRecord

-- The bytes that ART hands to `write`.
abbrev pub bytes_of : DumpRecord → List ℕ
bytes_of (other tag body) = tag ∷ body
bytes_of (heap_dump tag time rs) = segment tag time (length (encode_all rs)) (encode_all rs)

-- The heap that a record ends in.
abbrev pub heap_after : Bool → DumpRecord → Bool
heap_after sys (other tag body) = sys
heap_after sys (heap_dump tag time rs) = enter_all sys rs

-- What is to reach the file of a record: a heap dump with the sub-records that are kept, and the
-- length that they have for a reader who fills the primitive arrays up.
abbrev pub stripped : Bool → DumpRecord → List ℕ
stripped sys (other tag body) = tag ∷ body
stripped sys (heap_dump tag time rs) =
    segment tag time (length (restored_all sys rs)) (kept_all sys rs)

abbrev pub stripped_all : Bool → List DumpRecord → List ℕ
stripped_all sys [] = []
stripped_all sys (d ∷ ds) = stripped sys d ++ stripped_all (heap_after sys d) ds

-- The record is shorter than 2 ^ 31, and a heap dump is well-formed and has no more pieces to cut
-- than the array holds.
abbrev pub IsFit : Bool → DumpRecord → Type 0
IsFit sys (other tag body) = (is_heap_record tag ≡ false) × (length (tag ∷ body) < int_max)
IsFit sys (heap_dump tag time rs) =
    (is_heap_record tag ≡ true)
    × All IsRecord rs
    × (length (bytes_of (heap_dump tag time rs)) < int_max)
    × (length (ranges sys 9 rs) ≤ strip_capacity)

abbrev pub AllFit : Bool → List DumpRecord → Type 0
AllFit sys [] = Unit {0}
AllFit sys (d ∷ ds) = IsFit sys d × AllFit (heap_after sys d) ds

-- One record.
pub record Written (fd : ℕ) (d : DumpRecord) (s : HprofStrip) (k : Kernel) (h : Hooked)
    : Type 0 where
  pub call : hook_write_internal fd (bytes_of d) (length (bytes_of d)) s k ≡ ok h
  pub files : h.kernel.files ≡ append_file k.files fd (stripped s.is_current_system_heap d)
  pub heap : h.strip.is_current_system_heap ≡ heap_after s.is_current_system_heap d
  pub same_fd : h.strip.hprof_fd ≡ s.hprof_fd
  pub left : progress k.outcomes ≤ progress h.kernel.outcomes + length (bytes_of d)

pub write_record_lem :
    (fd : ℕ) (d : DumpRecord) (s : HprofStrip) (k : Kernel)
    → s.hprof_fd ≡ fd
    → IsFit s.is_current_system_heap d
    → length (bytes_of d) ≤ progress k.outcomes
    → (h : Hooked) × Written fd d s k h
write_record_lem fd (other tag body) s k e (not_heap, fits) enough =
    let (h, p, r, b, f, sys, same, left) =
      hook_write-other_tag fd tag body s k e not_heap fits enough in
    (h, record { call = p; files = f; heap = sys; same_fd = same; left = left })
write_record_lem fd (heap_dump tag time rs) s k e (is_heap, all, fits, room) enough =
    let len = length (encode_all rs) in
    let sys = s.is_current_system_heap in
    let (h, p, q) =
      hook_write-segment fd tag time len rs s k e is_heap (omega (arith, fits)) all fits room
        enough in
    let kept_length : sub32 len (lost_all sys rs % u32_mod) ≡ length (restored_all sys rs) =
      omega (arith, restored_all-lost_all sys rs, fits) in
    (
      h,
      record {
        call = p;
        files =
            q.files_of
            ∙ ap (λ (v : ℕ). append_file k.files fd (segment tag time v (kept_all sys rs)))
                kept_length;
        heap = q.heap_of;
        same_fd = q.fd_of;
        left = q.progress_of;
      },
    )
