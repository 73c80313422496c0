-- ===== src/Strip/Session/Calls.antt =====
-- The calls of a process in which some libraries' calls go to the hooks of hprof_strip.cpp.
use xapm.Base.{
  ℕ, ◌+◌, ◌<◌, ◌≡◌, ◌≢◌, Bool, true, Option, none, some, List, [], ◌∷◌, Result, ok, fault,
  null_call, ◌>>=◌, length, int_max, codes,
}
use xapm.Strip.State.{HprofStrip}
use xapm.Strip.Kernel.{Kernel, system_write}
use xapm.Strip.Write.{hook_write_internal, Hooked}
use xapm.Strip.Open.{hook_open_internal}
use xapm.Strip.Install.{Hook, hook_open, hook_write, Routes}
use xapm.Strip.Bridge.{hprof_name}
use xapm.Strip.Session.{DumpRecord, bytes_of}

-- A call of `write` from the library at a path: with a record of the dump on its descriptor, or with
-- anything on another one.
pub data WriteCall : Type 0 where
  dump : (caller : List ℕ) (d : DumpRecord) → WriteCall
  elsewhere : (caller : List ℕ) (g : ℕ) (bytes : List ℕ) → WriteCall

abbrev pub dumps : List WriteCall → List DumpRecord
dumps [] = []
dumps (dump caller d ∷ cs) = d ∷ dumps cs
dumps (elsewhere caller g bytes ∷ cs) = dumps cs

-- What a call is sure to need of the kernel: an answer for each byte of a record, and one for a call
-- that is passed on.
abbrev pub answers : List WriteCall → ℕ
answers [] = 0
answers (dump caller d ∷ cs) = length (bytes_of d) + answers cs
answers (elsewhere caller g bytes ∷ cs) = 1 + answers cs

-- The records are written from libraries whose `write` is hooked, and the calls on other descriptors,
-- from wherever they are, are shorter than 2 ^ 31.
abbrev pub AllCalls : (List ℕ → Bool) → ℕ → List WriteCall → Type 0
AllCalls is_hooked fd [] = Unit {0}
AllCalls is_hooked fd (dump caller d ∷ cs) = (is_hooked caller ≡ true) × AllCalls is_hooked fd cs
AllCalls is_hooked fd (elsewhere caller g bytes ∷ cs) =
    (g ≢ fd) × (length bytes < int_max) × AllCalls is_hooked fd cs

-- A call of `open` from the library at a path, where `open` answers `fd`.
unfoldable pub open_from : Option Hook → ℕ → List ℕ → HprofStrip → Result (ℕ × HprofStrip)
open_from none fd path s = ok (fd, s)
open_from (some hook_open) fd path s = ok (hook_open_internal fd (some path) s)
open_from (some hook_write) fd path s = fault null_call

-- A call of the system's `write`.
abbrev pub pass_on : ℕ → List ℕ → HprofStrip → Kernel → Result Hooked
pass_on fd bytes s k = system_write fd bytes k.outcomes k.files >>= λ (p : Option ℕ × Kernel).
    ok (record { result = p.0; buf = bytes; strip = s; kernel = p.1 })

-- A call of `write`.
unfoldable pub write_from : Option Hook → ℕ → List ℕ → HprofStrip → Kernel → Result Hooked
write_from none fd bytes s k = pass_on fd bytes s k
write_from (some hook_write) fd bytes s k = hook_write_internal fd bytes (length bytes) s k
write_from (some hook_open) fd bytes s k = fault null_call

abbrev pub routed_write : Routes → ℕ → WriteCall → HprofStrip → Kernel → Result Hooked
routed_write routes fd (dump caller d) s k =
    write_from (routes caller (codes "write")) fd (bytes_of d) s k
routed_write routes fd (elsewhere caller g bytes) s k =
    write_from (routes caller (codes "write")) g bytes s k

unfoldable pub run_calls :
    Routes → ℕ → List WriteCall → HprofStrip → Kernel → Result (HprofStrip × Kernel)
unfolding write_from
run_calls routes fd [] s k = ok (s, k)
run_calls routes fd (c ∷ cs) s k = do
  h ← routed_write routes fd c s k
  run_calls routes fd cs h.strip h.kernel

-- The library at a path opens the dump's file, and then the calls are made.
unfoldable pub open_and_write :
    Routes
    → ℕ
    → List ℕ
    → List ℕ
    → List WriteCall
    → HprofStrip
    → Kernel
    → Result (HprofStrip × Kernel)
unfolding open_from run_calls
open_and_write routes fd opener path cs s k = do
  opened ← open_from (routes opener (codes "open")) fd path s
  run_calls routes fd cs opened.1 k

-- A process: Java sets the dump's name, and then the dump is written.
unfoldable pub run_dump :
    Routes
    → Option (List ℕ)
    → ℕ
    → List ℕ
    → List ℕ
    → List WriteCall
    → HprofStrip
    → Kernel
    → Result (HprofStrip × Kernel)
unfolding hprof_name open_and_write
run_dump routes chars fd opener path cs s k = do
  named ← hprof_name chars s
  open_and_write routes fd opener path cs named k
