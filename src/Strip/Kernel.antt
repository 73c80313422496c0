-- ===== src/Strip/Kernel.antt =====
-- `write(2)` as `FullyWrite` and `HookWriteInternal` meet it: an environment that answers each call,
-- and the bytes that each file descriptor has taken.
pub mod Loop
use xapm.Base.{
  ℕ, min, List, [], ◌∷◌, ◌++◌, Option, none, some, Result, ok, stuck, take, drop, length, ◌==◌,
  if◌then◌else◌,
}

-- What one call answers: -1, or how many bytes it took. A kernel takes no more than it was given.
pub data WriteOutcome : Type 0 where
  failed : WriteOutcome
  accepted : ℕ → WriteOutcome

abbrev pub Files : Type 0
Files = ℕ → List ℕ

pub record Kernel : Type 0 where
  pub files : Files
  pub outcomes : List WriteOutcome

abbrev pub append_file : Files → ℕ → List ℕ → Files
append_file files fd bytes g = if g == fd then files g ++ bytes else files g

-- One call of `write`. `none` is the result -1; the model is `stuck` where the answers end, as the
-- program is in a call that does not return.
pub system_write : ℕ → List ℕ → List WriteOutcome → Files → Result (Option ℕ × Kernel)
system_write fd bytes [] files = stuck
system_write fd bytes (failed ∷ os) files = ok (none, record { files = files; outcomes = os })
system_write fd bytes (accepted n ∷ os) files = ok (
  some (min n (length bytes)),
  record { files = append_file files fd (take n bytes); outcomes = os },
)

-- The loop of `HprofStrip::FullyWrite`; the bytes are those from `count - left` on.
unfoldable pub write_loop : ℕ → List WriteOutcome → List ℕ → Files → Result Kernel
write_loop fd os [] files = ok (record { files = files; outcomes = os })
write_loop fd [] (b ∷ bs) files = stuck
write_loop fd (failed ∷ os) (b ∷ bs) files = write_loop fd os (b ∷ bs) files
write_loop fd (accepted n ∷ os) (b ∷ bs) files =
    write_loop fd os (drop n (b ∷ bs)) (append_file files fd (take n (b ∷ bs)))

pub fully_write : ℕ → List ℕ → Kernel → Result Kernel
fully_write fd bytes k = write_loop fd k.outcomes bytes k.files
