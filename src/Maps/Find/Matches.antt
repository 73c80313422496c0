-- ===== src/Maps/Find/Matches.antt =====
-- Which entry of the maps map_util.hpp takes, and the load base that it gives.
use native.Mathlib.Nat.{mod-lt, div-add-mod', suc-mul, mod-add-mod, add-mul-mod_self_right}
use xapm.Base.{
  ℕ, suc, ◌+◌, ◌-◌, ◌*◌, ◌/◌, ◌%◌, ◌<◌, ◌≡◌, sym, ap, ◌∙◌, ◌⊎◌, inl, inr, true, not, ◌&&◌, List,
  ◌++◌, some, ok, ◌==◌, arith, Bool-cases, if_true, if_false,
}
use xapm.Maps.Bias.{MapEntry, Process, read_load_bias}
use xapm.Maps.Names.{ends_with, ends_with_iff}
use xapm.Maps.Find.{bias_of, match_entry}

-- A difference of words with the subtrahend added again.
pub base_lem : (s b m : ℕ) → 0 < m → ((s + m - b % m) % m + b) % m ≡ s % m
base_lem s b m pos =
    let below = mod-lt b pos in
    let p = div-add-mod' b m in
    let q = suc-mul (b / m) m in
    let e : s + m - b % m + b ≡ s + suc (b / m) * m = omega arith in
    mod-add-mod (s + m - b % m) m b
    ∙ (ap (λ (t : ℕ). t % m) e ∙ add-mul-mod_self_right s (suc (b / m)) m)

module _ (process : Process) (name : List ℕ) where
  -- The name ends with the one that is looked for.
  abbrev pub HasName : List ℕ → Type 0
  HasName full_name = (front : List ℕ) × (full_name ≡ front ++ name)

  pub ends_with-HasName : (full_name : List ℕ) → ends_with full_name name ≡ true → HasName full_name
  ends_with-HasName full_name h = ((ends_with_iff full_name name).0 h).0

  -- The entry is executable and has the name, and its bias comes from its own header, where it maps
  -- the file's start, or else from the one of the readable entry before it that does.
  pub record IsMatch (prev_entry e : MapEntry) (load_bias : ℕ) : Type 0 where
    pub match_exec : e.prot_exec ≡ true
    pub match_name : HasName e.name
    pub match_bias :
        ((e.offset ≡ 0) × (read_load_bias process e ≡ ok (some load_bias)))
        ⊎ (HasName prev_entry.name
            × (prev_entry.offset ≡ 0)
            × (prev_entry.prot_read ≡ true)
            × (read_load_bias process prev_entry ≡ ok (some load_bias)))

  bias_of-Bias :
      (prev_entry e : MapEntry) (load_bias : ℕ)
      → bias_of process name prev_entry e ≡ ok (some load_bias)
      → ((e.offset ≡ 0) × (read_load_bias process e ≡ ok (some load_bias)))
        ⊎ (HasName prev_entry.name
            × (prev_entry.offset ≡ 0)
            × (prev_entry.prot_read ≡ true)
            × (read_load_bias process prev_entry ≡ ok (some load_bias)))
  unfolding bias_of
  bias_of-Bias prev_entry e load_bias h = elim (Bool-cases (e.offset == 0)) [
    | inl p ↦ inl (ground arith, sym (if_true _ _ p) ∙ h)
    | inr p ↦
        let k = sym (if_false _ _ p) ∙ h in
        elim (Bool-cases (
          ends_with prev_entry.name name
          && (prev_entry.offset == 0 && (prev_entry.prot_read && not prev_entry.prot_exec)))) [
            | inl q ↦
                let n : ends_with prev_entry.name name ≡ true = ground arith in
                inr (
                  ends_with-HasName prev_entry.name n,
                  ground arith,
                  ground arith,
                  sym (if_true _ _ q) ∙ k,
                )
            | inr q ↦ absurd (ground (arith, sym (if_false _ _ q) ∙ k))
          ]
  ]

  pub match_entry-IsMatch :
      (prev_entry e : MapEntry) (load_bias : ℕ)
      → match_entry process name prev_entry e ≡ ok (some load_bias)
      → IsMatch prev_entry e load_bias
  unfolding match_entry
  match_entry-IsMatch prev_entry e load_bias h =
      elim (Bool-cases (e.prot_exec && ends_with e.name name)) [
        | inl p ↦ record {
          match_exec = ground arith;
          match_name = ends_with-HasName e.name (ground arith);
          match_bias = bias_of-Bias prev_entry e load_bias (sym (if_true _ _ p) ∙ h);
        }
        | inr p ↦ absurd (ground (arith, sym (if_false _ _ p) ∙ h))
      ]
