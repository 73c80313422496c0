-- ===== src/Strip/State/Strips.antt =====
-- The array of strips as a list of pairs, and what `push_strip` does to it.
use xapm.Base.{
  ℕ, zero, suc, ◌+◌, ◌*◌, ◌%◌, ◌≤◌, ◌<◌, ◌≡◌, refl, sym, ap, ◌∙◌, Bool, List, [], ◌∷◌, ◌++◌, ok,
  arith, length, u32_mod, lt→ltb, le→ltb_false, if_false, fault, bad_write, append_assoc,
  append-nil, length-append,
}
use xapm.Strip.State.{HprofStrip, update, push_strip, add_strip_bytes, strip_list_length}

-- The pairs from the `i`-th on.
abbrev pub pairs : (ℕ → ℕ) → ℕ → ℕ → List (ℕ × ℕ)
pairs f i zero = []
pairs f i (suc n) = (f (i * 2), f (i * 2 + 1)) ∷ pairs f (suc i) n

abbrev pub strips : HprofStrip → List (ℕ × ℕ)
strips s = pairs s.strip_index_list_pair 0 s.strip_index

-- How many pairs the array has room for.
abbrev pub strip_capacity : ℕ
strip_capacity = 131073

pairs_snoc :
    (f : ℕ → ℕ) (i n : ℕ)
    → pairs f i (suc n) ≡ pairs f i n ++ (f ((i + n) * 2), f ((i + n) * 2 + 1)) ∷ []
pairs_snoc f i zero = let e : i + zero ≡ i = omega arith in rw e
pairs_snoc f i (suc n) =
    let e : i + suc n ≡ suc i + n = omega arith in
    rw e (ap (λ (t : List (ℕ × ℕ)). (f (i * 2), f (i * 2 + 1)) ∷ t) (pairs_snoc f (suc i) n))

-- A write behind them changes no pair.
pairs-update : (f : ℕ → ℕ) (i n j v : ℕ) → (i + n) * 2 ≤ j → pairs (update f j v) i n ≡ pairs f i n
pairs-update f i zero j v h = refl
pairs-update f i (suc n) j v h = ground (arith, pairs-update f (suc i) n j v (omega arith))

pairs_push :
    (f : ℕ → ℕ) (k left right : ℕ)
    → pairs (update (update f (k * 2) left) (k * 2 + 1) right) 0 (suc k)
      ≡ pairs f 0 k ++ (left, right) ∷ []
pairs_push f k left right =
    let g = update f (k * 2) left in
    let old =
      pairs-update g 0 k (k * 2 + 1) right (omega arith)
      ∙ pairs-update f 0 k (k * 2) left (omega arith) in
    pairs_snoc (update g (k * 2 + 1) right) 0 k
    ∙ rw old (ap (λ (p : ℕ × ℕ). pairs f 0 k ++ p ∷ []) (ground arith))

-- `t` is `s` after steps that cut the pieces `cut`, counted `gone` bytes as removed and left the
-- heap kind `sys`.
pub record Stepped (s t : HprofStrip) (sys : Bool) (cut : List (ℕ × ℕ)) (gone : ℕ) : Type 0 where
  pub strips_of : strips t ≡ strips s ++ cut
  pub index_of : t.strip_index ≡ s.strip_index + length cut
  pub sum_of : t.strip_bytes_sum ≡ (s.strip_bytes_sum + gone) % u32_mod
  pub heap_of : t.is_current_system_heap ≡ sys
  pub same_fd : t.hprof_fd ≡ s.hprof_fd
  pub same_heap_serial : t.heap_serial_num ≡ s.heap_serial_num
  pub same_write_serial : t.hook_write_serial_num ≡ s.hook_write_serial_num
  pub same_hook : t.is_hook_success ≡ s.is_hook_success
  pub same_name : t.hprof_name ≡ s.hprof_name

pub Stepped-trans :
    {s t u : HprofStrip} {b c : Bool} {xs ys : List (ℕ × ℕ)} {m n : ℕ}
    → Stepped s t b xs m
    → Stepped t u c ys n
    → Stepped s u c (xs ++ ys) (m + n)
Stepped-trans {s} {t} {u} {b} {c} {xs} {ys} {m} {n} p q = record {
  strips_of = q.strips_of ∙ rw (p.strips_of) (append_assoc (strips s) xs ys);
  index_of = omega (arith, p.index_of, q.index_of, length-append xs ys);
  sum_of = omega (arith, p.sum_of, q.sum_of);
  heap_of = q.heap_of;
  same_fd = q.same_fd ∙ p.same_fd;
  same_heap_serial = q.same_heap_serial ∙ p.same_heap_serial;
  same_write_serial = q.same_write_serial ∙ p.same_write_serial;
  same_hook = q.same_hook ∙ p.same_hook;
  same_name = q.same_name ∙ p.same_name;
}

pub Stepped-refl :
    (s : HprofStrip) (sys : Bool)
    → s.is_current_system_heap ≡ sys
    → s.strip_bytes_sum < u32_mod
    → Stepped s s sys [] 0
Stepped-refl s sys e w = record {
  strips_of = sym (append-nil (strips s));
  index_of = omega arith;
  sum_of = omega arith;
  heap_of = e;
  same_fd = refl;
  same_heap_serial = refl;
  same_write_serial = refl;
  same_hook = refl;
  same_name = refl;
}

pub add_strip_bytes-Stepped :
    {s t : HprofStrip} {sys : Bool} {xs : List (ℕ × ℕ)} (n : ℕ)
    → Stepped s t sys xs 0
    → Stepped s (add_strip_bytes t n) sys xs n
unfolding add_strip_bytes
add_strip_bytes-Stepped n p = record {
  strips_of = p.strips_of;
  index_of = p.index_of;
  sum_of = omega (arith, p.sum_of);
  heap_of = p.heap_of;
  same_fd = p.same_fd;
  same_heap_serial = p.same_heap_serial;
  same_write_serial = p.same_write_serial;
  same_hook = p.same_hook;
  same_name = p.same_name;
}

-- A strip, where the array has room.
pub push_strip_lem :
    (s : HprofStrip) (left right : ℕ) (sys : Bool)
    → s.is_current_system_heap ≡ sys
    → s.strip_index < strip_capacity
    → s.strip_bytes_sum < u32_mod
    → (t : HprofStrip) × (push_strip s left right ≡ ok t) × Stepped s t sys ((left, right) ∷ []) 0
unfolding push_strip
push_strip_lem s left right sys e h w = (t, rw (lt→ltb _ _ room), stepped)
  where
    k : ℕ
    k = s.strip_index

    f : ℕ → ℕ
    f = s.strip_index_list_pair

    room : k * 2 + 1 < strip_list_length
    room = omega arith

    g : ℕ → ℕ
    g = update (update f (k * 2) left) (k * 2 + 1) right

    t : HprofStrip
    t = record s { strip_index = suc k; strip_index_list_pair = g }

    added : pairs g 0 (suc k) ≡ pairs f 0 k ++ (left, right) ∷ []
    added = pairs_push f k left right

    stepped : Stepped s t sys ((left, right) ∷ []) 0
    stepped = record {
      strips_of = added;
      index_of = omega arith;
      sum_of = omega arith;
      heap_of = e;
      same_fd = refl;
      same_heap_serial = refl;
      same_write_serial = refl;
      same_hook = refl;
      same_name = refl;
    }

-- A strip, where the array is full, is a write behind its end.
pub push_strip-full :
    (s : HprofStrip) (left right : ℕ)
    → strip_capacity ≤ s.strip_index
    → push_strip s left right ≡ fault bad_write
unfolding push_strip
push_strip-full s left right h =
    if_false _ _ (le→ltb_false (s.strip_index * 2 + 1) strip_list_length (omega arith))
