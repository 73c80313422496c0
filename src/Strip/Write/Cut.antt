-- ===== src/Strip/Write/Cut.antt =====
-- The noted pieces against the specification: cutting them out of the buffer leaves what is to be
-- kept of each record.
use xapm.Base.{
  ℕ, ◌+◌, ◌-◌, ◌≤◌, ◌≡◌, refl, sym, ap, ◌∙◌, Bool, true, false, Option, none, some, List, [], ◌∷◌,
  ◌++◌, arith, length, length-append, append_assoc, append-nil, take, drop, length-drop, take_all,
  take_extend, drop_add,
}
use xapm.Strip.Format.{
  HeapRecord, root, classes, instances, objects, primitives, info, encode, encode_all,
}
use xapm.Strip.Spec.{enter, cut_to, kept_of, kept_all, range_of, ranges}
use xapm.Strip.Write.Gaps.{Ordered, cut}

-- What is left of a cut record is its front.
abbrev IsFront : Option (List ℕ) → List ℕ → Type 0
IsFront none xs = Unit {0}
IsFront (some k) xs = (tail : List ℕ) × (xs ≡ k ++ tail)

cut_to-IsFront : (sys : Bool) (r : HeapRecord) → IsFront (cut_to sys r) (encode r)
cut_to-IsFront sys (root tag body) = tt
cut_to-IsFront sys (classes head constants statics n fields) = tt
cut_to-IsFront true (instances head body) = (encode (instances head body), refl)
cut_to-IsFront false (instances head body) = tt
cut_to-IsFront true (objects head n class_id elements) =
    (encode (objects head n class_id elements), refl)
cut_to-IsFront false (objects head n class_id elements) = tt
cut_to-IsFront true (primitives head n type elements) =
    (encode (primitives head n type elements), refl)
cut_to-IsFront false (primitives head n type elements) = (elements, simp append_assoc)
cut_to-IsFront true (info high heap name) = (encode (info high heap name), refl)
cut_to-IsFront false (info high heap name) = tt

-- The pieces `ps` are cut from what follows index `i`, which leaves `left`.
abbrev Cuts : List ℕ → ℕ → List (ℕ × ℕ) → List ℕ → ℕ → Type 0
Cuts buf i ps left start =
    Ordered start (length buf) ps × (cut buf start ps ≡ take (i - start) (drop start buf) ++ left)

module _ (buf : List ℕ) (i : ℕ) (r : HeapRecord) (behind : List ℕ)
    (here : drop i buf ≡ encode r ++ behind) where
  Cuts-record :
      (o : Option (List ℕ))
      → IsFront o (encode r)
      → (ps : List (ℕ × ℕ)) (left : List ℕ)
      → ((start : ℕ)
          → start ≤ i + length (encode r)
          → Cuts buf (i + length (encode r)) ps left start)
      → (start : ℕ) → start ≤ i
      → Cuts buf i (range_of o i r ++ ps) (kept_of o r ++ left) start
  Cuts-record none front ps left rest start h =
      let (o, e) = rest start (omega arith) in
      (o, e ∙ rw (take_extend start i buf (encode r) behind h here, append_assoc))
  Cuts-record (some k) (tail, front) ps left rest start h =
      let j = i + length (encode r) in
      let (o, e) = rest j (omega arith) in
      let here' : drop i buf ≡ k ++ (tail ++ behind) =
        here ∙ rw front (append_assoc k tail behind) in
      let nothing : j - j ≡ 0 = omega arith in
      let size : length (encode r) ≡ length k + length tail =
        ap length front ∙ length-append k tail in
      (
        (omega arith, omega arith, o),
        rw (take_extend start i buf k (tail ++ behind) h here', e, nothing, append_assoc),
      )

pub Cuts-records :
    (buf : List ℕ) (rs : List HeapRecord) (i : ℕ) (sys : Bool)
    → drop i buf ≡ encode_all rs
    → i ≤ length buf
    → (start : ℕ) → start ≤ i
    → Cuts buf i (ranges sys i rs) (kept_all sys rs) start
Cuts-records buf [] i sys here w start h =
    let size : length (drop start buf) ≤ i - start =
      omega (arith, ap length here, length-drop i buf, length-drop start buf) in
    (omega arith, sym (rw append-nil (take_all (i - start) (drop start buf) size)))
Cuts-records buf (r ∷ rs) i sys here w start h =
    Cuts-record buf i r (encode_all rs) here (cut_to (enter sys r) r)
      (cut_to-IsFront (enter sys r) r) (ranges (enter sys r) j rs) (kept_all (enter sys r) rs)
      (Cuts-records buf rs j (enter sys r) (drop_add (encode r) buf (encode_all rs) i here) (
        omega (arith, ap length here, length-drop i buf, length-append (encode r) (encode_all rs))))
      start h
  where
    j : ℕ
    j = i + length (encode r)
