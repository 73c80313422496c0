-- ===== src/Dlfcn/Objects.antt =====
-- Which object `dl_iterate_callback` of kwai_dlfcn.cpp settles on.
use mathlib.Core.Path.{subst}
use xapm.Base.{
  ℕ, ◌≡◌, ◌≢◌, ◌⊎◌, refl, sym, ap, ◌∙◌, inl, inr, Bool, true, false, List, [], ◌∷◌, ◌++◌, All,
  Option, none, some, ok, >>=-eq-ok, ok-injective, ◌==◌, if◌then◌else◌, Bool-cases, Option-cases,
  if_true, if_false, arith, strstr, Contains, strstr-split, strstr-Contains,
}
use xapm.Dlfcn.{
  DlPhdrInfo, Linker, new_target, dl_iterate_phdr_wrapper, name_contains, dl_iterate_callback,
  dl_iterate_phdr,
}

-- The object is loaded somewhere and its path has the name in it.
pub record IsNamed (part : List ℕ) (info : DlPhdrInfo) : Type 0 where
  pub path : List ℕ
  pub has_path : info.dlpi_name ≡ some path
  pub has_part : Contains part path
  pub is_loaded : info.dlpi_addr ≢ 0

-- The first object of the list that is named so, or the target as it was.
pub data Settled (part : List ℕ) (target : DlPhdrInfo) (objects : List DlPhdrInfo)
    : DlPhdrInfo → Type 0 where
  none_named : All (λ info. ¬ IsNamed part info) objects → Settled part target objects target
  first_named :
      (before : List DlPhdrInfo) (info : DlPhdrInfo) (after : List DlPhdrInfo)
      → objects ≡ before ++ (info ∷ after)
      → All (λ o. ¬ IsNamed part o) before
      → IsNamed part info
      → Settled part target objects info

name_contains-Contains :
    (name : Option (List ℕ)) (part : List ℕ)
    → name_contains name (some part) ≡ ok true
    → (path : List ℕ) × (name ≡ some path) × Contains part path
unfolding name_contains
name_contains-Contains none part h = absurd (ground arith)
name_contains-Contains (some path) part h = elim (Option-cases (strstr path part)) [
  | inl e ↦ absurd (ground arith)
  | inr (rest, e) ↦
      let (front, back, p, q) = strstr-split path part rest e in
      (path, refl, (front, back, p ∙ ap (λ t. front ++ t) q))
]

name_contains-misses :
    (path part : List ℕ) → name_contains (some path) (some part) ≡ ok false → ¬ Contains part path
unfolding name_contains
name_contains-misses path part h c = let (rest, e) = strstr-Contains path part c in ground arith

Settled-later :
    (part : List ℕ) (target info : DlPhdrInfo) (objects : List DlPhdrInfo) (o : DlPhdrInfo)
    → ¬ IsNamed part info
    → Settled part target objects o
    → Settled part target (info ∷ objects) o
Settled-later part target info objects _ n (none_named all) = none_named (n, all)
Settled-later part target info objects _ n (first_named before o after e all named) =
    first_named (info ∷ before) o after (ap (λ (os : List DlPhdrInfo). info ∷ os) e) (n, all) named

name_contains-IsNamed :
    (info : DlPhdrInfo) (part : List ℕ)
    → info.dlpi_addr ≢ 0
    → name_contains info.dlpi_name (some part) ≡ ok true
    → IsNamed part info
name_contains-IsNamed info part n h =
    let (path, e, c) = name_contains-Contains info.dlpi_name part h in
    record { path = path; has_path = e; has_part = c; is_loaded = n }

name_contains-not_IsNamed :
    (info : DlPhdrInfo) (part : List ℕ)
    → name_contains info.dlpi_name (some part) ≡ ok false
    → ¬ IsNamed part info
name_contains-not_IsNamed info part h n =
    name_contains-misses n.path part
      (ap (λ name. name_contains name (some part)) (sym n.has_path) ∙ h) n.has_part

-- What a call of the callback does.
CallbackCase : List ℕ → DlPhdrInfo → DlPhdrInfo → Bool × DlPhdrInfo → Type 0
CallbackCase part info target r =
    (IsNamed part info × (r ≡ (true, info))) ⊎ ((¬ IsNamed part info) × (r ≡ (false, target)))

CallbackCase-found :
    (part : List ℕ) (info target : DlPhdrInfo) (r : Bool × DlPhdrInfo) (found : Bool)
    → info.dlpi_addr ≢ 0
    → name_contains info.dlpi_name (some part) ≡ ok found
    → ◌≡◌ {A = Bool × DlPhdrInfo} (found, if found then info else target) r
    → CallbackCase part info target r
unfolding CallbackCase
CallbackCase-found part info target r true n h e = inl (name_contains-IsNamed info part n h, sym e)
CallbackCase-found part info target r false n h e =
    inr (name_contains-not_IsNamed info part h, sym e)

dl_iterate_callback-CallbackCase :
    (info target : DlPhdrInfo) (part : List ℕ) (r : Bool × DlPhdrInfo)
    → target.dlpi_name ≡ some part
    → dl_iterate_callback info target ≡ ok r
    → CallbackCase part info target r
unfolding dl_iterate_callback CallbackCase
dl_iterate_callback-CallbackCase info target part r t h = elim (Bool-cases (info.dlpi_addr == 0)) [
  | inl z ↦ inr (λ n. n.is_loaded (ground arith), sym (ok-injective _ _ (sym (if_true _ _ z) ∙ h)))
  | inr z ↦
      let (found, p, q) =
        >>=-eq-ok (name_contains info.dlpi_name target.dlpi_name) _ (sym (if_false _ _ z) ∙ h) in
      CallbackCase-found part info target r found (ground arith)
        (ap (λ name. name_contains info.dlpi_name name) (sym t) ∙ p) (ok-injective _ _ q)
]

Settled-step :
    (part : List ℕ) (info target : DlPhdrInfo) (objects : List DlPhdrInfo) (o : DlPhdrInfo)
    (r : Bool × DlPhdrInfo)
    → CallbackCase part info target r
    → elim r.0 [ true ↦ ok r.1 | false ↦ dl_iterate_phdr objects r.1 ] ≡ ok o
    → (dl_iterate_phdr objects target ≡ ok o → Settled part target objects o)
    → Settled part target (info ∷ objects) o
unfolding CallbackCase
Settled-step part info target objects o (true, i) (inl (n, e)) h later =
    let k = ok-injective i o h in
    subst (Settled part target (info ∷ objects)) (ap (λ (p : Bool × DlPhdrInfo). p.1) (sym e) ∙ k)
      (first_named [] info objects refl tt n)
Settled-step part info target objects o (false, i) (inl (n, e)) h later =
    absurd (ground (arith, ap (λ (p : Bool × DlPhdrInfo). p.0) e))
Settled-step part info target objects o (true, i) (inr (n, e)) h later =
    absurd (ground (arith, ap (λ (p : Bool × DlPhdrInfo). p.0) e))
Settled-step part info target objects o (false, i) (inr (n, e)) h later =
    Settled-later part target info objects o n
      (later (ap (dl_iterate_phdr objects) (ap (λ (p : Bool × DlPhdrInfo). p.1) (sym e)) ∙ h))

-- After `dl_iterate_phdr` with `dl_iterate_callback`, where it returns, the target is the first of
-- the objects that is loaded at an address other than 0 and has the name that is looked for
-- somewhere in its path, or, where none is, still what it was.
pub dl_iterate_phdr-Settled :
    (objects : List DlPhdrInfo) (target : DlPhdrInfo) (part : List ℕ) (o : DlPhdrInfo)
    → target.dlpi_name ≡ some part
    → dl_iterate_phdr objects target ≡ ok o
    → Settled part target objects o
unfolding dl_iterate_phdr
dl_iterate_phdr-Settled [] target part o t h =
    subst (Settled part target []) (ok-injective target o h) (none_named tt)
dl_iterate_phdr-Settled (info ∷ objects) target part o t h =
    let (r, p, q) = >>=-eq-ok (dl_iterate_callback info target) _ h in
    Settled-step part info target objects o r
      (dl_iterate_callback-CallbackCase info target part r t p) q
      (λ k. dl_iterate_phdr-Settled objects target part o t k)

module _ (linker : Linker) where
  -- The objects that `dl_iterate_phdr_wrapper` goes over.
  abbrev pub walked : List DlPhdrInfo
  walked = if linker.has_dl_iterate_phdr then linker.objects else []

  pub dl_iterate_phdr_wrapper-Settled :
      (lib_name : List ℕ) (info : DlPhdrInfo)
      → dl_iterate_phdr_wrapper linker (new_target lib_name) ≡ ok info
      → Settled lib_name (new_target lib_name) walked info
  unfolding dl_iterate_phdr_wrapper
  dl_iterate_phdr_wrapper-Settled lib_name info h = elim (Bool-cases linker.has_dl_iterate_phdr) [
    | inl e ↦
        subst (λ os. Settled lib_name (new_target lib_name) os info)
          (sym (if_true linker.objects [] e))
          (dl_iterate_phdr-Settled linker.objects (new_target lib_name) lib_name info refl
            (sym (if_true _ _ e) ∙ h))
    | inr e ↦
        subst (λ os. Settled lib_name (new_target lib_name) os info)
          (sym (if_false linker.objects [] e))
          (subst (Settled lib_name (new_target lib_name) [])
            (ok-injective _ _ (sym (if_false _ _ e) ∙ h)) (none_named tt))
  ]
