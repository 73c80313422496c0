-- ===== src/Dlfcn/Memory/Freed.antt =====
-- Handles of kwai_dlfcn.cpp that are used after they are closed.
use xapm.Base.{
  ℕ, ◌≡◌, ◌≢◌, refl, sym, ap, ◌∙◌, true, false, not, List, [], ◌∷◌, Option, none, some, Result, ok,
  fault, bad_read, bad_delete, ◌>>=◌, >>=-eq-ok, ok-injective, if_true, if_false, arith,
}
use xapm.Elf.Wrapper.{Resources}
use xapm.Dlfcn.{DlPhdrInfo, Linker, DlFcn, Handle, iterate_data, is_android_n, dlsym}
use xapm.Dlfcn.Memory.{
  Object, data_object, so_object, Objects, object_at, remove, delete_data, read_data, handle_at,
  returned, dlsym_in, dlclose_in,
}

object_at-remove : (objects : Objects) (p : ℕ) → object_at (remove objects p) p ≡ none
unfolding object_at remove
object_at-remove [] p = refl
object_at-remove ((a, x) ∷ objects) p = ground (arith, object_at-remove objects p)

object_at-remove_other :
    (objects : Objects) (p q : ℕ) → q ≢ p → object_at (remove objects p) q ≡ object_at objects q
unfolding object_at remove
object_at-remove_other [] p q ne = refl
object_at-remove_other ((a, x) ∷ objects) p q ne =
    ground (arith, object_at-remove_other objects p q ne)

delete_data-remove :
    (objects left : Objects) (p : ℕ)
    → delete_data (some p) objects ≡ ok left
    → left ≡ remove objects p
unfolding delete_data
delete_data-remove objects left p e = by_object (object_at objects p) e
  where
    by_object :
        (o : Option Object)
        → elim o [
          | some (data_object info) ↦ ok (remove objects p)
          | some (so_object so_dl_info) ↦ fault bad_delete
          | none ↦ fault bad_delete
        ]
          ≡ ok left
        → left ≡ remove objects p
    by_object none h = absurd (ground arith)
    by_object (some (data_object info)) h = sym (ok-injective _ _ h)
    by_object (some (so_object so)) h = absurd (ground arith)

-- No object is left at the pointer, and every other is as it was.
abbrev pub IsGone : ℕ → Objects → Objects → Type 0
IsGone p objects left =
    (object_at left p ≡ none) × ((q : ℕ) → q ≢ p → object_at left q ≡ object_at objects q)

IsGone-remove : (objects left : Objects) (p : ℕ) → left ≡ remove objects p → IsGone p objects left
IsGone-remove objects left p e = (
  ap (λ (o : Objects). object_at o p) e ∙ object_at-remove objects p,
  λ q ne. ap (λ (o : Objects). object_at o q) e ∙ object_at-remove_other objects p q ne,
)

-- What a use of a pointer to nothing is.
read_data-gone :
    (p : ℕ) (left : Objects) → object_at left p ≡ none → read_data (some p) left ≡ fault bad_read
unfolding read_data
read_data-gone p left e = rw (e, read_data) refl

delete_data-gone :
    (p : ℕ) (left : Objects)
    → object_at left p ≡ none
    → delete_data (some p) left ≡ fault bad_delete
unfolding delete_data
delete_data-gone p left e = rw (e, delete_data) refl

module _ (linker : Linker) (fuel : ℕ) (p : ℕ) (objects left : Objects) (r : ℕ) where
  -- On Android N, a handle that dlclose has closed has no object any more, while every other object
  -- is as it was; the pointer is then good for nothing: dlsym reads memory that is gone, for every
  -- name, and a second dlclose deletes what is gone.
  pub dlclose_in-again :
      (s : DlFcn) (name : List ℕ) (held : Resources)
      → is_android_n s.android_api ≡ true
      → dlclose_in linker (some p) s objects ≡ ok (r, left)
      → IsGone p objects left
        × (dlsym_in linker fuel (some p) name s held left ≡ fault bad_read)
        × (dlclose_in linker (some p) s left ≡ fault bad_delete)
  unfolding dlclose_in dlsym_in handle_at
  dlclose_in-again s name held n e =
      let not_n : not (is_android_n s.android_api) ≡ false = ground arith in
      let (o, d, k) = >>=-eq-ok (delete_data (some p) objects) _ (sym (if_false _ _ not_n) ∙ e) in
      let same : o ≡ left = ground arith in
      let gone = IsGone-remove objects left p (sym same ∙ delete_data-remove objects o p d) in
      (
        gone,
        ap
            (λ (t : Result (Option Handle)).
              t >>= (λ (h : Option Handle). dlsym linker fuel h name s held))
            (if_true _ _ n
              ∙ ap
                  (λ (t : Result DlPhdrInfo).
                    t >>= (λ (i : DlPhdrInfo). ok (some (iterate_data i))))
                  (read_data-gone p left gone.0)),
        if_false _ _ not_n
            ∙ ap (λ (t : Result Objects). t >>= (λ (o : Objects). returned 0 o))
                (delete_data-gone p left gone.0),
      )
