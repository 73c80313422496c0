-- ===== src/Dlfcn/Memory/Steps.antt =====
-- That the pointers of kwai_dlfcn.cpp's handles do for a client what the handles as values do.
use xapm.Base.{
  ℕ, ◌≡◌, refl, sym, ap, ◌∙◌, inl, inr, true, false, not, List, ◌∷◌, Option, none, some, Result, ok,
  ◌>>=◌, >>=-eq-ok, ok-injective, get_elem?, set, if_true, if_false, Bool-cases, arith,
}
use xapm.Elf.Wrapper.{Resources}
use xapm.Dlfcn.{
  DlPhdrInfo, Linker, DlFcn, Handle, system_handle, iterate_data, SoDlInfo, is_android_n, dlsym,
  dlclose, dlsym_elf, as_system, as_iterate_data, as_deleted,
}
use xapm.Dlfcn.Memory.{
  data_object, so_object, Objects, Pointer, Allocator, place_handle, place_so, handle_at, dlsym_in,
  dlclose_in, dlsym_elf_in, dlclose_elf, read_data, read_so, delete_data, delete_so, new_object,
  object_at, remove, returned,
}
use xapm.Dlfcn.Memory.Represents.{
  Value, handle, elf_handle, closed, object_of, Represents, plain, null_handle, of_system,
  null_elf_handle, At, at_null, at_system, at_data, at_null_elf, at_so, close_plain, close_owning,
  open_owning,
}

module _ (allocator : Allocator) (base : Objects) where
  pub place_handle-Represents :
      (h : Option Handle) (ps : List Pointer) (vs : List Value) (objects : Objects)
      → Represents base ps vs objects
      → Represents base
          ((place_handle allocator h objects).0 ∷ ps)
          (handle h ∷ vs)
          (place_handle allocator h objects).1
  unfolding place_handle new_object
  place_handle-Represents none ps vs objects r =
      plain none (handle none) ps vs objects null_handle r
  place_handle-Represents (some (system_handle h)) ps vs objects r =
      plain (some h) (handle (some (system_handle h))) ps vs objects (of_system h) r
  place_handle-Represents (some (iterate_data info)) ps vs objects r =
      open_owning base ps vs objects _ (allocator.place objects) (data_object info) r
        (allocator.is_free objects) refl

  pub place_so-Represents :
      (so : Option SoDlInfo) (ps : List Pointer) (vs : List Value) (objects : Objects)
      → Represents base ps vs objects
      → Represents base
          ((place_so allocator so objects).0 ∷ ps)
          (elf_handle so ∷ vs)
          (place_so allocator so objects).1
  unfolding place_so new_object
  place_so-Represents none ps vs objects r =
      plain none (elf_handle none) ps vs objects null_elf_handle r
  place_so-Represents (some so) ps vs objects r =
      open_owning base ps vs objects _ (allocator.place objects) (so_object so) r
        (allocator.is_free objects) refl

-- The objects of the right type, read and deleted.
read_data-ok :
    (p : ℕ) (info : DlPhdrInfo) (objects : Objects)
    → object_at objects p ≡ some (data_object info)
    → read_data (some p) objects ≡ ok info
unfolding read_data
read_data-ok p info objects k = rw (k, read_data) refl

read_so-ok :
    (p : ℕ) (so : SoDlInfo) (objects : Objects)
    → object_at objects p ≡ some (so_object so)
    → read_so (some p) objects ≡ ok so
unfolding read_so
read_so-ok p so objects k = rw (k, read_so) refl

delete_data-ok :
    (p : ℕ) (info : DlPhdrInfo) (objects : Objects)
    → object_at objects p ≡ some (data_object info)
    → delete_data (some p) objects ≡ ok (remove objects p)
unfolding delete_data
delete_data-ok p info objects k = rw (k, delete_data) refl

delete_so-ok :
    (p : ℕ) (so : SoDlInfo) (objects : Objects)
    → object_at objects p ≡ some (so_object so)
    → delete_so (some p) objects ≡ ok (remove objects p)
unfolding delete_so
delete_so-ok p so objects k = rw (k, delete_so) refl

-- On Android N the pointer of a handle stands for it where the handle has an object.
handle_at_n :
    (p : Pointer) (h : Option Handle) (s : DlFcn) (objects : Objects) (info : DlPhdrInfo)
    → At objects p (handle h)
    → is_android_n s.android_api ≡ true
    → as_iterate_data h ≡ ok info
    → handle_at p s objects ≡ ok h
unfolding handle_at read_data
handle_at_n _ _ s objects info at_null n e = absurd (ground arith)
handle_at_n _ _ s objects info (at_system h) n e = absurd (ground arith)
handle_at_n _ _ s objects info (at_data p there k) n e =
    if_true _ _ n
    ∙ ap (λ (r : Result DlPhdrInfo). r >>= (λ (i : DlPhdrInfo). ok (some (iterate_data i))))
        (read_data-ok p there objects k)

-- Elsewhere it does where the handle is the system's.
handle_at_other :
    (p : Pointer) (h : Option Handle) (s : DlFcn) (objects : Objects) (q : Option ℕ)
    → At objects p (handle h)
    → is_android_n s.android_api ≡ false
    → as_system h ≡ ok q
    → (handle_at p s objects ≡ ok h) × (p ≡ q)
unfolding handle_at
handle_at_other _ _ s objects q at_null n e = (if_false _ _ n, ok-injective _ _ e)
handle_at_other _ _ s objects q (at_system h) n e = (if_false _ _ n, ok-injective _ _ e)
handle_at_other _ _ s objects q (at_data p there k) n e = absurd (ground arith)

as_system-object_of :
    (h : Option Handle) (q : Option ℕ) → as_system h ≡ ok q → object_of (handle h) ≡ none
as_system-object_of none q e = refl
as_system-object_of (some (system_handle h)) q e = refl
as_system-object_of (some (iterate_data info)) q e = absurd (ground arith)

module _ (linker : Linker) (fuel : ℕ) where
  -- A lookup that returns for a value returns the same for its pointer.
  pub dlsym_in-At :
      (p : Pointer) (h : Option Handle) (name : List ℕ) (s : DlFcn) (held : Resources)
      (objects : Objects) (r : Resources × Option ℕ)
      → At objects p (handle h)
      → dlsym linker fuel h name s held ≡ ok r
      → dlsym_in linker fuel p name s held objects ≡ ok r
  unfolding dlsym dlsym_in
  dlsym_in-At p h name s held objects r at e =
      ap
        (λ (t : Result (Option Handle)).
          t >>= (λ (u : Option Handle). dlsym linker fuel u name s held))
        there
      ∙ e
    where
      there : handle_at p s objects ≡ ok h
      there = elim (Bool-cases (is_android_n s.android_api)) [
        | inl n ↦
            let (info, f, g) =
              >>=-eq-ok (as_iterate_data h) _
                (sym (if_false _ _ {b = not (is_android_n s.android_api)} (ground arith)) ∙ e) in
            handle_at_n p h s objects info at n f
        | inr n ↦
            let (q, f, g) =
              >>=-eq-ok (as_system h) _
                (sym (if_true _ _ {b = not (is_android_n s.android_api)} (ground arith)) ∙ e) in
            (handle_at_other p h s objects q at n f).0
      ]

  pub dlsym_elf_in-At :
      (p : Pointer) (so : Option SoDlInfo) (name : List ℕ) (held : Resources) (objects : Objects)
      (r : Resources × Option ℕ)
      → At objects p (elf_handle so)
      → dlsym_elf linker fuel so name held ≡ ok r
      → dlsym_elf_in linker fuel p name held objects ≡ ok r
  unfolding dlsym_elf dlsym_elf_in read_so
  dlsym_elf_in-At _ _ name held objects r at_null_elf e = absurd (ground arith)
  dlsym_elf_in-At _ _ name held objects r (at_so p so k) e =
      ap
        (λ (t : Result SoDlInfo).
          t >>= (λ (u : SoDlInfo). dlsym_elf linker fuel (some u) name held))
        (read_so-ok p so objects k)
      ∙ e

  module _ (base : Objects) (ps : List Pointer) (vs : List Value) (objects : Objects) (i : ℕ)
      (rep : Represents base ps vs objects) where
    -- The pointers stand for the values when the handle is closed.
    abbrev Left : Result Objects → Type 0
    Left r = (left : Objects) × (r ≡ ok left) × Represents base ps (set vs i closed) left

    delete_data-Left :
        (p : Pointer) (h : Option Handle)
        → get_elem? vs i ≡ some (handle h)
        → get_elem? ps i ≡ some p
        → At objects p (handle h)
        → as_deleted h ≡ ok tt
        → Left (delete_data p objects)
    unfolding delete_data
    delete_data-Left _ _ e f at_null d =
        (objects, refl, close_plain base ps vs objects i (handle none) rep e refl)
    delete_data-Left _ _ e f (at_system h) d = absurd (ground arith)
    delete_data-Left _ _ e f (at_data p info k) d = (
      remove objects p,
      delete_data-ok p info objects k,
      close_owning base ps vs objects i (handle (some (iterate_data info))) p (data_object info) rep
          e f refl,
    )

    delete_so-Left :
        (p : Pointer) (so : Option SoDlInfo)
        → get_elem? vs i ≡ some (elf_handle so)
        → get_elem? ps i ≡ some p
        → At objects p (elf_handle so)
        → Left (delete_so p objects)
    unfolding delete_so
    delete_so-Left _ _ e f at_null_elf =
        (objects, refl, close_plain base ps vs objects i (elf_handle none) rep e refl)
    delete_so-Left _ _ e f (at_so p so k) = (
      remove objects p,
      delete_so-ok p so objects k,
      close_owning base ps vs objects i (elf_handle (some so)) p (so_object so) rep e f refl,
    )

    -- A handle is closed by its pointer, and its object goes.
    pub dlclose_in-At :
        (p : Pointer) (h : Option Handle) (s : DlFcn) (r : ℕ)
        → get_elem? vs i ≡ some (handle h)
        → get_elem? ps i ≡ some p
        → At objects p (handle h)
        → dlclose linker h s ≡ ok r
        → (left : Objects) × (dlclose_in linker p s objects ≡ ok (r, left))
          × Represents base ps (set vs i closed) left
    unfolding dlclose dlclose_in
    dlclose_in-At p h s r e f at k = elim (Bool-cases (is_android_n s.android_api)) [
      | inl n ↦
          let not_n : not (is_android_n s.android_api) ≡ false = ground arith in
          let (u, g, z) = >>=-eq-ok (as_deleted h) _ (sym (if_false _ _ not_n) ∙ k) in
          let (left, d, rep') = delete_data-Left p h e f at g in
          (
            left,
            if_false _ _ not_n
                ∙ (ap (λ (t : Result Objects). t >>= (λ (o : Objects). returned 0 o)) d
                    ∙ ap (λ (t : ℕ). returned t left) (ok-injective 0 r z)),
            rep',
          )
      | inr n ↦
          let not_n : not (is_android_n s.android_api) ≡ true = ground arith in
          let (q, g, z) = >>=-eq-ok (as_system h) _ (sym (if_true _ _ not_n) ∙ k) in
          (
            objects,
            if_true _ _ not_n
                ∙ ap (λ (t : ℕ). returned t objects)
                    (ap linker.system_dlclose (handle_at_other p h s objects q at n g).1
                      ∙ ok-injective _ r z),
            close_plain base ps vs objects i (handle h) rep e (as_system-object_of h q g),
          )
    ]

    pub dlclose_elf-At :
        (p : Pointer) (so : Option SoDlInfo)
        → get_elem? vs i ≡ some (elf_handle so)
        → get_elem? ps i ≡ some p
        → At objects p (elf_handle so)
        → (left : Objects) × (dlclose_elf p objects ≡ ok (0, left))
          × Represents base ps (set vs i closed) left
    unfolding dlclose_elf
    dlclose_elf-At p so e f at =
        let (left, d, rep') = delete_so-Left p so e f at in
        (left, ap (λ (t : Result Objects). t >>= (λ (o : Objects). returned 0 o)) d, rep')
