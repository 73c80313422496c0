-- ===== src/Dlfcn/Opens.antt =====
-- What `DlFcn::dlopen` of kwai_dlfcn.cpp opens from Android O on, and where it goes wrong.
use xapm.Base.{
  ℕ, ◌<◌, ◌≤◌, ◌≡◌, ◌⊎◌, refl, ap, ◌∙◌, inl, inr, Bool, true, false, not, List, [], ◌∷◌, All,
  Option, none, some, Result, ok, fault, null_call, ◌>>=◌, ◌==◌, if◌then◌else◌, Bool-cases, if_true,
  if_false, arith, ltb, codes, strstr,
}
use xapm.Dlfcn.{
  DlPhdrInfo, Linker, is_found, DlFcn, Handle, iterate_data, of_system, rtld_now, new_target,
  call_once, name_contains, dl_iterate_callback, dl_iterate_phdr, dl_iterate_phdr_wrapper,
  loader_dlopen, retry_in_runtime, dlopen_with_loader, dlopen_by_loader, dlopen_at, dlopen,
}
use xapm.Dlfcn.Objects.{Settled, walked, dl_iterate_phdr_wrapper-Settled}

-- Every object that is loaded somewhere has a name.
abbrev pub HasPath : DlPhdrInfo → Type 0
HasPath info = (info.dlpi_addr ≡ 0) ⊎ ((path : List ℕ) × (info.dlpi_name ≡ some path))

dl_iterate_callback-total :
    (info target : DlPhdrInfo) (part : List ℕ)
    → HasPath info
    → target.dlpi_name ≡ some part
    → (b : Bool) × (dl_iterate_callback info target ≡ ok (b, if b then info else target))
unfolding dl_iterate_callback name_contains
dl_iterate_callback-total info target part (inl z) t =
    (false, if_true _ _ {b = (info.dlpi_addr == 0)} (ground arith))
dl_iterate_callback-total info target part (inr (path, e)) t =
    elim (Bool-cases (info.dlpi_addr == 0)) [
      | inl z ↦ (false, if_true _ _ z)
      | inr z ↦
          let b = is_found (strstr path part) in
          let c =
            ap (λ name. name_contains name target.dlpi_name) e ∙ ap (name_contains (some path)) t in
          (
            b,
            if_false _ _ z
                ∙ ap
                    (λ (r : Result Bool).
                      r >>= (λ found. ok (found, if found then info else target)))
                    c,
          )
    ]

next_object : List DlPhdrInfo → Bool × DlPhdrInfo → Result DlPhdrInfo
unfolding dl_iterate_phdr
next_object objects r = elim r.0 [ true ↦ ok r.1 | false ↦ dl_iterate_phdr objects r.1 ]

next_object-total :
    (info target : DlPhdrInfo) (objects : List DlPhdrInfo) (b : Bool)
    → (o : DlPhdrInfo) × (dl_iterate_phdr objects target ≡ ok o)
    → (o : DlPhdrInfo) × (next_object objects (b, if b then info else target) ≡ ok o)
unfolding next_object
next_object-total info target objects true later = (info, refl)
next_object-total info target objects false later = later

dl_iterate_phdr-total :
    (objects : List DlPhdrInfo) (target : DlPhdrInfo) (part : List ℕ)
    → All HasPath objects
    → target.dlpi_name ≡ some part
    → (o : DlPhdrInfo) × (dl_iterate_phdr objects target ≡ ok o)
unfolding dl_iterate_phdr next_object
dl_iterate_phdr-total [] target part a t = (target, refl)
dl_iterate_phdr-total (info ∷ objects) target part (p, a) t =
    let (b, e) = dl_iterate_callback-total info target part p t in
    let (o, k) =
      next_object-total info target objects b (dl_iterate_phdr-total objects target part a t) in
    (o, ap (λ (r : Result (Bool × DlPhdrInfo)). r >>= next_object objects) e ∙ k)

module _ (linker : Linker) where
  dl_iterate_phdr_wrapper-total :
      (lib_name : List ℕ)
      → All HasPath linker.objects
      → (o : DlPhdrInfo) × (dl_iterate_phdr_wrapper linker (new_target lib_name) ≡ ok o)
  unfolding dl_iterate_phdr_wrapper
  dl_iterate_phdr_wrapper-total lib_name a = elim (Bool-cases linker.has_dl_iterate_phdr) [
    | inl e ↦
        let (o, k) = dl_iterate_phdr-total linker.objects (new_target lib_name) lib_name a refl in
        (o, if_true _ _ e ∙ k)
    | inr e ↦ (new_target lib_name, if_false _ _ e)
  ]

  -- The pointer that `dlopen` asks libdl.so for.
  abbrev pub loader_pointer : Option ℕ
  loader_pointer =
      linker.system_dlsym (linker.system_dlopen (codes "libdl.so") rtld_now)
        (codes "__loader_dlopen")

  -- What `dlopen` gives from Android Q on: the loader's handle for a call that seems to come from
  -- libdl, or else the one for a call that seems to come from the library that is asked for.
  pub data OpenedQ (f : ℕ) (lib_name : List ℕ) (flags : ℕ) : Option Handle → Type 0 where
    at_once :
        (h : ℕ)
        → linker.loader_at f lib_name flags linker.dlerror ≡ some h
        → OpenedQ f lib_name flags (of_system (some h))
    from_runtime :
        (info : DlPhdrInfo)
        → linker.loader_at f lib_name flags linker.dlerror ≡ none
        → Settled lib_name (new_target lib_name) (walked linker) info
        → OpenedQ f lib_name flags (of_system (linker.loader_at f lib_name flags info.dlpi_addr))

  retry_in_runtime-OpenedQ :
      (f : ℕ) (lib_name : List ℕ) (flags : ℕ) (h : Option ℕ)
      → linker.loader_at f lib_name flags linker.dlerror ≡ h
      → All HasPath linker.objects
      → (handle : Option Handle) × (retry_in_runtime linker (some f) lib_name flags h ≡ ok handle)
        × OpenedQ f lib_name flags handle
  unfolding retry_in_runtime loader_dlopen
  retry_in_runtime-OpenedQ f lib_name flags (some h) e a = (_, refl, at_once h e)
  retry_in_runtime-OpenedQ f lib_name flags none e a =
      let (info, k) = dl_iterate_phdr_wrapper-total lib_name a in
      (
        of_system (linker.loader_at f lib_name flags info.dlpi_addr),
        ap
            (λ (r : Result DlPhdrInfo). r >>= (λ data'. do
              h ← loader_dlopen linker (some f) lib_name flags data'.dlpi_addr
              ok (of_system h)))
            k,
        from_runtime info e (dl_iterate_phdr_wrapper-Settled linker lib_name info k),
      )

  dlopen_at_o :
      (f : Option ℕ) (android_api : ℕ) (lib_name : List ℕ) (flags : ℕ)
      → loader_pointer ≡ f
      → 26 ≤ android_api
      → dlopen_at linker android_api lib_name flags
        ≡ dlopen_with_loader linker f android_api lib_name flags
  unfolding dlopen_at dlopen_by_loader
  dlopen_at_o f android_api lib_name flags e n =
      if_false _ _ {b = ltb android_api 24} (ground arith)
      ∙ (if_true _ _ {b = not (ltb android_api 26)} (ground arith)
          ∙ ap (λ (p : Option ℕ). dlopen_with_loader linker p android_api lib_name flags) e)

  dlopen_with_loader-OpenedQ :
      (f : ℕ) (android_api : ℕ) (lib_name : List ℕ) (flags : ℕ)
      → All HasPath linker.objects
      → 29 ≤ android_api
      → (handle : Option Handle) × (dlopen_with_loader linker (some f) android_api lib_name flags
          ≡ ok handle)
        × OpenedQ f lib_name flags handle
  unfolding dlopen_with_loader loader_dlopen
  dlopen_with_loader-OpenedQ f android_api lib_name flags a n =
      let h = linker.loader_at f lib_name flags linker.dlerror in
      let (handle, k, opened) = retry_in_runtime-OpenedQ f lib_name flags h refl a in
      (handle, if_false _ _ {b = ltb android_api 29} (ground arith) ∙ k, opened)

  dlopen_at_m :
      (android_api : ℕ) (lib_name : List ℕ) (flags : ℕ)
      → All HasPath linker.objects
      → android_api < 26
      → (handle : Option Handle) × (dlopen_at linker android_api lib_name flags ≡ ok handle)
  unfolding dlopen_at
  dlopen_at_m android_api lib_name flags a n = elim (Bool-cases (ltb android_api 24)) [
    | inl e ↦ (of_system (linker.system_dlopen lib_name flags), if_true _ _ e)
    | inr e ↦
        let (data', k) = dl_iterate_phdr_wrapper-total lib_name a in
        (
          some (iterate_data data'),
          if_false _ _ e
              ∙ (if_false _ _ {b = not (ltb android_api 26)} (ground arith)
                  ∙ ap (λ (r : Result DlPhdrInfo). r >>= (λ d. ok (some (iterate_data d)))) k),
        )
  ]

  -- `dlopen` with what its branch for the API level gives.
  with_state : (s : DlFcn) → Result (Option Handle) → Result (DlFcn × Option Handle)
  with_state s r = r >>= (λ handle. ok (call_once linker s, handle))

  dlopen_lem :
      (lib_name : List ℕ) (flags : ℕ) (s : DlFcn) (r : Result (Option Handle))
      → dlopen_at linker (call_once linker s).android_api lib_name flags ≡ r
      → dlopen linker lib_name flags s ≡ with_state s r
  unfolding dlopen with_state
  dlopen_lem lib_name flags s r e = ap (with_state s) e

  -- From Android Q on, where `__loader_dlopen` is found and every object that is loaded at an address
  -- other than 0 has a name, `dlopen` returns. The handle is the loader's for a call that seems to
  -- come from libdl; where that is nullptr, it is the loader's for a call that seems to come from
  -- the first object that is loaded and has the library's name in its path, or from the address 0
  -- where there is no such object.
  pub dlopen-OpenedQ :
      (f : ℕ) (lib_name : List ℕ) (flags : ℕ) (s : DlFcn)
      → loader_pointer ≡ some f
      → All HasPath linker.objects
      → 29 ≤ (call_once linker s).android_api
      → (handle : Option Handle) × (dlopen linker lib_name flags s
          ≡ ok (call_once linker s, handle))
        × OpenedQ f lib_name flags handle
  unfolding with_state
  dlopen-OpenedQ f lib_name flags s e a n =
      let api = (call_once linker s).android_api in
      let (handle, k, opened) = dlopen_with_loader-OpenedQ f api lib_name flags a n in
      (
        handle,
        dlopen_lem lib_name flags s (ok handle)
            (dlopen_at_o (some f) api lib_name flags e (omega arith) ∙ k),
        opened,
      )

  -- Where libdl.so has no `__loader_dlopen`, and every object that is loaded at an address other than 0
  -- has a name: before Android O `dlopen` returns, and from Android O on it calls a null pointer,
  -- whatever the library.
  pub dlopen-null_call :
      (lib_name : List ℕ) (flags : ℕ) (s : DlFcn)
      → All HasPath linker.objects
      → loader_pointer ≡ none
      → ((26 ≤ (call_once linker s).android_api)
          × (dlopen linker lib_name flags s ≡ fault null_call))
        ⊎ (((call_once linker s).android_api < 26)
            × (handle : Option Handle) × (dlopen linker lib_name flags s
                ≡ ok (call_once linker s, handle)))
  unfolding with_state loader_dlopen dlopen_with_loader
  dlopen-null_call lib_name flags s a e =
      let api = (call_once linker s).android_api in
      elim (Bool-cases (ltb api 26)) [
        | inl low ↦
            let (handle, k) = dlopen_at_m api lib_name flags a (ground arith) in
            inr (ground arith, handle, dlopen_lem lib_name flags s (ok handle) k)
        | inr high ↦ inl (
          ground arith,
          dlopen_lem lib_name flags s (fault null_call)
              (dlopen_at_o none api lib_name flags e (ground arith)),
        )
      ]
