-- ===== src/Dlfcn/Memory/Refines.antt =====
-- That a client of kwai_dlfcn.cpp sees of the pointers what it would see of handles that are values.
use mathlib.Core.Path.{subst}
use xapm.Base.{
  ℕ, ◌≡◌, refl, ap, ◌∙◌, List, [], ◌∷◌, Option, none, some, Result, ok, ◌>>=◌, >>=-eq-ok,
  ok-injective, get_elem?, All, arith,
}
use xapm.Elf.Wrapper.{Resources}
use xapm.Dlfcn.{Linker, Handle, SoDlInfo, dlopen, dlsym, dlclose, dlopen_elf, dlsym_elf}
use xapm.Dlfcn.Memory.{
  Objects, Pointer, Allocator, place_handle, place_so, dlopen_in, dlopen_elf_in,
}
use xapm.Dlfcn.Memory.Represents.{
  Value, handle, elf_handle, closed, Represents, nothing, IsClosed, Represents-At, Represents-base,
}
use xapm.Dlfcn.Memory.Session.{
  DlCall, call_dlopen, call_dlsym, call_dlclose, call_dlopen_elf, call_dlsym_elf, call_dlclose_elf,
  Client, handle_of, so_of, pointer_of, value_step, value_run, memory_step, memory_run,
}
use xapm.Dlfcn.Memory.Steps.{
  place_handle-Represents, place_so-Represents, dlsym_in-At, dlsym_elf_in-At, dlclose_in-At,
  dlclose_elf-At,
}

abbrev Answered : Type 0
Answered = Resources × Option ℕ

handle_of-ok : (v : Option Value) (h : Option Handle) → handle_of v ≡ ok h → v ≡ some (handle h)
handle_of-ok none h e = absurd (ground arith)
handle_of-ok (some (handle g)) h e =
    ap (λ (t : Option Handle). some (handle t)) (ok-injective g h e)
handle_of-ok (some (elf_handle so)) h e = absurd (ground arith)
handle_of-ok (some closed) h e = absurd (ground arith)

so_of-ok : (v : Option Value) (so : Option SoDlInfo) → so_of v ≡ ok so → v ≡ some (elf_handle so)
so_of-ok none so e = absurd (ground arith)
so_of-ok (some (handle g)) so e = absurd (ground arith)
so_of-ok (some (elf_handle t)) so e =
    ap (λ (t : Option SoDlInfo). some (elf_handle t)) (ok-injective t so e)
so_of-ok (some closed) so e = absurd (ground arith)

-- A call through the pointer that the client has.
with_pointer :
    {A : Type 0} (p : Pointer) (o : Option Pointer) (next : Pointer → Result A) (r : Result A)
    → o ≡ some p
    → next p ≡ r
    → (pointer_of o >>= next) ≡ r
with_pointer p o next r e k = ap (λ (t : Option Pointer). pointer_of t >>= next) e ∙ k

-- The result of a call is given back by the next.
then_ok :
    {A B : Type 0} (first : Result A) (a : A) (next : A → Result B) (r : Result B)
    → first ≡ ok a
    → next a ≡ r
    → (first >>= next) ≡ r
then_ok first a next r e k = ap (λ (t : Result _). t >>= next) e ∙ k

abbrev done : Client → List Pointer → Objects → Result (Client × List Pointer × Objects)
done c ps objects = ok (c, ps, objects)

module _ (linker : Linker) (fuel : ℕ) (allocator : Allocator) (base : Objects) where
  -- What a call over pointers comes to, where the one over values comes to `r`.
  abbrev Follows : DlCall → Client → List Pointer → Objects → Client × List Value → Type 0
  Follows d c ps objects r =
      (ps' : List Pointer) × (objects' : Objects) × (memory_step linker fuel allocator d c ps
          objects
        ≡ ok (r.0, ps', objects'))
      × Represents base ps' r.1 objects'

  value_step-Follows :
      (d : DlCall) (c : Client) (ps : List Pointer) (vs : List Value) (objects : Objects)
      (r : Client × List Value)
      → Represents base ps vs objects
      → value_step linker fuel d c vs ≡ ok r
      → Follows d c ps objects r
  unfolding value_step memory_step dlopen_in dlopen_elf_in
  value_step-Follows (call_dlopen lib_name flags) c ps vs objects r rep e =
      let (o, p, q) = >>=-eq-ok (dlopen linker lib_name flags c.dl) _ e in
      let placed = place_handle allocator o.1 objects in
      subst (Follows (call_dlopen lib_name flags) c ps objects) (ok-injective _ r q) (
        placed.0 ∷ ps,
        placed.1,
        then_ok _ (o.0, placed) _ _ (then_ok _ o _ _ p refl) refl,
        place_handle-Represents allocator base o.1 ps vs objects rep,
      )
  value_step-Follows (call_dlsym i name) c ps vs objects r rep e =
      let (h, p, q) = >>=-eq-ok (handle_of (get_elem? vs i)) _ e in
      let (o, p', q') = >>=-eq-ok (dlsym linker fuel h name c.dl c.held) _ q in
      let (pointer, f, at) =
        Represents-At base ps vs objects i (handle h) rep (handle_of-ok _ h p) in
      subst (Follows (call_dlsym i name) c ps objects) (ok-injective _ r q') (
        ps,
        objects,
        with_pointer pointer (get_elem? ps i) _ _ f (
            then_ok _ o _ _ (dlsym_in-At linker fuel pointer h name c.dl c.held objects o at p')
              refl),
        rep,
      )
  value_step-Follows (call_dlclose i) c ps vs objects r rep e =
      let (h, p, q) = >>=-eq-ok (handle_of (get_elem? vs i)) _ e in
      let (o, p', q') = >>=-eq-ok (dlclose linker h c.dl) _ q in
      let is_there = handle_of-ok _ h p in
      let (pointer, f, at) = Represents-At base ps vs objects i (handle h) rep is_there in
      let (left, k, rep') =
        dlclose_in-At linker fuel base ps vs objects i rep pointer h c.dl o is_there f at p' in
      subst (Follows (call_dlclose i) c ps objects) (ok-injective _ r q') (
        ps,
        left,
        with_pointer pointer (get_elem? ps i) _ _ f (then_ok _ (o, left) _ _ k refl),
        rep',
      )
  value_step-Follows (call_dlopen_elf lib_name flags) c ps vs objects r rep e =
      let (o, p, q) = >>=-eq-ok (dlopen_elf linker lib_name flags c.dl) _ e in
      let placed = place_so allocator o.1 objects in
      subst (Follows (call_dlopen_elf lib_name flags) c ps objects) (ok-injective _ r q) (
        placed.0 ∷ ps,
        placed.1,
        then_ok _ (o.0, placed) _ _ (then_ok _ o _ _ p refl) refl,
        place_so-Represents allocator base o.1 ps vs objects rep,
      )
  value_step-Follows (call_dlsym_elf i name) c ps vs objects r rep e =
      let (so, p, q) = >>=-eq-ok (so_of (get_elem? vs i)) _ e in
      let (o, p', q') = >>=-eq-ok (dlsym_elf linker fuel so name c.held) _ q in
      let (pointer, f, at) =
        Represents-At base ps vs objects i (elf_handle so) rep (so_of-ok _ so p) in
      subst (Follows (call_dlsym_elf i name) c ps objects) (ok-injective _ r q') (
        ps,
        objects,
        with_pointer pointer (get_elem? ps i) _ _ f (
            then_ok _ o _ _ (dlsym_elf_in-At linker fuel pointer so name c.held objects o at p')
              refl),
        rep,
      )
  value_step-Follows (call_dlclose_elf i) c ps vs objects r rep e =
      let (so, p, q) = >>=-eq-ok (so_of (get_elem? vs i)) _ e in
      let is_there = so_of-ok _ so p in
      let (pointer, f, at) = Represents-At base ps vs objects i (elf_handle so) rep is_there in
      let (left, k, rep') =
        dlclose_elf-At linker fuel base ps vs objects i rep pointer so is_there f at in
      subst (Follows (call_dlclose_elf i) c ps objects) (ok-injective _ r q) (
        ps,
        left,
        with_pointer pointer (get_elem? ps i) _ _ f (then_ok _ (0, left) _ _ k refl),
        rep',
      )

  value_run-Represents :
      (ds : List DlCall) (c c' : Client) (ps : List Pointer) (vs vs' : List Value)
      (objects : Objects)
      → Represents base ps vs objects
      → value_run linker fuel ds c vs ≡ ok (c', vs')
      → (ps' : List Pointer) × (objects' : Objects) × (memory_run linker fuel allocator ds c ps
            objects
          ≡ ok (c', ps', objects'))
        × Represents base ps' vs' objects'
  unfolding value_run memory_run
  value_run-Represents [] c c' ps vs vs' objects rep e =
      let k = ok-injective (c, vs) (c', vs') e in
      (
        ps,
        objects,
        ap (λ (t : Client × List Value). done t.0 ps objects) k,
        subst (λ (t : Client × List Value). Represents base ps t.1 objects) k rep,
      )
  value_run-Represents (d ∷ ds) c c' ps vs vs' objects rep e =
      let (r, p, q) = >>=-eq-ok (value_step linker fuel d c vs) _ e in
      let (ps1, objects1, k, rep1) = value_step-Follows d c ps vs objects r rep p in
      let (ps2, objects2, l, rep2) = value_run-Represents ds r.0 c' ps1 r.1 vs' objects1 rep1 q in
      (ps2, objects2, then_ok _ (r.0, ps1, objects1) _ _ k l, rep2)

  -- A client of DlFcn that has no handle yet and makes any calls in any order. Where all of them return
  -- with handles for values, which refuse a handle that is closed or of the other kind, they return
  -- with pointers to objects that are made by new and given back by delete, with the same answers from
  -- lookups and closes: none reads an object that is gone and none deletes one twice. Afterwards
  -- each handle that is open and has an object has one of its own, and no other object of the
  -- process has come, gone or changed; where no open handle has one, the memory is what it was
  -- before the calls.
  pub memory_run-value_run :
      (ds : List DlCall) (c c' : Client) (vs' : List Value)
      → value_run linker fuel ds c [] ≡ ok (c', vs')
      → (ps' : List Pointer) × (objects' : Objects) × (memory_run linker fuel allocator ds c [] base
          ≡ ok (c', ps', objects'))
        × Represents base ps' vs' objects'
        × (All IsClosed vs' → objects' ≡ base)
  memory_run-value_run ds c c' vs' e =
      let (ps', objects', k, rep) = value_run-Represents ds c c' [] [] vs' base nothing e in
      (ps', objects', k, rep, λ all. Represents-base base ps' vs' objects' rep all)
