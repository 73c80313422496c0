-- ===== src/Dlfcn/Memory/Represents.antt =====
-- Which objects belong to the handles of kwai_dlfcn.cpp that a client holds.
use mathlib.Core.Path.{subst}
use mathlib.Core.Option.{some-injective}
use xapm.Base.{
  ℕ, zero, suc, ◌≡◌, ◌≢◌, refl, sym, ap, ◌∙◌, List, [], ◌∷◌, Option, none, some, get_elem?, set,
  arith, All,
}
use xapm.Dlfcn.{DlPhdrInfo, Handle, system_handle, iterate_data, SoDlInfo}
use xapm.Dlfcn.Memory.{Object, data_object, so_object, Objects, object_at, remove, Pointer}

-- What a client's variable holds: a handle of dlopen, one of dlopen_elf, or one that is closed.
pub data Value : Type 0 where
  handle : (h : Option Handle) → Value
  elf_handle : (so_dl_info : Option SoDlInfo) → Value
  closed : Value

-- The object behind a handle.
abbrev pub object_of : Value → Option Object
object_of (handle none) = none
object_of (handle (some (system_handle h))) = none
object_of (handle (some (iterate_data info))) = some (data_object info)
object_of (elf_handle none) = none
object_of (elf_handle (some so_dl_info)) = some (so_object so_dl_info)
object_of closed = none

-- The pointer of a handle that has no object.
pub data IsPlain : Pointer → Value → Type 0 where
  null_handle : IsPlain none (handle none)
  of_system : (h : ℕ) → IsPlain (some h) (handle (some (system_handle h)))
  null_elf_handle : IsPlain none (elf_handle none)
  gone : (p : Pointer) → IsPlain p closed

-- The pointers stand for the values: each handle with an object has one of its own, and the other
-- objects are those of `base`.
pub data Represents (base : Objects) : List Pointer → List Value → Objects → Type 0 where
  nothing : Represents base [] [] base
  plain :
      (p : Pointer) (v : Value) (ps : List Pointer) (vs : List Value) (objects : Objects)
      → IsPlain p v
      → Represents base ps vs objects
      → Represents base (p ∷ ps) (v ∷ vs) objects
  owning :
      (p : ℕ) (o : Object) (v : Value) (ps : List Pointer) (vs : List Value) (objects : Objects)
      → object_of v ≡ some o
      → object_at objects p ≡ some o
      → Represents base ps vs (remove objects p)
      → Represents base (some p ∷ ps) (v ∷ vs) objects

-- A handle that is found among the values has its pointer, and its object lives there.
pub data Found (objects : Objects) (ps : List Pointer) (i : ℕ) (v : Value) : Type 0 where
  found_plain : (p : Pointer) → get_elem? ps i ≡ some p → IsPlain p v → Found objects ps i v
  found_owning :
      (p : ℕ) (o : Object)
      → get_elem? ps i ≡ some (some p)
      → object_of v ≡ some o
      → object_at objects p ≡ some o
      → Found objects ps i v

remove_other :
    (objects : Objects) (q p : ℕ) (o : Object)
    → object_at (remove objects q) p ≡ some o
    → (object_at objects p ≡ some o) × (p ≢ q)
unfolding object_at remove
remove_other [] q p o h = absurd (ground arith)
remove_other ((a, x) ∷ objects) q p o h = ground (arith, remove_other objects q p o)

remove_kept :
    (objects : Objects) (p q : ℕ) (o : Object)
    → object_at objects q ≡ some o
    → q ≢ p
    → object_at (remove objects p) q ≡ some o
unfolding object_at remove
remove_kept [] p q o h ne = absurd (ground arith)
remove_kept ((a, x) ∷ objects) p q o h ne =
    let ih = λ (k : object_at objects q ≡ some o). remove_kept objects p q o k ne in
    ground (arith, ih)

remove_swap :
    (objects : Objects) (p q : ℕ) → remove (remove objects p) q ≡ remove (remove objects q) p
unfolding remove
remove_swap [] p q = refl
remove_swap ((a, x) ∷ objects) p q = ground (arith, remove_swap objects p q)

remove-none : (objects : Objects) (p : ℕ) → object_at objects p ≡ none → remove objects p ≡ objects
unfolding object_at remove
remove-none [] p e = refl
remove-none ((a, x) ∷ objects) p e = ground (arith, remove-none objects p)

remove_new :
    (objects : Objects) (p : ℕ) (o : Object)
    → object_at objects p ≡ none
    → remove ((p, o) ∷ objects) p ≡ objects
unfolding remove
remove_new objects p o e = ground (arith, remove-none objects p e)

object_at_new : (objects : Objects) (p : ℕ) (o : Object) → object_at ((p, o) ∷ objects) p ≡ some o
unfolding object_at
object_at_new objects p o = ground arith

Found-later :
    (objects : Objects) (p : Pointer) (ps : List Pointer) (i : ℕ) (v : Value)
    → Found objects ps i v
    → Found objects (p ∷ ps) (suc i) v
Found-later objects p ps i v (found_plain p' e k) = found_plain p' e k
Found-later objects p ps i v (found_owning p' o e k l) = found_owning p' o e k l

Found-behind :
    (objects : Objects) (q : ℕ) (ps : List Pointer) (i : ℕ) (v : Value)
    → Found (remove objects q) ps i v
    → Found objects (some q ∷ ps) (suc i) v
Found-behind objects q ps i v (found_plain p e k) = found_plain p e k
Found-behind objects q ps i v (found_owning p o e k l) =
    found_owning p o e k (remove_other objects q p o l).0

pub Represents-Found :
    (base : Objects) (ps : List Pointer) (vs : List Value) (objects : Objects) (i : ℕ) (v : Value)
    → Represents base ps vs objects
    → get_elem? vs i ≡ some v
    → Found objects ps i v
Represents-Found base _ _ _ i v nothing e = absurd (ground arith)
Represents-Found base _ _ objects zero v (plain p u ps vs _ k r) e =
    found_plain p refl (subst (IsPlain p) (some-injective u v e) k)
Represents-Found base _ _ objects (suc i) v (plain p u ps vs _ k r) e =
    Found-later objects p ps i v (Represents-Found base ps vs objects i v r e)
Represents-Found base _ _ objects zero v (owning p o u ps vs _ k l r) e =
    found_owning p o refl (ap object_of (sym (some-injective u v e)) ∙ k) l
Represents-Found base _ _ objects (suc i) v (owning p o u ps vs _ k l r) e =
    Found-behind objects p ps i v (Represents-Found base ps vs (remove objects p) i v r e)

IsPlain-object_of : (p : Pointer) (v : Value) → IsPlain p v → object_of v ≡ none
IsPlain-object_of _ _ null_handle = refl
IsPlain-object_of _ _ (of_system h) = refl
IsPlain-object_of _ _ null_elf_handle = refl
IsPlain-object_of _ _ (gone p) = refl

Found-object :
    (objects : Objects) (ps : List Pointer) (i : ℕ) (v : Value) (q : ℕ) (o : Object)
    → Found objects ps i v
    → get_elem? ps i ≡ some (some q)
    → object_of v ≡ some o
    → object_at objects q ≡ some o
Found-object objects ps i v q o (found_plain p e k) f n =
    absurd (ground (arith, IsPlain-object_of p v k))
Found-object objects ps i v q o (found_owning p o' e k l) f n =
    let same : p ≡ q = some-injective p q (some-injective _ _ (sym e ∙ f)) in
    ap (object_at objects) (sym same) ∙ (l ∙ (sym k ∙ n))

-- A handle without an object is closed.
pub close_plain :
    (base : Objects) (ps : List Pointer) (vs : List Value) (objects : Objects) (i : ℕ) (v : Value)
    → Represents base ps vs objects
    → get_elem? vs i ≡ some v
    → object_of v ≡ none
    → Represents base ps (set vs i closed) objects
close_plain base _ _ _ i v nothing e n = nothing
close_plain base _ _ objects zero v (plain p u ps vs _ k r) e n =
    plain p closed ps vs objects (gone p) r
close_plain base _ _ objects (suc i) v (plain p u ps vs _ k r) e n =
    plain p u ps (set vs i closed) objects k (close_plain base ps vs objects i v r e n)
close_plain base _ _ objects zero v (owning p o u ps vs _ k l r) e n =
    absurd (ground (arith, ap object_of (some-injective u v e)))
close_plain base _ _ objects (suc i) v (owning p o u ps vs _ k l r) e n =
    owning p o u ps (set vs i closed) objects k l
      (close_plain base ps vs (remove objects p) i v r e n)

-- A handle with an object is closed: its object goes, and no other.
pub close_owning :
    (base : Objects) (ps : List Pointer) (vs : List Value) (objects : Objects) (i : ℕ) (v : Value)
    (q : ℕ) (o : Object)
    → Represents base ps vs objects
    → get_elem? vs i ≡ some v
    → get_elem? ps i ≡ some (some q)
    → object_of v ≡ some o
    → Represents base ps (set vs i closed) (remove objects q)
close_owning base _ _ _ i v q o nothing e f n = absurd (ground arith)
close_owning base _ _ objects zero v q o (plain p u ps vs _ k r) e f n =
    absurd (ground (arith, IsPlain-object_of p u k, ap object_of (some-injective u v e)))
close_owning base _ _ objects (suc i) v q o (plain p u ps vs _ k r) e f n =
    plain p u ps (set vs i closed) (remove objects q) k
      (close_owning base ps vs objects i v q o r e f n)
close_owning base _ _ objects zero v q o (owning p o' u ps vs _ k l r) e f n =
    let same : p ≡ q = some-injective p q (some-injective _ _ f) in
    plain (some p) closed ps vs (remove objects q) (gone (some p))
      (subst (λ (t : ℕ). Represents base ps vs (remove objects t)) same r)
close_owning base _ _ objects (suc i) v q o (owning p o' u ps vs _ k l r) e f n =
    let there =
      Found-object (remove objects p) ps i v q o
        (Represents-Found base ps vs (remove objects p) i v r e) f n in
    let apart = (remove_other objects p q o there).1 in
    owning p o' u ps (set vs i closed) (remove objects q) k
      (remove_kept objects q p o' l (λ t. apart (sym t)))
      (subst (Represents base ps (set vs i closed)) (remove_swap objects p q)
        (close_owning base ps vs (remove objects p) i v q o r e f n))

-- A new handle.
pub open_owning :
    (base : Objects) (ps : List Pointer) (vs : List Value) (objects : Objects) (v : Value) (p : ℕ)
    (o : Object)
    → Represents base ps vs objects
    → object_at objects p ≡ none
    → object_of v ≡ some o
    → Represents base (some p ∷ ps) (v ∷ vs) ((p, o) ∷ objects)
open_owning base ps vs objects v p o r e k =
    owning p o v ps vs ((p, o) ∷ objects) k (object_at_new objects p o)
      (subst (Represents base ps vs) (sym (remove_new objects p o e)) r)

-- Where no handle is open, no object but those of `base` lives.
abbrev pub IsClosed : Value → Type 0
IsClosed v = object_of v ≡ none

pub Represents-base :
    (base : Objects) (ps : List Pointer) (vs : List Value) (objects : Objects)
    → Represents base ps vs objects
    → All IsClosed vs
    → objects ≡ base
Represents-base base _ _ _ nothing all = refl
Represents-base base _ _ objects (plain p u ps vs _ k r) (c, all) =
    Represents-base base ps vs objects r all
Represents-base base _ _ objects (owning p o u ps vs _ k l r) (c, all) = absurd (ground arith)

-- What stands at the pointer of a handle.
pub data At (objects : Objects) : Pointer → Value → Type 0 where
  at_null : At objects none (handle none)
  at_system : (h : ℕ) → At objects (some h) (handle (some (system_handle h)))
  at_data :
      (p : ℕ) (info : DlPhdrInfo)
      → object_at objects p ≡ some (data_object info)
      → At objects (some p) (handle (some (iterate_data info)))
  at_null_elf : At objects none (elf_handle none)
  at_so :
      (p : ℕ) (so_dl_info : SoDlInfo)
      → object_at objects p ≡ some (so_object so_dl_info)
      → At objects (some p) (elf_handle (some so_dl_info))
  at_gone : (p : Pointer) → At objects p closed

IsPlain-At : (objects : Objects) (p : Pointer) (v : Value) → IsPlain p v → At objects p v
IsPlain-At objects _ _ null_handle = at_null
IsPlain-At objects _ _ (of_system h) = at_system h
IsPlain-At objects _ _ null_elf_handle = at_null_elf
IsPlain-At objects _ _ (gone p) = at_gone p

object_of-At :
    (objects : Objects) (p : ℕ) (o : Object) (v : Value)
    → object_of v ≡ some o
    → object_at objects p ≡ some o
    → At objects (some p) v
object_of-At objects p o (handle none) e h = absurd (ground arith)
object_of-At objects p o (handle (some (system_handle q))) e h = absurd (ground arith)
object_of-At objects p o (handle (some (iterate_data info))) e h = at_data p info (h ∙ sym e)
object_of-At objects p o (elf_handle none) e h = absurd (ground arith)
object_of-At objects p o (elf_handle (some so)) e h = at_so p so (h ∙ sym e)
object_of-At objects p o closed e h = absurd (ground arith)

-- A value that the client has is there.
pub Represents-At :
    (base : Objects) (ps : List Pointer) (vs : List Value) (objects : Objects) (i : ℕ) (v : Value)
    → Represents base ps vs objects
    → get_elem? vs i ≡ some v
    → (p : Pointer) × (get_elem? ps i ≡ some p) × At objects p v
Represents-At base ps vs objects i v r e = by_found (Represents-Found base ps vs objects i v r e)
  where
    by_found : Found objects ps i v → (p : Pointer) × (get_elem? ps i ≡ some p) × At objects p v
    by_found (found_plain p f k) = (p, f, IsPlain-At objects p v k)
    by_found (found_owning p o f k l) = (some p, f, object_of-At objects p o v k l)
