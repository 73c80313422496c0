-- ===== src/Strip/Install.antt =====
-- `HookInit` of hprof_strip.cpp: the functions of which libraries go to the hooks. xhook is a
-- parameter.
use xapm.Base.{
  ℕ, ◌≡◌, refl, ap, ◌∙◌, Bool, false, ◌&&◌, ◌||◌, List, [], ◌∷◌, ◌++◌, Option, none, some,
  if◌then◌else◌, codes, strcmp_eq, arith,
}

-- `HookOpen` and `HookWrite`.
pub data Hook : Type 0 where
  hook_open hook_write : Hook

-- The functions of xhook, which change something in `W`.
pub record Xhook (W : Type 0) : Type 0 where
  pub enable_debug : ℕ → W → W
  pub register : List ℕ → List ℕ → Hook → W → W
  pub refresh : ℕ → W → W
  pub clear : W → W

-- `HookInit`.
pub hook_init : {W : Type 0} → Xhook W → W → W
hook_init x w =
    let w = x.enable_debug 0 w in
    let w = x.register (codes "libart.so") (codes "open") hook_open w in
    let w = x.register (codes "libbase.so") (codes "open") hook_open w in
    let w = x.register (codes "libartbase.so") (codes "open") hook_open w in
    let w = x.register (codes "libc.so") (codes "write") hook_write w in
    let w = x.register (codes "libart.so") (codes "write") hook_write w in
    let w = x.register (codes "libbase.so") (codes "write") hook_write w in
    let w = x.register (codes "libartbase.so") (codes "write") hook_write w in
    let w = x.refresh 0 w in x.clear w

-- What xhook has noted of a registration.
pub record Registration : Type 0 where
  pub pattern : List ℕ
  pub symbol : List ℕ
  pub hook : Hook

abbrev pub registration : List ℕ → List ℕ → Hook → Registration
registration pattern symbol hook = record { pattern = pattern; symbol = symbol; hook = hook }

-- Where the calls of a symbol from the library at a path go: `none` is the system's function.
abbrev pub Routes : Type 0
Routes = List ℕ → List ℕ → Option Hook

-- Where they go once the registrations are carried out, one after the other.
abbrev pub routed : (List ℕ → List ℕ → Bool) → List Registration → Routes → Routes
routed matches [] routes path symbol = routes path symbol
routed matches (r ∷ rs) routes path symbol =
    routed matches rs
      (λ (p s : List ℕ).
        if matches r.pattern p && strcmp_eq r.symbol s then some r.hook else routes p s)
      path symbol

-- What is relied on of xhook: a registration is noted and changes no call, a refresh sends the calls
-- of the libraries whose paths the patterns match to the hooks, and a clear forgets what is noted and
-- leaves the calls where they go.
pub record XhookLaws {W : Type 0} (x : Xhook W) : Type 0 where
  pub matches : List ℕ → List ℕ → Bool
  pub noted : W → List Registration
  pub routes : W → Routes
  pub noted-register :
      (pattern symbol : List ℕ) (hook : Hook) (w : W)
      → noted (x.register pattern symbol hook w) ≡ noted w ++ registration pattern symbol hook ∷ []
  pub routes-register :
      (pattern symbol : List ℕ) (hook : Hook) (w : W)
      → routes (x.register pattern symbol hook w) ≡ routes w
  pub noted-enable_debug : (flag : ℕ) (w : W) → noted (x.enable_debug flag w) ≡ noted w
  pub routes-enable_debug : (flag : ℕ) (w : W) → routes (x.enable_debug flag w) ≡ routes w
  pub routes-refresh :
      (mode : ℕ) (w : W) → routes (x.refresh mode w) ≡ routed matches (noted w) (routes w)
  pub routes-clear : (w : W) → routes (x.clear w) ≡ routes w

-- The seven tests, and the two.
by_symbol :
    (art base artbase c is_open is_write : Bool)
    → (is_open && is_write) ≡ false
    → (before : Option Hook)
    → ◌≡◌ {A = Option Hook}
        (if artbase && is_write
          then some hook_write
          else if base && is_write
          then some hook_write
          else if art && is_write
          then some hook_write
          else if c && is_write
          then some hook_write
          else if artbase && is_open
          then some hook_open
          else if base && is_open
          then some hook_open
          else if art && is_open
          then some hook_open
          else before)
        (if (art || base || artbase) && is_open
          then some hook_open
          else if (c || (art || base || artbase)) && is_write
          then some hook_write
          else before)
by_symbol art base artbase c is_open is_write h before = ground arith

-- No name is both.
not_both :
    (symbol : List ℕ)
    → (strcmp_eq (codes "open") symbol && strcmp_eq (codes "write") symbol) ≡ false
unfolding strcmp_eq
not_both [] = refl
not_both (c ∷ symbol) = ground arith

module _ {W : Type 0} (x : Xhook W) (laws : XhookLaws x) where
  -- The libraries whose `open` is to be hooked, and those whose `write` is.
  abbrev pub opens_hooked : List ℕ → Bool
  opens_hooked path =
      laws.matches (codes "libart.so") path
      || laws.matches (codes "libbase.so") path
      || laws.matches (codes "libartbase.so") path

  abbrev pub writes_hooked : List ℕ → Bool
  writes_hooked path = laws.matches (codes "libc.so") path || opens_hooked path

  -- The registrations that `HookInit` makes.
  abbrev registrations : List Registration
  registrations =
      registration (codes "libart.so") (codes "open") hook_open
      ∷ registration (codes "libbase.so") (codes "open") hook_open
      ∷ registration (codes "libartbase.so") (codes "open") hook_open
      ∷ registration (codes "libc.so") (codes "write") hook_write
      ∷ registration (codes "libart.so") (codes "write") hook_write
      ∷ registration (codes "libbase.so") (codes "write") hook_write
      ∷ registration (codes "libartbase.so") (codes "write") hook_write
      ∷ []

  routes-hook_init :
      (w : W)
      → laws.noted w ≡ []
      → laws.routes (hook_init x w) ≡ routed laws.matches registrations (laws.routes w)
  unfolding hook_init
  routes-hook_init w e =
      simp
        (
          laws.routes-clear, laws.routes-refresh, laws.routes-register, laws.noted-register,
          laws.routes-enable_debug, laws.noted-enable_debug, e,
        )
        (refl)

  -- After `HookInit`, a call of `open` from a library whose path matches one of three patterns goes to
  -- `HookOpen`, a call of `write` from one whose path matches one of four to `HookWrite`, and every
  -- other call of any function goes where it went before. Nothing is noted in xhook before.
  pub hook_init_lem :
      (w : W) (path symbol : List ℕ)
      → laws.noted w ≡ []
      → laws.routes (hook_init x w) path symbol ≡ (
          if opens_hooked path && strcmp_eq (codes "open") symbol
          then some hook_open
          else if writes_hooked path && strcmp_eq (codes "write") symbol
          then some hook_write
          else laws.routes w path symbol)
  hook_init_lem w path symbol e =
      ap (λ (r : Routes). r path symbol) (routes-hook_init w e)
      ∙ by_symbol (laws.matches (codes "libart.so") path) (laws.matches (codes "libbase.so") path)
          (laws.matches (codes "libartbase.so") path) (laws.matches (codes "libc.so") path)
          (strcmp_eq (codes "open") symbol) (strcmp_eq (codes "write") symbol) (not_both symbol)
          (laws.routes w path symbol)

  -- Where nothing is hooked before, `HookInit` hooks nothing else.
  pub routes_open :
      (w : W) (path : List ℕ)
      → laws.noted w ≡ []
      → ((p symbol : List ℕ) → laws.routes w p symbol ≡ none)
      → laws.routes (hook_init x w) path (codes "open")
        ≡ (if opens_hooked path then some hook_open else none)
  unfolding strcmp_eq
  routes_open w path e free =
      hook_init_lem w path (codes "open") e ∙ ground (arith, free path (codes "open"))

  pub routes_write :
      (w : W) (path : List ℕ)
      → laws.noted w ≡ []
      → ((p symbol : List ℕ) → laws.routes w p symbol ≡ none)
      → laws.routes (hook_init x w) path (codes "write")
        ≡ (if writes_hooked path then some hook_write else none)
  unfolding strcmp_eq
  routes_write w path e free =
      hook_init_lem w path (codes "write") e ∙ ground (arith, free path (codes "write"))
