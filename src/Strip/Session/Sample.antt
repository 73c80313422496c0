-- ===== src/Strip/Session/Sample.antt =====
-- A small dump through the hooks of hprof_strip.cpp: test data for its clients.
use xapm.Base.{
  ℕ, ◌≡◌, refl, Bool, true, false, List, [], ◌∷◌, ◌++◌, arith, replicate, none, some, codes, strstr,
  starts_with,
}
use xapm.Strip.State.{HprofStrip}
use xapm.Strip.Kernel.{Kernel, accepted}
use xapm.Strip.Format.{info, instances, root}
use xapm.Strip.Tags
use xapm.Strip.Install.{
  Hook, Xhook, Registration, registration, Routes, routed, XhookLaws, opens_hooked, writes_hooked,
}
use xapm.Strip.Session.Calls.{WriteCall, dump, elsewhere, dumps, AllCalls}
use xapm.Strip.Session.{other, heap_dump, AllFit}

abbrev pub zeros : ℕ → List ℕ
zeros n = replicate n 0

-- A text record, and a heap dump that enters the zygote heap.
abbrev pub fresh : HprofStrip
fresh = record {
  hprof_fd = 0;
  strip_bytes_sum = 0;
  heap_serial_num = 0;
  hook_write_serial_num = 0;
  strip_index = 0;
  is_hook_success = false;
  is_current_system_heap = false;
  hprof_name = [];
  strip_index_list_pair = λ j. 0;
}

abbrev pub kernel : Kernel
kernel = record { files = λ g. []; outcomes = replicate 60 (accepted 1) }

abbrev pub dump_name : List ℕ
dump_name = b'd' ∷ []

abbrev pub path : List ℕ
path = b'/' ∷ b'd' ∷ []

-- A xhook that keeps its registrations and where the calls go.
pub record Hooks : Type 0 where
  pub noted_here : List Registration
  pub routes_here : Routes

-- A pattern matches the paths that it stands in.
abbrev pub stands_in : List ℕ → List ℕ → Bool
stands_in pattern path = elim (strstr path pattern) [ none ↦ false | some rest ↦ true ]

abbrev pub note : List ℕ → List ℕ → Hook → Hooks → Hooks
note pattern symbol hook w = record w {
  noted_here = w.noted_here ++ registration pattern symbol hook ∷ [];
}

abbrev pub carry_out : Hooks → Hooks
carry_out w = record w { routes_here = routed stands_in w.noted_here w.routes_here }

abbrev pub xhook : Xhook Hooks
xhook = record {
  enable_debug = λ flag w. w;
  register = note;
  refresh = λ mode w. carry_out w;
  clear = λ w. record w { noted_here = [] };
}

abbrev pub xhook_laws : XhookLaws xhook
xhook_laws = record {
  matches = stands_in;
  noted = λ w. w.noted_here;
  routes = λ w. w.routes_here;
  noted-register = λ pattern symbol hook w. refl;
  routes-register = λ pattern symbol hook w. refl;
  noted-enable_debug = λ flag w. refl;
  routes-enable_debug = λ flag w. refl;
  routes-refresh = λ mode w. refl;
  routes-clear = λ w. refl;
}

abbrev pub unhooked : Hooks
unhooked = record { noted_here = []; routes_here = λ p symbol. none }

abbrev pub libart : List ℕ
libart = codes "/lib/libart.so"

abbrev pub libc : List ℕ
libc = codes "/lib/libc.so"

abbrev pub liblog : List ℕ
liblog = codes "/lib/liblog.so"

-- Between the records, something goes to a log.
abbrev pub calls : List WriteCall
calls =
    dump libart (other 1 (2 ∷ 3 ∷ []))
    ∷ elsewhere liblog 2 (b'x' ∷ b'y' ∷ [])
    ∷ dump libc (
        heap_dump 0x1C 5 (
          root Tags.root_unknown (zeros 4)
          ∷ info (zeros 3) b'Z' (zeros 4)
          ∷ instances (zeros 12) (9 ∷ [])
          ∷ []))
    ∷ []

pub records-AllFit : AllFit false (dumps calls)
records-AllFit = (
  (refl, omega arith),
  ((refl, (refl, (omega arith, (omega arith, tt))), omega arith, omega arith), tt),
)

pub calls-AllCalls : AllCalls (writes_hooked xhook xhook_laws) 7 calls
unfolding strstr starts_with
calls-AllCalls = (refl, ((λ e. ground arith), omega arith, (refl, tt)))

pub opens_libart : opens_hooked xhook xhook_laws libart ≡ true
unfolding strstr starts_with
opens_libart = refl
