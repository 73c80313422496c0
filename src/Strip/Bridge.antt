-- ===== src/Strip/Bridge.antt =====
-- hprof/hprofclipper/src/main/cpp/native_bridge.cpp: what Java calls before a dump.
use xapm.Base.{ℕ, List, Option, none, some, Result, ok, fault, bad_read}
use xapm.Strip.State.{HprofStrip, set_hprof_name}
use xapm.Strip.Install.{Xhook, hook_init}

-- `initStripDump`.
unfoldable pub init_strip_dump : {W : Type 0} → Xhook W → W → W
init_strip_dump x w = hook_init x w

-- `hprofName`: the characters that `GetStringUTFChars` gives, `none` where it gives nullptr, go into a
-- std::string.
unfoldable pub hprof_name : Option (List ℕ) → HprofStrip → Result HprofStrip
unfolding set_hprof_name
hprof_name none s = fault bad_read
hprof_name (some chars) s = ok (set_hprof_name s chars)
