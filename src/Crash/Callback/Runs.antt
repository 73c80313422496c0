-- ===== src/Crash/Callback/Runs.antt =====
-- A run of `callbackToUI` of nativecrashcatcher.cpp and the theorem at it.
use xapm.Base.{
  ℕ, ◌≡◌, refl, true, false, List, [], ◌∷◌, ◌++◌, Option, none, some, ok, codes, arith, all_ascii,
  if◌then◌else◌, if_true,
}
use xapm.Crash.Text.{assemble_crash_info, thread_text}
use xapm.Crash.Text.ReadBack.{read_crash}
use xapm.Crash.Callback.{
  Ui, Jni, TakesAscii, callback_to_ui, is_called, stays_attached, callback_to_ui-read_crash,
}

abbrev silent : Ui
silent = record { attached = false; messages = [] }

-- A VM that makes strings of ASCII texts only.
abbrev only_ascii : List ℕ → Option (List ℕ)
only_ascii t = if all_ascii t then some t else none

abbrev vm : Jni
vm = record { attaches = true; has_method = true; new_string_utf = only_ascii }

vm-TakesAscii : TakesAscii vm
unfolding TakesAscii
vm-TakesAscii t h = if_true _ _ h

main_thread : all_ascii (codes "main") ≡ true
unfolding all_ascii
main_thread = refl

-- A null pointer read in the main thread.
callback_to_ui-read_crash_example :
    (sigdetail : List ℕ) × (text : List ℕ) × (assemble_crash_info (codes "main") 1 11 1
      ≡ ok sigdetail)
    × (sigdetail ≡ thread_text (codes "main") 1 ++ text)
    × ◌≡◌ {A = Option ℕ × Option ℕ} (read_crash text) (some 11, some 1)
    × ((callback_to_ui vm (some 900) sigdetail silent).messages
        ≡ [] ++ (if is_called vm (some 900) then some sigdetail ∷ [] else []))
    × ((callback_to_ui vm (some 900) sigdetail silent).attached
        ≡ stays_attached vm (some 900) false)
callback_to_ui-read_crash_example =
    callback_to_ui-read_crash vm (some 900) (codes "main") 1 11 1 silent vm-TakesAscii (omega arith)
      main_thread (omega arith) (omega arith)
