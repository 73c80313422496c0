-- ===== src/Crash/Callback.antt =====
-- `callbackToUI` of nativecrashcatcher.cpp: the clean-up thread hands the crash text to Java.
mod Runs
use mathlib.Core.Path.{subst}
use xapm.Base.{
  ℕ, ◌^◌, ◌<◌, ◌≤◌, ◌≡◌, refl, sym, ap, ◌∙◌, Bool, true, false, not, ◌&&◌, List, [], ◌∷◌, ◌++◌,
  Option, none, some, Result, ok, ok-injective, length, append-nil, all_ascii, if◌then◌else◌,
}
use xapm.Crash.Text.{assemble_crash_info, thread_text}
use xapm.Crash.Text.Ascii.{crash_text-all_ascii}
use xapm.Crash.Text.Bounds.{crash_text, assemble_crash_info-crash_text}
use xapm.Crash.Text.ReadBack.{read_crash, assemble_crash_info-read_crash}

-- Whether the clean-up thread is attached to the VM, and what `callback` was called with: a Java
-- string by its characters, or null.
pub record Ui : Type 0 where
  pub attached : Bool
  pub messages : List (Option (List ℕ))

-- What the JNI answers: whether AttachCurrentThread gives JNI_OK, whether GetMethodID finds `callback`,
-- and what string NewStringUTF makes of a text, `none` for NULL.
pub record Jni : Type 0 where
  pub attaches : Bool
  pub has_method : Bool
  pub new_string_utf : List ℕ → Option (List ℕ)

pub callback_to_ui : Jni → Option ℕ → List ℕ → Ui → Ui
callback_to_ui jni none sigdetail ui = ui
callback_to_ui jni (some ui_callback) sigdetail ui =
    if not jni.attaches
    then ui
    else if not jni.has_method
    then record ui { attached = true }
    else record { attached = false; messages = ui.messages ++ (jni.new_string_utf sigdetail ∷ []) }

-- What is relied on of NewStringUTF, where there is memory: modified UTF-8 is ASCII from 1 to 127.
pub TakesAscii : Jni → Type 0
TakesAscii jni = (t : List ℕ) → all_ascii t ≡ true → jni.new_string_utf t ≡ some t

-- Whether Java is called, and whether the thread stays attached.
abbrev pub is_called : Jni → Option ℕ → Bool
is_called jni none = false
is_called jni (some ui_callback) = jni.attaches && jni.has_method

abbrev pub stays_attached : Jni → Option ℕ → Bool → Bool
stays_attached jni none attached = attached
stays_attached jni (some ui_callback) attached =
    if jni.attaches then not jni.has_method else attached

callback_to_ui-branches :
    (jni : Jni) (cb : Option ℕ) (sigdetail : List ℕ) (ui : Ui)
    → ((callback_to_ui jni cb sigdetail ui).messages
        ≡ ui.messages ++ (if is_called jni cb then jni.new_string_utf sigdetail ∷ [] else []))
      × ((callback_to_ui jni cb sigdetail ui).attached ≡ stays_attached jni cb ui.attached)
unfolding callback_to_ui
callback_to_ui-branches jni none sigdetail ui = (sym (append-nil ui.messages), refl)
callback_to_ui-branches jni (some cb) sigdetail ui = by_answers jni.attaches jni.has_method
  where
    out : Bool → Bool → Ui
    out a m = if not a then ui else if not m then record ui { attached = true } else record {
      attached = false;
      messages = ui.messages ++ (jni.new_string_utf sigdetail ∷ []);
    }

    by_answers :
        (a m : Bool)
        → ((out a m).messages
            ≡ ui.messages ++ (if a && m then jni.new_string_utf sigdetail ∷ [] else []))
          × ((out a m).attached ≡ (if a then not m else ui.attached))
    by_answers false m = (sym (append-nil ui.messages), refl)
    by_answers true false = (sym (append-nil ui.messages), refl)
    by_answers true true = (refl, refl)

-- The crash text on its way to Java, with a thread name of at most 15 ASCII characters and a
-- NewStringUTF that takes ASCII as it is. `sigHandler` has in `sigdetail` the thread's part and then a
-- text from which a reader who knows the constants of <signal.h> gets the signal and the code back.
-- The clean-up thread calls `callback` once, with a string of exactly that text, where there is a
-- callback, the thread can be attached and the class has the method, and else not at all. It is
-- detached afterwards, but stays attached where the method is missing.
pub callback_to_ui-read_crash :
    (jni : Jni) (cb : Option ℕ) (name : List ℕ) (tid si_signo si_code : ℕ) (ui : Ui)
    → TakesAscii jni
    → length name ≤ 15
    → all_ascii name ≡ true
    → si_signo < 2 ^ 32
    → si_code < 2 ^ 32
    → (sigdetail : List ℕ) × (text : List ℕ) × (assemble_crash_info name tid si_signo si_code
        ≡ ok sigdetail)
      × (sigdetail ≡ thread_text name tid ++ text)
      × ◌≡◌ {A = Option ℕ × Option ℕ} (read_crash text) (some si_signo, some si_code)
      × ((callback_to_ui jni cb sigdetail ui).messages
          ≡ ui.messages ++ (if is_called jni cb then some sigdetail ∷ [] else []))
      × ((callback_to_ui jni cb sigdetail ui).attached ≡ stays_attached jni cb ui.attached)
unfolding TakesAscii
callback_to_ui-read_crash jni cb name tid si_signo si_code ui takes h ascii m n =
    let (text, e, r) = assemble_crash_info-read_crash name tid si_signo si_code h m n in
    let sigdetail = thread_text name tid ++ text in
    let same =
      ok-injective _ _ (sym (assemble_crash_info-crash_text si_signo si_code name tid h).0 ∙ e) in
    let is_ascii : all_ascii sigdetail ≡ true =
      subst (λ (t : List ℕ). all_ascii t ≡ true) same
        (crash_text-all_ascii si_signo si_code name tid ascii) in
    let (messages, attached) = callback_to_ui-branches jni cb sigdetail ui in
    (
      sigdetail,
      text,
      e,
      refl,
      r,
      messages
          ∙ ap (λ (o : Option (List ℕ)). ui.messages ++ (if is_called jni cb then o ∷ [] else []))
              (takes sigdetail is_ascii),
      attached,
    )
