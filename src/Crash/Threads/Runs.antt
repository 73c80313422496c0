-- ===== src/Crash/Threads/Runs.antt =====
-- A run of several crashing threads in nativecrashcatcher.cpp and the theorem at it.
use xapm.Base.{◌+◌, ◌≤◌, ◌≡◌, refl, [], ◌∷◌, arith}
use xapm.Crash.Threads.{
  outside, passed, go_on, set_state, paused, writing_text, calling_old, Crowd, crowd, CrowdReach,
  stay, go, one_thread, stop, any_ended,
}
use xapm.Crash.Threads.Past.{count, past, returns_of, CrowdReach-past}
use xapm.Crash.Threads.Race.{two, two-race}

-- One thread is in the handler when another one crashes.
abbrev second_crash : Crowd
second_crash = crowd (writing_text ∷ outside ∷ []) 1

-- It pauses, `pause` returns, and it writes into the same text.
abbrev second_through : Crowd
second_through = crowd (writing_text ∷ writing_text ∷ []) 1

abbrev second_passed : Crowd
second_passed = crowd (writing_text ∷ passed ∷ []) 1

abbrev second_paused : Crowd
second_paused = crowd (writing_text ∷ paused ∷ []) 1

goes_through : CrowdReach second_crash second_through
unfolding any_ended
goes_through =
    go second_crash second_paused second_through
      (one_thread (writing_text ∷ []) [] outside paused 1 1 refl stop)
      (go second_paused second_passed second_through
        (one_thread (writing_text ∷ []) [] paused passed 1 1 refl (go_on 1))
        (go second_passed second_through second_through
          (one_thread (writing_text ∷ []) [] passed writing_text 1 1 refl (set_state 1))
          (stay second_through)))

CrowdReach-past_example :
    (1 ≤ second_through.state)
    × (count past second_through.threads
        ≡ count past second_crash.threads + returns_of second_crash second_through goes_through)
CrowdReach-past_example = CrowdReach-past second_crash second_through goes_through (omega arith)

-- Two threads crash at once beside a third one that is already paused.
two-race_example :
    CrowdReach
      (two (paused ∷ []) [] [] outside outside 0)
      (two (paused ∷ []) [] [] writing_text writing_text 1)
    × CrowdReach
        (two (paused ∷ []) [] [] outside outside 0)
        (two (paused ∷ []) [] [] calling_old calling_old 1)
unfolding any_ended
two-race_example = two-race (paused ∷ []) [] [] refl
