-- ===== src/Crash/Threads/Race.antt =====
-- Two threads that crash at once in nativecrashcatcher.cpp, before either has set `handleSigState`.
use mathlib.Core.Path.{subst}
use xapm.Base.{ℕ, ◌≡◌, refl, sym, ap, ◌∙◌, false, List, [], ◌∷◌, ◌++◌, append_assoc, arith}
use xapm.Crash.Threads.{
  ThreadAt, outside, passed, writing_text, telling, awaiting, calling_old, ThreadStep, pass,
  set_state, write_text, tell, wake_up, Crowd, crowd, is_ended, any_ended, one_thread, CrowdReach,
  stay, go,
}

-- A thread among the others does not decide whether one has ended, as long as it has not.
any_ended-swap :
    (front back : List ThreadAt) (t u : ThreadAt)
    → is_ended t ≡ false
    → is_ended u ≡ false
    → any_ended (front ++ (t ∷ back)) ≡ any_ended (front ++ (u ∷ back))
unfolding any_ended
any_ended-swap [] back t u p q = ground arith
any_ended-swap (f ∷ front) back t u p q = ground (arith, any_ended-swap front back t u p q)

CrowdReach-trans : (a b c : Crowd) → CrowdReach a b → CrowdReach b c → CrowdReach a c
CrowdReach-trans _ _ c (stay b) r = r
CrowdReach-trans _ _ c (go a b d s q) r = go a b c s (CrowdReach-trans b d c q r)

module _ (front middle back : List ThreadAt) where
  -- The crowd with one thread at `t` and a later one at `u`.
  abbrev pub two : ThreadAt → ThreadAt → ℕ → Crowd
  two t u g = crowd (front ++ (t ∷ (middle ++ (u ∷ back)))) g

  abbrev NoneEnded : ThreadAt → ThreadAt → Type 0
  NoneEnded t u = any_ended (front ++ (t ∷ (middle ++ (u ∷ back)))) ≡ false

  behind_first :
      (t u : ThreadAt)
      → (front ++ (t ∷ middle)) ++ (u ∷ back) ≡ front ++ (t ∷ (middle ++ (u ∷ back)))
  behind_first t u = append_assoc front (t ∷ middle) (u ∷ back)

  -- A step of the first of the two, and of the second.
  first_step :
      (t t' u : ThreadAt) (g g' : ℕ)
      → NoneEnded t u
      → ThreadStep g t g' t'
      → CrowdReach (two t u g) (two t' u g')
  first_step t t' u g g' e s =
      go _ _ _ (one_thread front (middle ++ (u ∷ back)) t t' g g' e s) (stay _)

  second_step :
      (t u u' : ThreadAt) (g g' : ℕ)
      → NoneEnded t u
      → ThreadStep g u g' u'
      → CrowdReach (two t u g) (two t u' g')
  second_step t u u' g g' e s =
      subst (λ (l : List ThreadAt). CrowdReach (crowd l g) (two t u' g')) (behind_first t u)
        (subst
          (λ (l : List ThreadAt).
            CrowdReach (crowd ((front ++ (t ∷ middle)) ++ (u ∷ back)) g) (crowd l g'))
          (behind_first t u')
          (go _ _ _
            (one_thread (front ++ (t ∷ middle)) back u u' g g' (ap any_ended (behind_first t u) ∙ e)
              s)
            (stay _)))

  NoneEnded-swap :
      (t t' u u' : ThreadAt)
      → is_ended t ≡ false
      → is_ended t' ≡ false
      → is_ended u ≡ false
      → is_ended u' ≡ false
      → NoneEnded t u
      → NoneEnded t' u'
  NoneEnded-swap t t' u u' a b c d e =
      any_ended-swap front (middle ++ (u' ∷ back)) t' t b a
      ∙ (ap any_ended (sym (behind_first t u'))
          ∙ (any_ended-swap (front ++ (t ∷ middle)) back u' u d c
              ∙ (ap any_ended (behind_first t u) ∙ e)))

  -- Once a thread has set the variable, it goes on to the old handlers whatever the others do.
  first_goes_on :
      (u : ThreadAt)
      → NoneEnded writing_text u
      → is_ended u ≡ false
      → CrowdReach (two writing_text u 1) (two calling_old u 1)
  first_goes_on u e n =
      CrowdReach-trans _ _ _ (first_step writing_text telling u 1 1 e (write_text 1)) (
        CrowdReach-trans _ _ _
          (first_step telling awaiting u 1 1
            (NoneEnded-swap writing_text telling u u refl refl n n e) (tell 1))
          (first_step awaiting calling_old u 1 1
            (NoneEnded-swap writing_text awaiting u u refl refl n n e) (wake_up 1)))

  second_goes_on :
      (t : ThreadAt)
      → NoneEnded t writing_text
      → is_ended t ≡ false
      → CrowdReach (two t writing_text 1) (two t calling_old 1)
  second_goes_on t e n =
      CrowdReach-trans _ _ _ (second_step t writing_text telling 1 1 e (write_text 1)) (
        CrowdReach-trans _ _ _
          (second_step t telling awaiting 1 1
            (NoneEnded-swap t t writing_text telling n n refl refl e) (tell 1))
          (second_step t awaiting calling_old 1 1
            (NoneEnded-swap t t writing_text awaiting n n refl refl e) (wake_up 1)))

  -- Both get past the tests before either sets the variable.
  both_pass :
      NoneEnded outside outside
      → CrowdReach (two outside outside 0) (two writing_text writing_text 1)
  both_pass e =
      let none_ended = λ (t u : ThreadAt) (a : is_ended t ≡ false) (b : is_ended u ≡ false).
        NoneEnded-swap outside t outside u refl a refl b e in
      CrowdReach-trans _ _ _ (first_step outside passed outside 0 0 e pass) (
        CrowdReach-trans _ _ _
          (second_step passed outside passed 0 0 (none_ended passed outside refl refl) pass)
          (CrowdReach-trans _ _ _
            (first_step passed writing_text passed 0 1 (none_ended passed passed refl refl)
              (set_state 0))
            (second_step writing_text passed writing_text 1 1
              (none_ended writing_text passed refl refl) (set_state 1))))

  -- Whatever other threads there are, as long as none has ended: two threads that have crashed and
  -- find `handleSigState` 0 can both get past the tests, so that both write their texts into the one
  -- buffer, and both call the old handlers.
  pub two-race :
      any_ended (front ++ (outside ∷ (middle ++ (outside ∷ back)))) ≡ false
      → CrowdReach (two outside outside 0) (two writing_text writing_text 1)
        × CrowdReach (two outside outside 0) (two calling_old calling_old 1)
  two-race e =
      let none_ended = λ (t u : ThreadAt) (a : is_ended t ≡ false) (b : is_ended u ≡ false).
        NoneEnded-swap outside t outside u refl a refl b e in
      (
        both_pass e,
        CrowdReach-trans _ _ _ (both_pass e) (
            CrowdReach-trans _ _ _
              (first_goes_on writing_text (none_ended writing_text writing_text refl refl) refl)
              (second_goes_on calling_old (none_ended calling_old writing_text refl refl) refl)),
      )
