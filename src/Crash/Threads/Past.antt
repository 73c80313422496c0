-- ===== src/Crash/Threads/Past.antt =====
-- Which threads get past the tests of `sigHandler` in nativecrashcatcher.cpp once one has.
use xapm.Base.{ℕ, ◌+◌, ◌≤◌, ◌≡◌, refl, List, [], ◌∷◌, ◌++◌, arith, ◌==◌, if◌then◌else◌}
use xapm.Crash.Threads.{
  ThreadAt, outside, passed, paused, writing_text, telling, awaiting, calling_old, leaving, ended,
  ThreadStep, pass, stop, go_on, leave_at_once, set_state, write_text, tell, wake_up, call_old,
  leave, Crowd, CrowdStep, one_thread, CrowdReach, stay, go,
}

-- The thread is behind the tests, from there to its own exit: 1.
abbrev pub past : ThreadAt → ℕ
past outside = 0
past passed = 1
past paused = 0
past writing_text = 1
past telling = 1
past awaiting = 1
past calling_old = 1
past leaving = 1
past (ended status) = if status == 55 then 1 else 0

unfoldable pub count : (ThreadAt → ℕ) → List ThreadAt → ℕ
count f [] = 0
count f (t ∷ ts) = f t + count f ts

count-append :
    (f : ThreadAt → ℕ) (xs ys : List ThreadAt) → count f (xs ++ ys) ≡ count f xs + count f ys
unfolding count
count-append f [] ys = omega arith
count-append f (x ∷ xs) ys = omega (arith, count-append f xs ys)

count_at :
    (f : ThreadAt → ℕ) (front : List ThreadAt) (t : ThreadAt) (back : List ThreadAt)
    → count f (front ++ (t ∷ back)) ≡ count f front + (f t + count f back)
unfolding count
count_at f front t back = count-append f front (t ∷ back)

-- How often a step is one in which `pause` returns, and how often that happens in a run.
abbrev pub returned_by : (g : ℕ) (t : ThreadAt) (g' : ℕ) (t' : ThreadAt) → ThreadStep g t g' t' → ℕ
returned_by _ _ _ _ (go_on g) = 1
returned_by g t g' t' s = 0

abbrev pub crowd_returned_by : (a b : Crowd) → CrowdStep a b → ℕ
crowd_returned_by _ _ (one_thread front back t t' g g' e s) = returned_by g t g' t' s

unfoldable pub returns_of : (a b : Crowd) → CrowdReach a b → ℕ
returns_of _ _ (stay c) = 0
returns_of _ _ (go a b c s r) = crowd_returned_by a b s + returns_of b c r

-- A step, thread by thread.
ThreadStep-past :
    (g : ℕ) (t : ThreadAt) (g' : ℕ) (t' : ThreadAt) (s : ThreadStep g t g' t')
    → 1 ≤ g
    → (1 ≤ g') × (past t' ≡ past t + returned_by g t g' t' s)
ThreadStep-past _ _ _ _ pass p = absurd (omega arith)
ThreadStep-past _ _ _ _ stop p = (p, refl)
ThreadStep-past _ _ _ _ (go_on g) p = (p, refl)
ThreadStep-past _ _ _ _ leave_at_once p = (p, refl)
ThreadStep-past _ _ _ _ (set_state g) p = (omega arith, refl)
ThreadStep-past _ _ _ _ (write_text g) p = (p, refl)
ThreadStep-past _ _ _ _ (tell g) p = (p, refl)
ThreadStep-past _ _ _ _ (wake_up g) p = (p, refl)
ThreadStep-past _ _ _ _ (call_old g) p = (p, refl)
ThreadStep-past _ _ _ _ (leave g) p = (omega arith, refl)

CrowdStep-past :
    (a b : Crowd) (s : CrowdStep a b)
    → 1 ≤ a.state
    → (1 ≤ b.state) × (count past b.threads ≡ count past a.threads + crowd_returned_by a b s)
CrowdStep-past _ _ (one_thread front back t t' g g' e s) p =
    let k = count_at past front t back in
    let l = count_at past front t' back in
    let (state_set, same) = ThreadStep-past g t g' t' s p in (state_set, omega arith)

-- Once `handleSigState` is set, however many threads crash and whatever the order of their steps: it
-- stays set, and the number of threads that are past the tests, from the assignment's front to their
-- own exit, grows by exactly the number of times that `pause` returned: no other thread gets there as
-- long as it does not, and each return lets one through.
pub CrowdReach-past :
    (a b : Crowd) (r : CrowdReach a b)
    → 1 ≤ a.state
    → (1 ≤ b.state) × (count past b.threads ≡ count past a.threads + returns_of a b r)
unfolding returns_of
CrowdReach-past _ _ (stay c) p = (p, omega arith)
CrowdReach-past _ _ (go a b c s r) p =
    let (q, e) = CrowdStep-past a b s p in let (z, f) = CrowdReach-past b c r q in (z, omega arith)
