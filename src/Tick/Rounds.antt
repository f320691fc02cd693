-- ===== src/Tick/Rounds.antt =====
-- The loop of `RunTick` runs its body once.
use gluamysql.Base.{ℕ, suc, ◌≡◌, refl, Bool, true, false, Option, none, some, arith, if_elim}
use gluamysql.Host.{Host}
use gluamysql.Action.{Action}
use gluamysql.Machine.{State, Outcome, done, raised, undefined, M, ◌>>=◌, ◌>>◌, pure}
use gluamysql.Tick.{
  do_finish, free_of, free_current, next_action, work, end_action, test_current, round, go_on,
  run_loop, query,
}

-- The body ended without `break` only with no action at work.
abbrev Resets : {C N : Type 0} → Outcome Bool × State C N → Type 0
Resets (r, s) = r ≡ done true → s.db.current_action ≡ none

module _ {C N : Type 0} (h : Host C N) where
  bind-Resets :
      {A : Type 0} (f : A → M C N Bool) (t : State C N) (r : Outcome A)
      → ((a : A) (s : State C N) → Resets (f a s))
      → Resets (elim r as (λ x. Outcome Bool × State C N) [
        | done a ↦ f a t
        | raised ↦ (raised, t)
        | undefined ↦ (undefined, t)
      ])
  bind-Resets f t (done a) k = k a t
  bind-Resets f t raised k = λ e. cc
  bind-Resets f t undefined k = λ e. cc

  free_of-Resets : (o : Option Action) (s : State C N) → Resets ((do free_of h o; pure true) s)
  unfolding free_of
  free_of-Resets none s e = cc
  free_of-Resets (some a) s e = refl

  freed-Resets : (s : State C N) → Resets ((do free_current h; pure true) s)
  unfolding free_current
  freed-Resets s = free_of-Resets s.db.current_action s

  end_action-Resets : (over : Bool) (s : State C N) → Resets (end_action h over s)
  unfolding end_action
  end_action-Resets true s =
      bind-Resets (λ _. do free_current h; pure true) (do_finish h s).1 (do_finish h s).0
        (λ _. freed-Resets)
  end_action-Resets false s = λ e. cc

  work-Resets : (o : Option Action) (s : State C N) → Resets (work h o s)
  unfolding work
  work-Resets none s = λ e. cc
  work-Resets (some a) s =
      if_elim (λ (m : M C N Bool). Resets (m s)) a.has_finished (λ _. freed-Resets s)
        (λ _.
          bind-Resets (end_action h) (query h a.refs a.kind s).1 (query h a.refs a.kind s).0
            end_action-Resets)

  abbrev NeverTrue : Outcome Bool × State C N → Type 0
  NeverTrue x = ¬ (x.0 ≡ done true)

  test_after :
      (r : Outcome Bool) (t : State C N)
      → Resets (r, t)
      → NeverTrue (elim r as (λ x. Outcome Bool × State C N) [
        | done a ↦ test_current h a t
        | raised ↦ (raised, t)
        | undefined ↦ (undefined, t)
      ])
  unfolding test_current
  test_after (done true) t k e = ground (arith, k refl)
  test_after (done false) t k e = cc
  test_after raised t k e = cc
  test_after undefined t k e = cc

  round-once :
      (r : Outcome (Option Action)) (t : State C N)
      → NeverTrue (elim r as (λ x. Outcome Bool × State C N) [
        | done a ↦ (do more ← work h a; test_current h more) t
        | raised ↦ (raised, t)
        | undefined ↦ (undefined, t)
      ])
  round-once (done a) t = test_after (work h a t).0 (work h a t).1 (work-Resets a t)
  round-once raised t = λ e. cc
  round-once undefined t = λ e. cc

  go_on-any :
      (m k : M C N (Unit {0})) (r : Outcome Bool) (t : State C N)
      → ¬ (r ≡ done true)
      → (elim r as (λ x. Outcome (Unit {0}) × State C N) [
        | done a ↦ go_on h m a t
        | raised ↦ (raised, t)
        | undefined ↦ (undefined, t)
      ])
        ≡ (elim r as (λ x. Outcome (Unit {0}) × State C N) [
          | done a ↦ go_on h k a t
          | raised ↦ (raised, t)
          | undefined ↦ (undefined, t)
        ])
  unfolding go_on
  go_on-any m k (done true) t n = absurd (n refl)
  go_on-any m k (done false) t n = refl
  go_on-any m k raised t n = refl
  go_on-any m k undefined t n = refl

  -- With any positive number of rounds the loop does what it does with one: the body is never run
  -- twice in a tick, since the loop's condition tests the pointer that the body has just reset.
  pub run_loop-once : (n : ℕ) (s : State C N) → run_loop h (suc n) s ≡ run_loop h 1 s
  unfolding run_loop round
  run_loop-once n s =
      go_on-any (run_loop h n) (pure tt) (round h s).0 (round h s).1
        (round-once (next_action h s).0 (next_action h s).1)
