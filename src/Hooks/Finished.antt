-- ===== src/Hooks/Finished.antt =====
-- What the loop of the shutdown hook leaves for the second loop.
use gluamysql.Base.{◌==◌, ℕ, zero, suc, ◌≡◌, refl, Bool, true, false, List, [], ◌∷◌, ◌++◌, length}
use gluamysql.Lua.{Lua}
use gluamysql.Host.{Host}
use gluamysql.Database.{Db}
use gluamysql.Tick.{run_tick}
use gluamysql.Machine.{State, Outcome, done, raised, undefined}
use gluamysql.Hooks.{has_work, Pass, pass_from, tick_hook_tick}
use gluamysql.Hooks.Cases.{both_ways, outcome_ways}
use gluamysql.Hooks.Shutdown.{AllIdle}

-- The hook was left by its end, with nothing to do.
abbrev pub is_ready : Outcome Bool → Bool
is_ready (done b) = b
is_ready raised = false
is_ready undefined = false

pub record IsReady {C N : Type 0} (p : Pass C N) : Type 0 where
  pub is_true : is_ready p.outcome ≡ true

record IsUnready {C N : Type 0} (p : Pass C N) : Type 0 where
  is_false : is_ready p.outcome ≡ false

module _ {C N : Type 0} where
  contrary : {Q : Type 0} {p : Pass C N} → IsUnready p → IsReady p → Q
  contrary u r = absurd cc (u.is_false, r.is_true)

  -- A pass that is ready took the second of the two ways, since the first is never ready.
  second_way :
      (w : Bool) (x y : Pass C N)
      → IsUnready x
      → IsReady (elim w as (λ _. Pass C N) [ true ↦ x | false ↦ y ])
      → (w ≡ false) × IsReady y
  second_way true x y p q = contrary p q
  second_way false x y p q = (refl, q)

  either_way :
      {Q : Type 0} (w : Bool) (x y : Pass C N)
      → (IsReady x → Q)
      → (IsReady y → Q)
      → IsReady (elim w as (λ _. Pass C N) [ true ↦ x | false ↦ y ])
      → Q
  either_way true x y f g r = f r
  either_way false x y f g r = g r

module _ {C N : Type 0} (h : Host C N) (cleaned : Bool) where
  abbrev pub left : Outcome Bool → State C N → Pass C N
  left o s = record { outcome = o; dbs = s.before ++ s.db ∷ s.after; lua = s.lua }

  abbrev ticked : List (Db C) → Db C → List (Db C) → Lua N → Outcome (Unit {0}) × State C N
  ticked before d ds l =
      run_tick h (record { db = d; before = before; after = ds; lua = l; cleaned = cleaned })

  abbrev pub on : ℕ → State C N → Pass C N
  on n s = pass_from h cleaned n (s.before ++ s.db ∷ []) s.after s.lua true

  abbrev pub worked : ℕ → List (Db C) → Outcome (Unit {0}) × State C N → Pass C N
  worked n ds (r, s) = elim r [
    | done _ ↦ elim (length s.after == length ds) [ true ↦ on n s | false ↦ left undefined s ]
    | raised ↦ left raised s
    | undefined ↦ left undefined s
  ]

  worked-IsUnready :
      (n : ℕ) (ds : List (Db C)) (x : Outcome (Unit {0}) × State C N)
      → IsUnready (on n x.1)
      → IsUnready (worked n ds x)
  worked-IsUnready n ds (r, s) p =
      outcome_ways IsUnready r (length s.after == length ds) (on n s) (left undefined s)
        (left raised s) (left undefined s) p (record { is_false = refl })
        (record { is_false = refl }) (record { is_false = refl })

  abbrev unworked : ℕ → List (Db C) → Db C → List (Db C) → Lua N → Bool → Pass C N
  unworked n before d ds l u = elim d.gced [
    | true ↦ pass_from h cleaned n before ds l u
    | false ↦ pass_from h cleaned n (before ++ d ∷ []) ds l u
  ]

  pass_from-IsUnready :
      (n : ℕ) (before ds : List (Db C)) (l : Lua N)
      → IsUnready (pass_from h cleaned n before ds l true)
  unfolding pass_from
  pass_from-IsUnready zero before ds l = record { is_false = refl }
  pass_from-IsUnready (suc n) before [] l = record { is_false = refl }
  pass_from-IsUnready (suc n) before (d ∷ ds) l =
      both_ways IsUnready (has_work d) (worked n ds (ticked before d ds l))
        (unworked n before d ds l true)
        (worked-IsUnready n ds (ticked before d ds l) (pass_from-IsUnready n _ _ _))
        (both_ways IsUnready d.gced (pass_from h cleaned n before ds l true)
          (pass_from h cleaned n (before ++ d ∷ []) ds l true) (pass_from-IsUnready n before ds l)
          (pass_from-IsUnready n (before ++ d ∷ []) ds l))

  pass_from-AllIdle :
      (before ds : List (Db C)) (l : Lua N)
      → IsReady (pass_from h cleaned (length ds) before ds l false)
      → AllIdle ds
  unfolding pass_from
  pass_from-AllIdle before [] l r = tt
  pass_from-AllIdle before (d ∷ ds) l r =
      let (e, r') =
        second_way (has_work d) (worked (length ds) ds (ticked before d ds l))
          (unworked (length ds) before d ds l false)
          (worked-IsUnready (length ds) ds (ticked before d ds l)
            (pass_from-IsUnready (length ds) _ _ _))
          r in
      (
        e,
        either_way d.gced (pass_from h cleaned (length ds) before ds l false)
            (pass_from h cleaned (length ds) (before ++ d ∷ []) ds l false)
            (pass_from-AllIdle before ds l) (pass_from-AllIdle (before ++ d ∷ []) ds l) r',
      )

  -- A pass is ready only if no database had work to do.
  pub tick_hook_tick-AllIdle :
      (ds : List (Db C)) (l : Lua N) → IsReady (tick_hook_tick h cleaned ds l) → AllIdle ds
  unfolding tick_hook_tick
  tick_hook_tick-AllIdle ds l r = pass_from-AllIdle [] ds l r
