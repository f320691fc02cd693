-- ===== src/Hooks/Cases.antt =====
-- What holds of a pass whichever way it took.
use gluamysql.Base.{Bool, true, false}
use gluamysql.Machine.{Outcome, done, raised, undefined}
use gluamysql.Hooks.{Pass}

module _ {C N : Type 0} (P : Pass C N → Type 0) where
  pub both_ways :
      (w : Bool) (x y : Pass C N)
      → P x
      → P y
      → P (elim w as (λ _. Pass C N) [ true ↦ x | false ↦ y ])
  both_ways true x y p q = p
  both_ways false x y p q = q

  pub outcome_ways :
      (r : Outcome (Unit {0})) (w : Bool) (x y z v : Pass C N)
      → P x
      → P y
      → P z
      → P v
      → P (elim r as (λ _. Pass C N) [
        | done _ ↦ elim w as (λ _. Pass C N) [ true ↦ x | false ↦ y ]
        | raised ↦ z
        | undefined ↦ v
      ])
  outcome_ways (done _) w x y z v p q a b = both_ways w x y p q
  outcome_ways raised w x y z v p q a b = a
  outcome_ways undefined w x y z v p q a b = b
