-- ===== src/Claims/Met.antt =====
-- What the registry holds for the action at work.
use gluamysql.Base.{
  ℕ, ◌≡◌, refl, ap, sym, subst, ◌∙◌, true, Option, none, some, List, ◌∷◌, ◌++◌, arith, [],
}
use gluamysql.Lua.{Ref, Held, ResultTable, resolver, rejecter, promise_object, table, rawgeti}
use gluamysql.Action.{Action, Promise}
use gluamysql.Machine.{State}
use gluamysql.Tick.Steps.{refs_of, table_at}
use gluamysql.Claims.{
  Claim, promise_of, rows_at, is_promise, is_table, is_met, unmet, weigh, Owned, claims_current,
  claims_dbs,
}
use gluamysql.Claims.Objects.{weigh-db}
use gluamysql.Claims.Commands.{AllOwned}
use gluamysql.Claims.Ticks.{claims_of, claims_current_lem}

module _ {N : Type 0} where
  -- The number of the promise that three entries make.
  pub record Numbered (x y z : Option (Held N)) : Type 0 where
    pub number : ℕ
    pub resolves : x ≡ some (resolver number)
    pub rejects : y ≡ some (rejecter number)
    pub is_object : z ≡ some (promise_object number)

  pub is_promise-Numbered : (x y z : Option (Held N)) → is_promise x y z ≡ true → Numbered x y z
  is_promise-Numbered (some (resolver a)) (some (rejecter b)) (some (promise_object c)) e = record {
    number = a;
    resolves = refl;
    rejects = ground arith;
    is_object = ground arith;
  }
  is_promise-Numbered _ _ _ e = cc

  pub is_table-some :
      (x : Option (Held N)) → is_table x ≡ true → (t : ResultTable N) × (x ≡ some (table t))
  is_table-some (some (table t)) e = (t, refl)
  is_table-some _ e = cc

  -- What the registry holds for an action with a table.
  pub record Holds (p : Promise) (f : Ref) (s : List (ℕ × Held N)) : Type 0 where
    pub promise : Numbered (rawgeti p.resolve s) (rawgeti p.reject s) (rawgeti p.promise s)
    pub rows : ResultTable N
    pub gathers : rawgeti f s ≡ some (table rows)

  pub Owned-Holds :
      (p : Promise) (f : Ref) (r : List (ℕ × Held N)) (cs : List Claim)
      → Owned r (promise_of p ∷ rows_at f ∷ cs)
      → Holds p f r
  Owned-Holds p f r cs o =
      let (t, e) = is_table-some (rawgeti f r) (ground (arith, o.met)) in
      record { promise = is_promise-Numbered _ _ _ (ground (arith, o.met)); rows = t; gathers = e }

some_same : {A : Type 0} {x y : A} → ◌≡◌ {A = Option A} (some x) (some y) → x ≡ y
some_same {A} {x} e = ap (λ o. elim o as (λ _. A) [ none ↦ x | some z ↦ z ]) e

module _ {C N : Type 0} (s : State C N) (o : AllOwned s) where
  current-met : weigh (unmet s.lua.registry) (claims_current s.db.current_action) ≡ 0
  current-met = omega (
    arith,
    o.met,
    weigh-db (unmet s.lua.registry) s.db (claims_dbs s.before ++ claims_dbs s.after),
  )

  pub current-Numbered :
      (p : Promise)
      → refs_of s.db.current_action ≡ some p
      → Numbered
          (rawgeti p.resolve s.lua.registry)
          (rawgeti p.reject s.lua.registry)
          (rawgeti p.promise s.lua.registry)
  current-Numbered p e = is_promise-Numbered _ _ _ (by_action s.db.current_action e current-met)
    where
      by_action :
          (x : Option Action)
          → refs_of x ≡ some p
          → weigh (unmet s.lua.registry) (claims_current x) ≡ 0
          → is_met s.lua.registry (promise_of p) ≡ true
      by_action none e m = cc
      by_action (some a) e m =
          subst (λ q. is_met s.lua.registry (promise_of q) ≡ true) (some_same e) (ground (arith, m))

  met_rows :
      (q : Promise) (f : Ref)
      → weigh (unmet s.lua.registry) (promise_of q ∷ rows_at f ∷ []) ≡ 0
      → is_table (rawgeti f s.lua.registry) ≡ true
  met_rows q f m = ground (arith, m)

  pub current-table :
      (f : Ref)
      → table_at s.db.current_action ≡ some f
      → (t : ResultTable N) × (rawgeti f s.lua.registry ≡ some (table t))
  current-table f e = is_table-some _ (by_action s.db.current_action e current-met)
    where
      by_action :
          (x : Option Action)
          → table_at x ≡ some f
          → weigh (unmet s.lua.registry) (claims_current x) ≡ 0
          → is_table (rawgeti f s.lua.registry) ≡ true
      by_action none e m = cc
      by_action (some a) e m = met_rows a.refs f (
          ap (weigh (unmet s.lua.registry))
            (sym (claims_current_lem (some a) ∙ ap (claims_of (some a.refs)) e))
          ∙ m)
