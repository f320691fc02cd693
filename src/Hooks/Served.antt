-- ===== src/Hooks/Served.antt =====
-- What becomes of the actions of a database in any state that the module can get into, if the client does
-- its part.
use gluamysql.Base.{ℕ, ◌≡◌, refl, ap, sym, ◌∙◌, none, some, List, [], ◌∷◌, ◌++◌, arith}
use gluamysql.Row.{Row}
use gluamysql.Lua.{Event, Ref, ResultTable, promise_object, table, rawgeti}
use gluamysql.Host.{Host, FreshKeys, Reaction}
use gluamysql.Action.{Promise, Kind, Query, Exec, querying, executing}
use gluamysql.Database.{Db, Channel}
use gluamysql.Machine.{State}
use gluamysql.Machine.Quiet.{Quiet}
use gluamysql.Claims.{promise_of, rows_at, weigh, claims_kind, claims_db, claims_dbs}
use gluamysql.Claims.Laws.{weigh-append, weigh-moved, Owned-same}
use gluamysql.Claims.Objects.{weigh-db}
use gluamysql.Claims.Commands.{AllOwned, weigh-dbs}
use gluamysql.Claims.Met.{Holds, Owned-Holds}
use gluamysql.Hooks.Reach.{Reachable, with_react}
use gluamysql.Hooks.Owned.{Reachable-Owned}
use gluamysql.Tick.Busy.{at_work, Gathered}
use gluamysql.Tick.Fails.{working}
use gluamysql.Tick.Executes.{running}
use gluamysql.Tick.Serving.{on_channel}
use gluamysql.Tick.Drain.{ticks}
use gluamysql.Tick.Gathers
use gluamysql.Tick.Executed

-- All open databases of a state in which one is at work.
abbrev pub open_databases : {C N : Type 0} → State C N → List (Db C)
open_databases s = s.before ++ s.db ∷ s.after

module _ {C N : Type 0} (h : Host C N) (fresh : FreshKeys h) where
  pub Reachable-AllOwned : (s : State C N) → Reachable h (open_databases s) s.lua → AllOwned s
  Reachable-AllOwned s r =
      Owned-same (claims_db s.db ++ (claims_dbs s.before ++ claims_dbs s.after))
        (Reachable-Owned h fresh r)
        (λ w.
          weigh-dbs w s.before (s.db ∷ s.after)
          ∙ sym (weigh-append w (claims_dbs s.before) (claims_dbs (s.db ∷ s.after)))
          ∙ weigh-moved w (claims_dbs s.before) (claims_db s.db) (claims_dbs s.after))

  Reachable-Holds :
      (p : Promise) (k : Kind) (f : Ref) (s : State C N)
      → claims_kind k ≡ rows_at f ∷ []
      → Reachable h (open_databases (at_work p k s)) s.lua
      → Holds p f s.lua.registry
  Reachable-Holds p k f s e r =
      let others = claims_dbs s.before ++ claims_dbs s.after in
      let d : Db C = record s.db { current_action = none } in
      Owned-Holds p f s.lua.registry (claims_db d ++ others) (
        Owned-same (promise_of p ∷ rows_at f ∷ (claims_db d ++ others))
          (Reachable-AllOwned (at_work p k s) r)
          (λ w.
            omega
              (arith, weigh-db w (at_work p k s).db others, weigh-db w d others, ap (weigh w) e)))

module _ {C N : Type 0} (h : Host C N) (fresh : FreshKeys h) (quiet : Quiet h) where
  -- The promise behind an action's object was resolved once, with these rows behind those that were
  -- there.
  pub record Resolved (p : Promise) (f : Ref) (k : ℕ) (rows : List (Row N)) (c : C)
      (s t : State C N) : Type 0 where
    pub number : ℕ
    pub before : ResultTable N
    pub is_object : rawgeti p.promise s.lua.registry ≡ some (promise_object number)
    pub gathers : rawgeti f s.lua.registry ≡ some (table before)
    pub in_the_end :
        Gathered h quiet number c (record before { rows = before.rows ++ rows }) s (ticks h k t)

  -- In any state that the module can get into, whatever Lua code did before, with a query at work that
  -- has not finished: if the client answers the query with rows, however often it wants to be asked
  -- again meanwhile, and from then on Lua code asks nothing of the module and raises no error, then
  -- after that many ticks the promise of the query has been resolved once, with the table of its rows,
  -- these rows behind those that it had; the action is freed. `luaL_ref` picks keys that are not in use.
  pub working-Resolved :
      (past : List (Event N) → Reaction) (p : Promise) (q : Query) (s : State C N) {ch : Channel C}
      {k : ℕ} {rows : List (Row N)} {c : C}
      → Reachable (with_react h past) (open_databases (working p q (on_channel ch s))) s.lua
      → Gathers.Succeeds h q ch k rows c
      → Resolved p q.data_reference k rows c s (working p q (on_channel ch s))
  working-Resolved past p q s {ch} {k} {rows} {c} r w =
      let o =
        Reachable-Holds (with_react h past) fresh p (querying q) q.data_reference (on_channel ch s)
          refl r in
      record {
        number = o.promise.number;
        before = o.rows;
        is_object = o.promise.is_object;
        gathers = o.gathers;
        in_the_end =
            Gathers.ticks-Gathered h quiet p q o.promise.number o.rows s w o.promise.resolves
              o.gathers;
      }

  -- In any state that the module can get into, whatever Lua code did before, with a prepared statement
  -- that is being executed and has not finished: if the client's calls and the threads of the statement
  -- succeed, and from then on Lua code asks nothing of the module and raises no error, then after that
  -- many ticks the promise of the statement has been resolved once, with the table of its rows, these
  -- rows behind those that it had; the action is freed. `luaL_ref` picks keys that are not in use.
  pub running-Resolved :
      (past : List (Event N) → Reaction) (p : Promise) (x : Exec) (s : State C N) {ch : Channel C}
      {k : ℕ} {rows : List (Row N)} {c : C}
      → Reachable (with_react h past) (open_databases (running p x (on_channel ch s))) s.lua
      → Executed.Succeeds h x ch k rows c
      → Resolved p x.reference k rows c s (running p x (on_channel ch s))
  running-Resolved past p x s {ch} {k} {rows} {c} r w =
      let o =
        Reachable-Holds (with_react h past) fresh p (executing x) x.reference (on_channel ch s) refl
          r in
      record {
        number = o.promise.number;
        before = o.rows;
        is_object = o.promise.is_object;
        gathers = o.gathers;
        in_the_end =
            Executed.ticks-Executed h quiet p x o.promise.number o.rows s w o.promise.resolves
              o.gathers;
      }
