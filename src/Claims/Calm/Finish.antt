-- ===== src/Claims/Calm/Finish.antt =====
-- `Query` and `Finish` raise no Lua error of their own.
use gluamysql.Base.{
  ℕ, ◌≡◌, refl, ap, ◌∙◌, Bool, true, false, not, Option, none, some, List, ◌++◌, ◌==◌, arith,
}
use gluamysql.Lua.{
  Ref, refnil, noref, key, Held, database, weak_database, with_database, nothing, rawgeti, entry,
  is_unset,
}
use gluamysql.Host.{Host, FreshKeys}
use gluamysql.Action.{
  Action, Promise, Kind, async, querying, executing, Job, connect_action, prepare_statement,
  prepare_statement_close, auto_commit, commit_action, rollback_action, ping_action, close_action,
}
use gluamysql.Database.{push}
use gluamysql.Machine.{State, M}
use gluamysql.Async.{
  finish_job, settle, resolve_with, resolve_pushed, resolve_database, resolve_statement,
  forget_statement, put_stmts, erase_removed,
}
use gluamysql.Querying.{advance, query_query, finish_with, finish_table}
use gluamysql.Querying.Reference.{advance-data_reference}
use gluamysql.Executing.{advance_exec, query_exec}
use gluamysql.Executing.Reference.{advance_exec-reference}
use gluamysql.Tick.{query_job, query, finish}
use gluamysql.Tick.Steps.{table_of, own, adds, writes, Local-stmts, Local-lua}
use gluamysql.Claims.{is_weak, unmet, weigh, weakly, claims_ref, claims_dbs}
use gluamysql.Claims.Objects.{weigh-db}
use gluamysql.Claims.Commands.{AllOwned}
use gluamysql.Claims.Met.{current-table}
use gluamysql.Claims.Calm.{is_raised, Calm, Good, Steps-Good, Calms-reject, Calms-resolve_with}
use gluamysql.Claims.Calm.Query.{Calms-run_stage}
use gluamysql.Claims.Calm.Exec.{Calms-run_exec}

-- A connection is being made.
abbrev pub is_connect : Job → Bool
is_connect (connect_action host user passwd dbname port) = true
is_connect _ = false

abbrev pub connects : Kind → Bool
connects (async x) = is_connect x.job
connects _ = false

abbrev pub is_connecting : Option Action → Bool
is_connecting none = false
is_connecting (some a) = connects a.kind

pub table-connects : (k : Kind) (f : Ref) → table_of k ≡ some f → connects k ≡ false
table-connects (async x) f e = cc
table-connects (querying q) f e = refl
table-connects (executing x) f e = refl

module _ {C N : Type 0} (h : Host C N) (fresh : FreshKeys h) (calm : Calm h) where
  push-weak :
      (a : ℕ) (x : Option (Held N))
      → is_weak a x ≡ true
      → (b : ℕ) × (elim x as (λ _. Option (Held N)) [
        | some (weak_database c) ↦ some (database c)
        | _ ↦ none
      ]
          ≡ some (database b))
  push-weak a (some (weak_database c)) e = (c, refl)
  push-weak a _ e = cc

  push-at :
      (f : Ref) (a : ℕ) (r : List (ℕ × Held N))
      → is_unset f ≡ false
      → weigh (unmet r) (claims_ref weakly f a) ≡ 0
      → (b : ℕ) × (elim (rawgeti f r) as (λ _. Option (Held N)) [
        | some (weak_database c) ↦ some (database c)
        | _ ↦ none
      ]
          ≡ some (database b))
  unfolding rawgeti
  push-at refnil a r u m = cc
  push-at noref a r u m = cc
  push-at (key k) a r u m = push-weak a (entry k r) (ground arith)

  -- Behind the reference of a database that was not collected there is its userdata.
  push-open :
      (s : State C N)
      → AllOwned s
      → is_unset s.db.reference ≡ false
      → (b : ℕ) × (push h s.db s.lua ≡ some (database b))
  unfolding push
  push-open s o u = push-at s.db.reference s.db.address s.lua.registry u (
      omega (
        arith,
        o.met,
        weigh-db (unmet s.lua.registry) s.db (claims_dbs s.before ++ claims_dbs s.after),
      ))

  is_raised-put_stmts :
      (o : Option (List ℕ)) (s : State C N) → is_raised (put_stmts h o s).0 ≡ false
  unfolding put_stmts
  is_raised-put_stmts none s = refl
  is_raised-put_stmts (some left) s = refl

  module _ (p : Promise) where
    is_raised-settle :
        (b : Bool) (m : M C N (Unit {0})) (s : State C N)
        → Good p none s
        → is_raised (m s).0 ≡ false
        → is_raised (settle h p b m s).0 ≡ false
    unfolding settle
    is_raised-settle true m s g c = c
    is_raised-settle false m s g c = Calms-reject h fresh calm p none none s g

    is_raised-finish_job :
        (j : Job) (out : ℕ) (s : State C N)
        → Good p none s
        → (is_connect j ≡ true → is_unset s.db.reference ≡ false)
        → is_raised (finish_job h p j out s).0 ≡ false
    unfolding finish_job
    is_raised-finish_job (connect_action host user passwd dbname port) out s g u =
        let (b, e) = push-open s g.owned (u refl) in
        is_raised-settle (not (out == 0)) (resolve_database h p) s g (
          unfold resolve_database resolve_pushed in
          ap (λ o. is_raised (resolve_pushed h p o s).0) e
          ∙ Calms-resolve_with h fresh calm p none (with_database b) s g)
    is_raised-finish_job (prepare_statement stmt text) out s g u =
        is_raised-settle (out == 0) (resolve_statement h p stmt) s g (
          unfold resolve_statement in
          Calms-resolve_with h fresh calm p none _ _
            (Steps-Good h fresh calm (own (Local-stmts s _ _) (adds _ refl)) g))
    is_raised-finish_job (prepare_statement_close stmt) out s g u =
        unfold forget_statement in is_raised-put_stmts (erase_removed stmt s.db.stmts) s
    is_raised-finish_job close_action out s g u = refl
    is_raised-finish_job (auto_commit b) out s g u =
        is_raised-settle (out == 0) (resolve_with h p nothing) s g
          (Calms-resolve_with h fresh calm p none nothing s g)
    is_raised-finish_job commit_action out s g u =
        is_raised-settle (out == 0) (resolve_with h p nothing) s g
          (Calms-resolve_with h fresh calm p none nothing s g)
    is_raised-finish_job rollback_action out s g u =
        is_raised-settle (out == 0) (resolve_with h p nothing) s g
          (Calms-resolve_with h fresh calm p none nothing s g)
    is_raised-finish_job ping_action out s g u =
        is_raised-settle (out == 0) (resolve_with h p nothing) s g
          (Calms-resolve_with h fresh calm p none nothing s g)

    is_raised-finish_table :
        (f : Ref) (s : State C N) → Good p (some f) s → is_raised (finish_table h p f s).0 ≡ false
    unfolding finish_table finish_with
    is_raised-finish_table f s g =
        let (t, e) = current-table s g.owned f g.rows in
        ap (λ o. is_raised (finish_with h p f o s).0) e
        ∙ Calms-resolve_with h fresh calm p (some f) _ _
            (Steps-Good h fresh calm (own (Local-lua s _) (writes f _ g.rows refl)) g)

    pub is_raised-finish :
        (k : Kind) (s : State C N)
        → Good p (table_of k) s
        → (connects k ≡ true → is_unset s.db.reference ≡ false)
        → is_raised (finish h p k s).0 ≡ false
    unfolding finish
    is_raised-finish (async x) s g u = is_raised-finish_job x.job x.out s g u
    is_raised-finish (querying q) s g u = is_raised-finish_table q.data_reference s g
    is_raised-finish (executing x) s g u = is_raised-finish_table x.reference s g

    pub is_raised-query :
        (k : Kind) (s : State C N) → Good p (table_of k) s → is_raised (query h p k s).0 ≡ false
    unfolding query query_job query_query query_exec
    is_raised-query (async x) s g = refl
    is_raised-query (querying q) s g =
        Calms-run_stage h fresh calm p (some q.data_reference) (advance h q s.db.channel)
          (ap some (advance-data_reference h q s.db.channel)) s g
    is_raised-query (executing x) s g =
        Calms-run_exec h fresh calm p (some x.reference) (advance_exec h x s.db.channel)
          (λ y ch i. ap some (advance_exec-reference h x y s.db.channel ch i)) s g
