-- ===== src/Tick/Runs.antt =====
-- `Query` and `Finish` of every class of actions, cut into steps.
use gluamysql.Querying.Reference.{advance-data_reference}
use gluamysql.Executing.Reference.{advance_exec-reference}
use gluamysql.Base.{
  ◌≡◌, refl, ap, sym, ◌∙◌, ◌==◌, ℕ, Bool, true, false, Option, none, some, List, [], ◌∷◌,
}
use gluamysql.Row.{Row}
use gluamysql.Lua.{Ref, Held, table, rawgeti}
use gluamysql.Host.{Host}
use gluamysql.Action.{
  Action, Promise, Kind, async, querying, executing, Exec, ExecStage, at_execute, at_rows,
  at_free_results, at_free_statement, ResultData,
}
use gluamysql.Database.{Channel}
use gluamysql.Machine.{State, ◌>>◌, pure}
use gluamysql.Async.{reject}
use gluamysql.Querying.{append_row, advance, query_query, finish_with, finish_table}
use gluamysql.Executing.{
  truncated_message, no_data, data_truncated, store_exec, exec_of, reject_stmt, have_metadata,
  executed, execute_finish, append_made, append_result, append_results, fetch_outcome, fetch_finish,
  finish_exec_stage, rewind_of, rewind_exec, end_stage, conclude_exec, run_exec, query_exec,
  advance_exec,
}
use gluamysql.Tick.{query_job, query, finish}
use gluamysql.Tick.Asking.{Runs-store, Runs-append_to, Runs-run_stage}
use gluamysql.Tick.Steps.{
  own, then_, Local-lua, Local-channel, Steps, nothing_new, writes, table_of, table_at, Steps-table,
  Runs, idle, Runs-bind, Runs-if, Runs-pure, Runs-reject, Runs-resolve_with, Runs-finish_job,
}

table_at-exec_of :
    (o : Option Action) (x : Exec) → exec_of o ≡ some x → table_at o ≡ some x.reference
unfolding exec_of
table_at-exec_of none x e = cc
table_at-exec_of (some a) x e = by_kind a.kind e
  where
    by_kind :
        (k : Kind)
        → elim k as (λ _. Option Exec) [ executing y ↦ some y | async _ ↦ none | querying _ ↦ none ]
          ≡ some x
        → table_of k ≡ some x.reference
    by_kind (executing y) e =
        ap (λ o. elim o as (λ _. Option Ref) [ none ↦ none | some z ↦ some z.reference ]) e
    by_kind (async y) e = cc
    by_kind (querying y) e = cc

module _ {C N : Type 0} (h : Host C N) (ref : Option Ref) where
  module _ (x : Exec) (w : some x.reference ≡ ref) where
    pub Runs-reject_stmt : (p : Promise) → Runs h ref (reject_stmt h p x)
    unfolding reject_stmt
    Runs-reject_stmt p s = Runs-reject h ref p (some (h.stmt_error x.stmt s.db.instance)) s

    pub Runs-store_exec : Runs h ref (store_exec h x)
    Runs-store_exec s e = Runs-store h ref (executing x) s.db.channel s w e

    pub Runs-stored : (b : Bool) → Runs h ref (do store_exec h x; pure b)
    Runs-stored b =
        Runs-bind h ref (store_exec h x) (λ _. pure b) Runs-store_exec (λ _. Runs-pure h ref b)

  module _ (x : Exec) (w : some x.reference ≡ ref) where
    pub Runs-have_metadata : (m : ℕ) → Runs h ref (have_metadata h x m)
    unfolding have_metadata
    Runs-have_metadata m =
        Runs-if h ref (m == 0) (pure true) _ (Runs-pure h ref true)
          (Runs-stored (record x { stage = at_rows }) w false)

    pub Runs-executed : (p : Promise) → Runs h ref (executed h p x)
    unfolding executed
    Runs-executed p =
        Runs-if h ref (x.out == 0) _ (do reject_stmt h p x; pure true)
          (λ s e. then_ (own (Local-channel s _) (nothing_new refl)) (Runs-have_metadata _ _ e))
          (Runs-bind h ref (reject_stmt h p x) (λ _. pure true) (Runs-reject_stmt x w p)
            (λ _. Runs-pure h ref true))

  pub Runs-append_made :
      (f : Ref) (o : Option (Row N)) → some f ≡ ref → Runs h ref (append_made h f o)
  unfolding append_made append_row
  Runs-append_made f none w s e = idle h ref s
  Runs-append_made f (some row) w s e = Runs-append_to h ref f row (rawgeti f s.lua.registry) w s e

  pub Runs-append_results :
      (f : Ref) (ds : List ResultData) → some f ≡ ref → Runs h ref (append_results h f ds)
  unfolding append_results append_result
  Runs-append_results f [] w = Runs-pure h ref tt
  Runs-append_results f (d ∷ rest) w =
      Runs-bind h ref (append_result h f d) (λ _. append_results h f rest)
        (λ s. Runs-append_made f _ w s) (λ _. Runs-append_results f rest w)

  module _ (x : Exec) (w : some x.reference ≡ ref) where
    Runs-execute_finish : (p : Promise) → Runs h ref (execute_finish h p x)
    unfolding execute_finish
    Runs-execute_finish p =
        let x' : Exec = record x { in_thread = false } in
        Runs-bind h ref (store_exec h x') (λ _. executed h p x') (Runs-store_exec x' w)
          (λ _. Runs-executed x' w p)

    pub Runs-fetch_outcome : (p : Promise) → Runs h ref (fetch_outcome h p x)
    unfolding fetch_outcome
    Runs-fetch_outcome p =
        Runs-if h ref (x.out == data_truncated) (reject h p (some truncated_message)) _
          (Runs-reject h ref p (some truncated_message))
          (Runs-if h ref (x.out == no_data) (append_results h x.reference x.resultdata)
            (reject_stmt h p x) (Runs-append_results x.reference x.resultdata w)
            (Runs-reject_stmt x w p))

    Runs-fetch_finish : (p : Promise) → Runs h ref (fetch_finish h p x)
    unfolding fetch_finish
    Runs-fetch_finish p =
        let x1 : Exec = record x { in_thread = false } in
        let x2 : Exec = record x { in_thread = false; stage = at_free_results } in
        Runs-bind h ref (store_exec h x1) (λ _. do fetch_outcome h p x; store_exec h x2; pure false)
          (Runs-store_exec x1 w)
          (λ _.
            Runs-bind h ref (fetch_outcome h p x) (λ _. do store_exec h x2; pure false)
              (Runs-fetch_outcome p) (λ _. Runs-stored x2 w false))

    pub Runs-finish_exec_stage :
        (p : Promise) (st : ExecStage) → Runs h ref (finish_exec_stage h p x st)
    unfolding finish_exec_stage
    Runs-finish_exec_stage p at_execute = Runs-execute_finish p
    Runs-finish_exec_stage p at_rows = Runs-fetch_finish p
    Runs-finish_exec_stage p at_free_results =
        Runs-stored (record x { stage = at_free_statement }) w false
    Runs-finish_exec_stage p at_free_statement = Runs-pure h ref true

  pub Runs-rewind_of :
      (o : Option Exec) (s : State C N)
      → exec_of s.db.current_action ≡ o
      → table_at s.db.current_action ≡ ref
      → Steps h s (rewind_of h o s).1
  unfolding rewind_of
  Runs-rewind_of none s i e = idle h ref s
  Runs-rewind_of (some x) s i e =
      Runs-store_exec (record x { started = false })
        (sym (table_at-exec_of s.db.current_action x i) ∙ e) s e

  pub Runs-end_stage : (over : Bool) → Runs h ref (end_stage h over)
  unfolding end_stage rewind_exec
  Runs-end_stage over =
      Runs-bind h ref (rewind_exec h) (λ _. pure over)
        (λ s e. Runs-rewind_of (exec_of s.db.current_action) s refl e) (λ _. Runs-pure h ref over)

  pub Runs-conclude_exec :
      (p : Promise) (x : Exec) → some x.reference ≡ ref → Runs h ref (conclude_exec h p x)
  unfolding conclude_exec
  Runs-conclude_exec p x w =
      Runs-bind h ref (finish_exec_stage h p x x.stage) (end_stage h)
        (Runs-finish_exec_stage x w p x.stage) Runs-end_stage

  Runs-run_exec :
      (p : Promise) (o : Option (Exec × Channel C))
      → ((x : Exec) (ch : Channel C) → o ≡ some (x, ch) → some x.reference ≡ ref)
      → Runs h ref (run_exec h p o)
  unfolding run_exec
  Runs-run_exec p none w s e = idle h ref s
  Runs-run_exec p (some (x, ch)) w s e =
      let y = Runs-store h ref (executing x) ch s (w x ch refl) e in
      then_ y (
        Runs-if h ref (ch.socket_state == 0) (conclude_exec h p x) (pure false)
          (Runs-conclude_exec p x (w x ch refl)) (Runs-pure h ref false) _ (Steps-table h y ∙ e))

module _ {C N : Type 0} (h : Host C N) where
  pub Runs-query : (p : Promise) (k : Kind) → Runs h (table_of k) (query h p k)
  unfolding query query_job
  Runs-query p (async x) s e = Runs-store h none (async _) _ s refl e
  Runs-query p (querying q) s e =
      unfold query_query in
      Runs-run_stage h (some q.data_reference) p (advance h q s.db.channel)
        (ap some (advance-data_reference h q s.db.channel)) s e
  Runs-query p (executing x) s e =
      unfold query_exec in
      Runs-run_exec h (some x.reference) p (advance_exec h x s.db.channel)
        (λ y ch i. ap some (advance_exec-reference h x y s.db.channel ch i)) s e

  Runs-finish_with :
      (p : Promise) (ref : Ref) (o : Option (Held N)) → Runs h (some ref) (finish_with h p ref o)
  unfolding finish_with
  Runs-finish_with p ref (some (table t)) s e =
      then_ (own (Local-lua s _) (writes ref _ e refl)) (Runs-resolve_with h (some ref) p _ _ e)
  Runs-finish_with p ref _ s e = idle h (some ref) s

  pub Runs-finish : (p : Promise) (k : Kind) → Runs h (table_of k) (finish h p k)
  unfolding finish finish_table
  Runs-finish p (async x) s = Runs-finish_job h none p x.job x.out s
  Runs-finish p (querying q) s = Runs-finish_with p q.data_reference _ s
  Runs-finish p (executing x) s = Runs-finish_with p x.reference _ s
