-- ===== src/Claims/Calm/Exec.antt =====
-- The stages of a prepared statement raise no Lua error of their own.
use gluamysql.Base.{ℕ, ◌≡◌, refl, Bool, true, false, Option, none, some, List, [], ◌∷◌, ◌==◌}
use gluamysql.Row.{Row}
use gluamysql.Lua.{Ref}
use gluamysql.Host.{Host, FreshKeys}
use gluamysql.Action.{
  Promise, executing, Exec, ExecStage, at_execute, at_rows, at_free_results, at_free_statement,
  ResultData,
}
use gluamysql.Database.{Channel}
use gluamysql.Machine.{State, ◌>>◌, pure}
use gluamysql.Async.{reject}
use gluamysql.Executing.{
  truncated_message, no_data, data_truncated, store_exec, exec_of, reject_stmt, have_metadata,
  executed, execute_finish, append_made, append_result, append_results, fetch_outcome, fetch_finish,
  finish_exec_stage, rewind_of, rewind_exec, end_stage, conclude_exec, run_exec,
}
use gluamysql.Tick.Steps.{own, nothing_new, Local-channel}
use gluamysql.Tick.Asking.{Runs-store}
use gluamysql.Tick.Runs.{
  Runs-reject_stmt, Runs-store_exec, Runs-append_made, Runs-fetch_outcome, Runs-finish_exec_stage,
  Runs-rewind_of,
}
use gluamysql.Claims.Calm.{is_raised, Calm, Steps-Good, Calms, Calms-bind, Calms-if, Calms-reject}
use gluamysql.Claims.Calm.Query.{Calms-append_row}

module _ {C N : Type 0} (h : Host C N) (fresh : FreshKeys h) (calm : Calm h) (p : Promise)
    (ref : Option Ref) where
  Calms-reject_stmt : (x : Exec) → Calms h fresh calm p ref (reject_stmt h p x)
  unfolding reject_stmt
  Calms-reject_stmt x s =
      Calms-reject h fresh calm p ref (some (h.stmt_error x.stmt s.db.instance)) s

  Calms-have_metadata : (x : Exec) (m : ℕ) → Calms h fresh calm p ref (have_metadata h x m)
  unfolding have_metadata
  Calms-have_metadata x m =
      Calms-if h fresh calm p ref (m == 0) (pure true) _ (λ s g. refl) (λ s g. refl)

  Calms-append_made :
      (f : Ref) (o : Option (Row N)) → some f ≡ ref → Calms h fresh calm p ref (append_made h f o)
  unfolding append_made
  Calms-append_made f none w = λ s g. refl
  Calms-append_made f (some row) w = Calms-append_row h fresh calm p ref f row w

  Calms-append_results :
      (f : Ref) (ds : List ResultData)
      → some f ≡ ref
      → Calms h fresh calm p ref (append_results h f ds)
  unfolding append_results append_result
  Calms-append_results f [] w = λ s g. refl
  Calms-append_results f (d ∷ rest) w =
      Calms-bind h fresh calm p ref (append_result h f d) (λ _. append_results h f rest)
        (λ s. Runs-append_made h ref f _ w s) (λ s. Calms-append_made f _ w s)
        (λ _. Calms-append_results f rest w)

  module _ (x : Exec) (w : some x.reference ≡ ref) where
    Calms-executed : Calms h fresh calm p ref (executed h p x)
    unfolding executed
    Calms-executed =
        Calms-if h fresh calm p ref (x.out == 0) _ (do reject_stmt h p x; pure true)
          (λ s g.
            Calms-have_metadata x _ _
              (Steps-Good h fresh calm (own (Local-channel s _) (nothing_new refl)) g))
          (Calms-bind h fresh calm p ref (reject_stmt h p x) (λ _. pure true)
            (Runs-reject_stmt h ref x w p) (Calms-reject_stmt x) (λ _ s g. refl))

    Calms-fetch_outcome : Calms h fresh calm p ref (fetch_outcome h p x)
    unfolding fetch_outcome
    Calms-fetch_outcome =
        Calms-if h fresh calm p ref (x.out == data_truncated) (reject h p (some truncated_message))
          _ (Calms-reject h fresh calm p ref (some truncated_message))
          (Calms-if h fresh calm p ref (x.out == no_data)
            (append_results h x.reference x.resultdata) (reject_stmt h p x)
            (Calms-append_results x.reference x.resultdata w) (Calms-reject_stmt x))

  module _ (x : Exec) (w : some x.reference ≡ ref) where
    Calms-execute_finish : Calms h fresh calm p ref (execute_finish h p x)
    unfolding execute_finish
    Calms-execute_finish =
        let y : Exec = record x { in_thread = false } in
        Calms-bind h fresh calm p ref (store_exec h y) (λ _. executed h p y)
          (Runs-store_exec h ref y w) (λ s g. refl) (λ _. Calms-executed y w)

    Calms-fetch_finish : Calms h fresh calm p ref (fetch_finish h p x)
    unfolding fetch_finish
    Calms-fetch_finish =
        let y : Exec = record x { in_thread = false } in
        let z : Exec = record x { in_thread = false; stage = at_free_results } in
        Calms-bind h fresh calm p ref (store_exec h y)
          (λ _. do fetch_outcome h p x; store_exec h z; pure false) (Runs-store_exec h ref y w)
          (λ s g. refl)
          (λ _.
            Calms-bind h fresh calm p ref (fetch_outcome h p x) (λ _. do store_exec h z; pure false)
              (Runs-fetch_outcome h ref x w p) (Calms-fetch_outcome x w) (λ _ s g. refl))

    Calms-finish_exec_stage :
        (st : ExecStage) → Calms h fresh calm p ref (finish_exec_stage h p x st)
    unfolding finish_exec_stage
    Calms-finish_exec_stage at_execute = Calms-execute_finish
    Calms-finish_exec_stage at_rows = Calms-fetch_finish
    Calms-finish_exec_stage at_free_results = λ s g. refl
    Calms-finish_exec_stage at_free_statement = λ s g. refl

  Calms-rewind_of : (o : Option Exec) (s : State C N) → is_raised (rewind_of h o s).0 ≡ false
  unfolding rewind_of
  Calms-rewind_of none s = refl
  Calms-rewind_of (some x) s = refl

  Calms-end_stage : (over : Bool) → Calms h fresh calm p ref (end_stage h over)
  unfolding end_stage rewind_exec
  Calms-end_stage over =
      Calms-bind h fresh calm p ref (rewind_exec h) (λ _. pure over)
        (λ s e. Runs-rewind_of h ref (exec_of s.db.current_action) s refl e)
        (λ s g. Calms-rewind_of (exec_of s.db.current_action) s) (λ _ s g. refl)

  Calms-conclude_exec :
      (x : Exec) → some x.reference ≡ ref → Calms h fresh calm p ref (conclude_exec h p x)
  unfolding conclude_exec
  Calms-conclude_exec x w =
      Calms-bind h fresh calm p ref (finish_exec_stage h p x x.stage) (end_stage h)
        (Runs-finish_exec_stage h ref x w p x.stage) (Calms-finish_exec_stage x w x.stage)
        Calms-end_stage

  pub Calms-run_exec :
      (o : Option (Exec × Channel C))
      → ((x : Exec) (ch : Channel C) → o ≡ some (x, ch) → some x.reference ≡ ref)
      → Calms h fresh calm p ref (run_exec h p o)
  unfolding run_exec
  Calms-run_exec none w s g = refl
  Calms-run_exec (some (x, ch)) w s g =
      let y = Runs-store h ref (executing x) ch s (w x ch refl) g.rows in
      Calms-if h fresh calm p ref (ch.socket_state == 0) (conclude_exec h p x) (pure false)
        (Calms-conclude_exec x (w x ch refl)) (λ t k. refl) _ (Steps-Good h fresh calm y g)
