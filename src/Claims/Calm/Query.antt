-- ===== src/Claims/Calm/Query.antt =====
-- The stages of a query raise no Lua error of their own.
use gluamysql.Base.{
  ℕ, ◌≡◌, refl, ap, sym, ◌∙◌, Bool, true, false, Option, none, some, ◌==◌, if◌then◌else◌, if_elim,
}
use gluamysql.Row.{Row}
use gluamysql.Lua.{Ref, rawgeti}
use gluamysql.Host.{Host, FreshKeys}
use gluamysql.Action.{Promise, querying, Query, Stage, at_query, at_fetch, at_free}
use gluamysql.Database.{Channel}
use gluamysql.Machine.{State, M, ◌>>◌, pure}
use gluamysql.Async.{reject}
use gluamysql.Querying.{
  query_of, have_result, finish_query, append_to, append_row, push_made, push_fetched, end_of_rows,
  finish_fetch, finish_stage, note_retry, note_query, note_lost, rewind_query, rewind, after_stage,
  conclude, run_stage,
}
use gluamysql.Tick.Steps.{own, nothing_new, Local-channel, Runs, Runs-if, Runs-pure, Runs-reject}
use gluamysql.Tick.Asking.{Runs-store, Runs-append_to, Runs-finish_stage, Runs-rewind}
use gluamysql.Claims.Met.{current-table}
use gluamysql.Claims.Calm.{is_raised, Calm, Steps-Good, Calms, Calms-bind, Calms-if, Calms-reject}

module _ {C N : Type 0} (h : Host C N) (fresh : FreshKeys h) (calm : Calm h) (p : Promise)
    (ref : Option Ref) where
  pub Calms-append_row :
      (f : Ref) (row : Row N) → some f ≡ ref → Calms h fresh calm p ref (append_row h f row)
  unfolding append_row append_to
  Calms-append_row f row w s g =
      let (t, e) = current-table s g.owned f (g.rows ∙ sym w) in
      ap (λ o. is_raised (append_to h f row o s).0) e

  Calms-then :
      {A : Type 0} (m : M C N (Unit {0})) (a : A)
      → Runs h ref m
      → Calms h fresh calm p ref m
      → Calms h fresh calm p ref (do m; pure a)
  Calms-then m a r c = Calms-bind h fresh calm p ref m (λ _. pure a) r c (λ _ s g. refl)

  Calms-rejected : Calms h fresh calm p ref (do reject h p none; pure true)
  Calms-rejected =
      Calms-then (reject h p none) true (Runs-reject h ref p none)
        (Calms-reject h fresh calm p ref none)

  Calms-no_result :
      (b : Bool) → Calms h fresh calm p ref (do if b then pure tt else reject h p none; pure true)
  Calms-no_result b =
      Calms-then (if b then pure tt else reject h p none) true
        (Runs-if h ref b (pure tt) (reject h p none) (Runs-pure h ref tt)
          (Runs-reject h ref p none))
        (Calms-if h fresh calm p ref b (pure tt) (reject h p none) (λ s g. refl)
          (Calms-reject h fresh calm p ref none))

  module _ (q : Query) (w : some q.data_reference ≡ ref) where
    Calms-push_made : (o : Option (Row N)) → Calms h fresh calm p ref (push_made h q o)
    unfolding push_made append_row
    Calms-push_made none s g = refl
    Calms-push_made (some row) s g =
        Calms-then (append_row h q.data_reference row) false
          (λ t e.
            Runs-append_to h ref q.data_reference row (rawgeti q.data_reference t.lua.registry) w t
              e)
          (Calms-append_row q.data_reference row w) s g

    Calms-have_result : (r : ℕ) → Calms h fresh calm p ref (have_result h p q r)
    unfolding have_result
    Calms-have_result r =
        Calms-if h fresh calm p ref (r == 0) _ _
          (λ s g.
            let x =
              Runs-store h ref (querying (record q { results = 0 })) s.db.channel s w g.rows in
            Calms-no_result _ _ (Steps-Good h fresh calm x g))
          (λ s g. refl)

    Calms-finish_query : Calms h fresh calm p ref (finish_query h p q)
    unfolding finish_query
    Calms-finish_query =
        Calms-if h fresh calm p ref (q.out == 0) _ _
          (λ s g.
            Calms-have_result _ _
              (Steps-Good h fresh calm (own (Local-channel s _) (nothing_new refl)) g))
          Calms-rejected

    Calms-end_of_rows : Calms h fresh calm p ref (end_of_rows h p q)
    unfolding end_of_rows
    Calms-end_of_rows s g =
        Calms-if h fresh calm p ref (h.errno s.db.instance == 0) _ (do reject h p none; pure true)
          (λ t k. refl) Calms-rejected s g

    Calms-finish_stage : (st : Stage) → Calms h fresh calm p ref (finish_stage h p q st)
    unfolding finish_stage finish_fetch push_fetched
    Calms-finish_stage at_query = Calms-finish_query
    Calms-finish_stage at_fetch =
        Calms-if h fresh calm p ref (q.row == 0) _ _ Calms-end_of_rows (λ s. Calms-push_made _ s)
    Calms-finish_stage at_free = λ s g. refl

  Calms-note_query : (o : Option Query) (s : State C N) → is_raised (note_query h o s).0 ≡ false
  unfolding note_query note_retry
  Calms-note_query none s = refl
  Calms-note_query (some q) s =
      if_elim (λ (m : M C N Bool). is_raised (m s).0 ≡ false) _ {x = do note_retry h q; pure true}
        {y = pure true} (λ _. refl) (λ _. refl)

  Calms-rewind_query : (o : Option Query) (s : State C N) → is_raised (rewind_query h o s).0 ≡ false
  unfolding rewind_query
  Calms-rewind_query none s = refl
  Calms-rewind_query (some q) s = refl

  Calms-after_stage : (over : Bool) → Calms h fresh calm p ref (after_stage h over)
  unfolding after_stage note_lost rewind
  Calms-after_stage true = λ s g. Calms-note_query (query_of s.db.current_action) s
  Calms-after_stage false =
      Calms-then (rewind h) false (Runs-rewind h ref)
        (λ s g. Calms-rewind_query (query_of s.db.current_action) s)

  Calms-conclude :
      (q : Query) → some q.data_reference ≡ ref → Calms h fresh calm p ref (conclude h p q)
  unfolding conclude
  Calms-conclude q w =
      Calms-bind h fresh calm p ref (finish_stage h p q q.stage) (after_stage h)
        (Runs-finish_stage h ref q w p q.stage) (Calms-finish_stage q w q.stage) Calms-after_stage

  pub Calms-run_stage :
      (x : Query × Channel C)
      → some x.0.data_reference ≡ ref
      → Calms h fresh calm p ref (run_stage h p x)
  unfolding run_stage
  Calms-run_stage (q, ch) w s g =
      let x = Runs-store h ref (querying q) ch s w g.rows in
      Calms-if h fresh calm p ref (ch.socket_state == 0) (conclude h p q) (pure false)
        (Calms-conclude q w) (λ t k. refl) _ (Steps-Good h fresh calm x g)
