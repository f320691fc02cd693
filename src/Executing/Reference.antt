-- ===== src/Executing/Reference.antt =====
-- No step of a statement or of its thread changes the reference to the table of its rows.
use gluamysql.Base.{
  ℕ, zero, suc, ◌≡◌, refl, ◌∙◌, Bool, true, false, not, Option, none, some, List, [], ◌∷◌, ◌==◌,
  if◌then◌else◌, if_elim, subst,
}
use gluamysql.Host.{Host, Fetched}
use gluamysql.Action.{
  Exec, ExecStage, at_execute, at_rows, at_free_results, at_free_statement, Worker, no_thread,
  executing_statement, looking_for_rows, storing_result, fetching, freeing, signalling, ResultData,
}
use gluamysql.Database.{Channel, get_socket_status, check_status}
use gluamysql.Executing.{
  keep_fetched, fetch_round, free_next, worker_step, run_worker, placed, resume_if, watch,
  execute_start, free_results_start, start_stage, continue_stage, advance_exec,
}

module _ {C N : Type 0} (h : Host C N) where
  -- Where there is an outcome its statement has the reference of the first.
  abbrev SameRef : Exec → Option (Exec × C) → Type 0
  SameRef x none = Unit {0}
  SameRef x (some (y, c)) = y.reference ≡ x.reference

  abbrev LookedSame : Exec → Option (ℕ × Exec × C) → Type 0
  LookedSame x none = Unit {0}
  LookedSame x (some (n, y, c)) = y.reference ≡ x.reference

  abbrev PlacedSame : Exec → Option (Exec × Channel C) → Type 0
  PlacedSame x none = Unit {0}
  PlacedSame x (some (y, ch)) = y.reference ≡ x.reference

  SameRef-trans :
      (x y : Exec) (o : Option (Exec × C)) → y.reference ≡ x.reference → SameRef y o → SameRef x o
  SameRef-trans x y none e f = tt
  SameRef-trans x y (some z) e f = f ∙ e

  SameRef-after :
      (x : Exec) (f : Exec → C → Option (Exec × C)) (o : Option (Exec × C))
      → SameRef x o
      → ((y : Exec) (d : C) → SameRef y (f y d))
      → SameRef x (elim o as (λ _. Option (Exec × C)) [ none ↦ none | some y ↦ f y.0 y.1 ])
  SameRef-after x f none e k = tt
  SameRef-after x f (some (y, d)) e k = SameRef-trans x y (f y d) e (k y d)

  keep_fetched-SameRef :
      (results : ℕ) (x : Exec) (r : Fetched × C) → SameRef x (some (keep_fetched h results x r))
  unfolding keep_fetched
  keep_fetched-SameRef results x (f, c) =
      if_elim (λ (y : Exec × C). y.0.reference ≡ x.reference) (f.code == 0) (λ _. refl) (λ _. refl)

  fetch_round-SameRef : (x : Exec) (c : C) → SameRef x (fetch_round h x c)
  unfolding fetch_round
  fetch_round-SameRef x c =
      let results = (h.stmt_result_metadata x.stmt c).0 in
      let c1 = (h.stmt_result_metadata x.stmt c).1 in
      let bound = (h.stmt_bind_result x.stmt c1).0 in
      let c2 = (h.stmt_bind_result x.stmt c1).1 in
      if_elim (λ (o : Option (Exec × C)). SameRef x o) (results == 0) {x = none}
        {y = if bound == 0 then some (keep_fetched h results x (h.stmt_fetch x.stmt c2)) else none}
        (λ _. tt)
        (λ _.
          if_elim (λ (o : Option (Exec × C)). SameRef x o) (bound == 0)
            {x = some (keep_fetched h results x (h.stmt_fetch x.stmt c2))} {y = none}
            (λ _. keep_fetched-SameRef results x (h.stmt_fetch x.stmt c2)) (λ _. tt))

  free_next-SameRef :
      (ds : List ResultData) (x : Exec) (c : C) → SameRef x (some (free_next h ds x c))
  unfolding free_next
  free_next-SameRef [] x c = refl
  free_next-SameRef (d ∷ rest) x c = refl

  worker_step-SameRef : (w : Worker) (x : Exec) (c : C) → SameRef x (worker_step h w x c)
  unfolding worker_step
  worker_step-SameRef no_thread x c = refl
  worker_step-SameRef executing_statement x c = refl
  worker_step-SameRef looking_for_rows x c = refl
  worker_step-SameRef storing_result x c = refl
  worker_step-SameRef fetching x c = fetch_round-SameRef x c
  worker_step-SameRef freeing x c = free_next-SameRef x.resultdata x c
  worker_step-SameRef signalling x c = refl

  run_worker-SameRef : (n : ℕ) (x : Exec) (c : C) → SameRef x (run_worker h n x c)
  unfolding run_worker
  run_worker-SameRef zero x c = refl
  run_worker-SameRef (suc n) x c =
      SameRef-after x (run_worker h n) (worker_step h x.worker x c)
        (worker_step-SameRef x.worker x c) (run_worker-SameRef n)

  watch-LookedSame : (x : Exec) (c : C) → LookedSame x (watch h x c)
  unfolding watch
  watch-LookedSame x c =
      looked (run_worker h (h.thread_steps c) x c) (run_worker-SameRef (h.thread_steps c) x c)
    where
      looked :
          (o : Option (Exec × C))
          → SameRef x o
          → LookedSame x (elim o as (λ _. Option (ℕ × Exec × C)) [
            | none ↦ none
            | some y ↦ some (if y.0.thread_finished then 0 else 1, y.0, y.1)
          ])
      looked none e = tt
      looked (some (y, d)) e = e

  execute_start-LookedSame : (x : Exec) (c : C) → LookedSame x (execute_start h x c)
  unfolding execute_start
  execute_start-LookedSame x c =
      let r = (h.stmt_bind_param x.stmt x.arguments x.buffers c).0 in
      let d = (h.stmt_bind_param x.stmt x.arguments x.buffers c).1 in
      let y : Exec = record x { out = 0; in_thread = true; worker = executing_statement } in
      if_elim (λ (o : Option (ℕ × Exec × C)). LookedSame x o) (r == 0) {x = watch h y d}
        {y = some (0, record x { out = r }, d)} (λ _. watch-LookedSame y d) (λ _. refl)

  start_stage-LookedSame : (st : ExecStage) (x : Exec) (c : C) → LookedSame x (start_stage h st x c)
  unfolding start_stage
  start_stage-LookedSame at_execute x c = execute_start-LookedSame x c
  start_stage-LookedSame at_rows x c =
      watch-LookedSame (record x { thread_finished = false; in_thread = true; worker = fetching }) c
  start_stage-LookedSame at_free_results x c = begun x.resultdata
    where
      begun : (ds : List ResultData) → LookedSame x (free_results_start h ds x c)
      begun [] = unfold free_results_start in refl
      begun (d ∷ ds) =
          unfold free_results_start in
          watch-LookedSame
            (record x { thread_finished = false; in_thread = true; worker = freeing }) c
  start_stage-LookedSame at_free_statement x c = refl

  continue_stage-LookedSame :
      (st : ExecStage) (status : ℕ) (x : Exec) (c : C)
      → LookedSame x (continue_stage h st status x c)
  unfolding continue_stage
  continue_stage-LookedSame at_free_statement status x c = refl
  continue_stage-LookedSame at_execute status x c = watch-LookedSame x c
  continue_stage-LookedSame at_rows status x c = watch-LookedSame x c
  continue_stage-LookedSame at_free_results status x c = watch-LookedSame x c

  placed-PlacedSame :
      (x : Exec) (o : Option (ℕ × Exec × C)) → LookedSame x o → PlacedSame x (placed h o)
  placed-PlacedSame x none e = tt
  placed-PlacedSame x (some (n, y, c)) e = e

  resume_if-PlacedSame :
      (x : Exec) (b : Bool) (ch : Channel C) → PlacedSame x (resume_if h x (b, ch))
  resume_if-PlacedSame x true ch =
      let d = get_socket_status h ch in
      placed-PlacedSame x (continue_stage h x.stage d.socket_state x d.instance)
        (continue_stage-LookedSame x.stage d.socket_state x d.instance)
  resume_if-PlacedSame x false ch = refl

  advance_exec-PlacedSame : (x : Exec) (ch : Channel C) → PlacedSame x (advance_exec h x ch)
  unfolding advance_exec
  advance_exec-PlacedSame x ch =
      let begun : Exec = record x { started = true } in
      let d = get_socket_status h ch in
      let checked = check_status h ch in
      if_elim (λ (o : Option (Exec × Channel C)). PlacedSame x o) (not x.started)
        {x = placed h (start_stage h x.stage begun d.instance)}
        {y = if x.in_thread then resume_if h x (true, ch) else resume_if h x (checked.0, checked.1)}
        (λ _.
          placed-PlacedSame begun (start_stage h x.stage begun d.instance)
            (start_stage-LookedSame x.stage begun d.instance))
        (λ _.
          if_elim (λ (o : Option (Exec × Channel C)). PlacedSame x o) x.in_thread
            {x = resume_if h x (true, ch)} {y = resume_if h x (checked.0, checked.1)}
            (λ _. resume_if-PlacedSame x true ch) (λ _. resume_if-PlacedSame x checked.0 checked.1))

  -- What a tick does to the statement leaves it its reference.
  pub advance_exec-reference :
      (x y : Exec) (ch d : Channel C)
      → advance_exec h x ch ≡ some (y, d)
      → y.reference ≡ x.reference
  advance_exec-reference x y ch d e = subst (PlacedSame x) e (advance_exec-PlacedSame x ch)
