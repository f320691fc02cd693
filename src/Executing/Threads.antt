-- ===== src/Executing/Threads.antt =====
-- The threads of a prepared statement reach their end.
use gluamysql.Base.{
  ◌&&◌, ℕ, suc, ◌≡◌, refl, ap, ◌∙◌, Bool, true, false, Option, none, some, List, [], ◌∷◌, ◌++◌, map,
  length, ◌==◌, append_assoc, append-nil,
}
use gluamysql.Host.{Host, Fetched}
use gluamysql.Action.{Exec, ResultData, executing_statement, fetching, freeing, no_thread}
use gluamysql.Executing.{run_worker, worker_step, free_next, fetch_round, keep_fetched}

module _ {C N : Type 0} (h : Host C N) where
  -- The results are freed in their order.
  abbrev pub free_all : List ResultData → C → C
  free_all [] c = c
  free_all (d ∷ ds) c = free_all ds (h.free_result_blocking d.results c)

  -- The thread of `FreeResultsStart` is done after two steps more than there are results, has freed
  -- each of them once and left none, and has raised its flag.
  pub run_worker-freeing :
      (ds : List ResultData) (x : Exec) (c : C)
      → run_worker h (suc (suc (length ds))) (record x { worker = freeing; resultdata = ds }) c
        ≡ some (
          record x { worker = no_thread; resultdata = []; thread_finished = true },
          free_all ds c,
        )
  unfolding run_worker worker_step free_next
  run_worker-freeing [] x c = refl
  run_worker-freeing (d ∷ ds) x c = run_worker-freeing ds x (h.free_result_blocking d.results c)

  -- What a round of the loop in `FetchStart` finds: the metadata, the binding, and the fetch.
  abbrev results_of : ℕ → C → ℕ
  results_of stmt c = (h.stmt_result_metadata stmt c).0

  abbrev pub IsBound : ℕ → C → Type 0
  IsBound stmt c =
      ((results_of stmt c == 0) ≡ false)
      × (((h.stmt_bind_result stmt (h.stmt_result_metadata stmt c).1).0 == 0) ≡ true)

  abbrev pub fetch_after : ℕ → C → Fetched × C
  fetch_after stmt c =
      h.stmt_fetch stmt (h.stmt_bind_result stmt (h.stmt_result_metadata stmt c).1).1

  abbrev pub made_of : ℕ → C → ResultData
  made_of stmt c =
      let f = (fetch_after stmt c).0 in
      record { results = results_of stmt c; row = map some f.columns; is_nulls = f.is_nulls }

  -- The rows that fetching yields from a state of the connection on, the code that ends them, and the
  -- state that is left.
  pub data Fetches (stmt : ℕ) : C → List ResultData → ℕ → C → Type 0 where
    ends :
        (c : C)
        → IsBound stmt c
        → ((fetch_after stmt c).0.code == 0) ≡ false
        → Fetches stmt c [] (fetch_after stmt c).0.code (fetch_after stmt c).1
    row :
        (c : C) {ds : List ResultData} {code : ℕ} {d : C}
        → IsBound stmt c
        → ((fetch_after stmt c).0.code == 0) ≡ true
        → Fetches stmt (fetch_after stmt c).1 ds code d
        → Fetches stmt c (made_of stmt c ∷ ds) code d

  fetching_from :
      (stmt : ℕ) (x : Exec) {c d : C} {ds : List ResultData} {code : ℕ}
      → Fetches stmt c ds code d
      → run_worker h (suc (suc (length ds))) (record x { stmt = stmt; worker = fetching }) c
        ≡ some (
          record x {
            stmt = stmt;
            worker = no_thread;
            thread_finished = true;
            out = code;
            resultdata = x.resultdata ++ ds;
          },
          d,
        )
  unfolding run_worker worker_step fetch_round keep_fetched
  fetching_from stmt x (ends c b e) = rw (b.0, b.1, e, append-nil x.resultdata) refl
  fetching_from stmt x (row c {ds} {code} {d} b e t) =
      rw (b.0, b.1, e)
        (fetching_from stmt (record x { out = 0; resultdata = x.resultdata ++ made_of stmt c ∷ [] })
            t
          ∙ ap
              (λ r. some (
                record x {
                  stmt = stmt;
                  worker = no_thread;
                  thread_finished = true;
                  out = code;
                  resultdata = r;
                },
                d,
              ))
              (append_assoc x.resultdata (made_of stmt c ∷ []) ds))

  -- If the statement can be bound each time and fetching yields some rows until a code other than
  -- zero ends them, the thread of `FetchStart` is done after two steps more than there are rows: it
  -- has put them behind the results that there were, in their order, kept the code, and raised its
  -- flag.
  pub run_worker-fetching :
      (x : Exec) {c d : C} {ds : List ResultData} {code : ℕ}
      → Fetches x.stmt c ds code d
      → run_worker h (suc (suc (length ds))) (record x { worker = fetching }) c
        ≡ some (
          record x {
            worker = no_thread;
            thread_finished = true;
            out = code;
            resultdata = x.resultdata ++ ds;
          },
          d,
        )
  run_worker-fetching x t = fetching_from x.stmt x t

  -- The thread is over, and has raised its flag.
  abbrev pub is_stopped : Option (Exec × C) → Bool
  is_stopped none = false
  is_stopped (some (y, d)) = y.thread_finished && elim y.worker [ no_thread ↦ true | _ ↦ false ]

  -- The thread of `ExecuteStart` has raised its flag and is over after at most four steps, whatever
  -- the client returns.
  pub run_worker-executing :
      (x : Exec) (c : C)
      → is_stopped (run_worker h 4 (record x { worker = executing_statement }) c) ≡ true
  unfolding run_worker worker_step
  run_worker-executing x c =
      by_flags ((h.stmt_execute x.stmt c).0 == 0)
        ((h.stmt_result_metadata x.stmt (h.stmt_execute x.stmt c).1).0 == 0) refl refl
    where
      by_flags :
          (a b : Bool)
          → ((h.stmt_execute x.stmt c).0 == 0) ≡ a
          → ((h.stmt_result_metadata x.stmt (h.stmt_execute x.stmt c).1).0 == 0) ≡ b
          → is_stopped (run_worker h 4 (record x { worker = executing_statement }) c) ≡ true
      by_flags false b e f = rw e refl
      by_flags true true e f = rw (e, f) refl
      by_flags true false e f = rw (e, f) refl
