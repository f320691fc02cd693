-- ===== src/Tick/Serving.antt =====
-- An action of one plain call (`autocommit`, `commit`, `rollback`, `ping`) over its ticks, while Lua
-- code is quiet: it stays at work as long as the client wants to be asked again, and then settles its
-- promise and is freed.
use gluamysql.Base.{
  ℕ, ◌≡◌, refl, ap, ◌∙◌, Bool, true, false, none, some, List, ◌∷◌, ◌==◌, if◌then◌else◌,
}
use gluamysql.Lua.{Event, nothing, with_error, resolver, rejecter, rawgeti}
use gluamysql.Host.{Host}
use gluamysql.Action.{
  Action, Promise, Job, auto_commit, commit_action, rollback_action, ping_action, connect_action,
  prepare_statement, prepare_statement_close, close_action, async, Async, free, free_kind,
  free_promise,
}
use gluamysql.Database.{Channel}
use gluamysql.Machine.{State, done, ◌>>◌, pure}
use gluamysql.Machine.Quiet.{
  bind_done, Quiet, logged, lua_call-resolver_quiet, lua_call-rejecter_quiet,
}
use gluamysql.Async.{query_async, finish_job, settle, reject, resolve_with}
use gluamysql.Querying.{store_kind, with_kind}
use gluamysql.Tick.{
  query_job, query, finish, do_finish, do_finish_of, free_of, free_current, next_of, next_action,
  end_action, work, unpin, run_tick,
}
use gluamysql.Tick.Once.{run_tick-unpin, run_tick-goes_on}

abbrev pub is_plain : Job → Bool
is_plain (auto_commit b) = true
is_plain commit_action = true
is_plain rollback_action = true
is_plain ping_action = true
is_plain _ = false

abbrev pub action_of : Promise → Async → Action
action_of p x = record { refs = p; has_finished = false; kind = async x }

-- Nothing at work, and these actions queued; or an action at work.
abbrev pub queued : {C N : Type 0} → List Action → State C N → State C N
queued rest s = record s { db = record s.db { current_action = none; queue = rest } }

abbrev pub busy : {C N : Type 0} → Action → List Action → State C N → State C N
busy a rest s = record s { db = record s.db { current_action = some a; queue = rest } }

abbrev pub on_channel : {C N : Type 0} → Channel C → State C N → State C N
on_channel ch s = record s { db = record s.db { channel = ch } }

module _ {C N : Type 0} (h : Host C N) where
  unpin-busy :
      (a : Action) (rest : List Action) (s : State C N)
      → unpin h (busy a rest s) ≡ (done tt, busy a rest s)
  unfolding unpin
  unpin-busy a rest s = refl

  pub unpin-queued :
      (a : Action) (rest : List Action) (s : State C N)
      → unpin h (queued (a ∷ rest) s) ≡ (done tt, queued (a ∷ rest) s)
  unfolding unpin
  unpin-queued a rest s = refl

  pub next_action-busy :
      (a : Action) (rest : List Action) (s : State C N)
      → next_action h (busy a rest s) ≡ (done (some a), busy a rest s)
  unfolding next_action next_of
  next_action-busy a rest s = refl

  pub next_action-queued :
      (a : Action) (rest : List Action) (s : State C N)
      → next_action h (queued (a ∷ rest) s) ≡ (done (some a), busy a rest s)
  unfolding next_action next_of
  next_action-queued a rest s = refl

  pub query-busy :
      (p : Promise) (x y : Async) (rest : List Action) (s : State C N) (over : Bool)
      (ch : Channel C)
      → query_async h x s.db.channel ≡ (over, y, ch)
      → query h p (async x) (busy (action_of p x) rest s)
        ≡ (done over, busy (action_of p y) rest (on_channel ch s))
  unfolding query query_job store_kind with_kind
  query-busy p x y rest s over ch e =
      ap
        (λ (r : Bool × Async × Channel C).
          (done r.0, busy (action_of p r.1) rest (on_channel r.2 s)))
        e

  -- The client wants to be asked again.
  pub run_tick-more :
      (p : Promise) (x y : Async) (rest : List Action) (s u : State C N) (ch : Channel C)
      → next_action h s ≡ (done (some (action_of p x)), busy (action_of p x) rest u)
      → query_async h x u.db.channel ≡ (false, y, ch)
      → run_tick h s ≡ (done tt, busy (action_of p y) rest (on_channel ch u))
  unfolding work end_action
  run_tick-more p x y rest s u ch e f =
      let a : Action = action_of p x in
      let t : State C N = busy (action_of p y) rest (on_channel ch u) in
      let worked : work h (some a) (busy a rest u) ≡ (done false, t) =
        bind_done (query h p (async x)) (end_action h) (busy a rest u) t false
          (query-busy p x y rest u false ch f) in
      run_tick-goes_on h (some a) s (busy a rest u) t e worked ∙ unpin-busy _ rest (on_channel ch u)

module _ {C N : Type 0} (h : Host C N) (quiet : Quiet h) where
  -- The call into Lua code that settles the promise of a plain action.
  abbrev pub verdict : ℕ → ℕ → C → Event N
  verdict n out c =
      if out == 0
      then record { promise = n; success = true; args = nothing }
      else record { promise = n; success = false; args = with_error (h.error c) (h.errno c) }

  settle_quiet :
      (b : Bool) (p : Promise) (n : ℕ) (s : State C N)
      → rawgeti p.resolve s.lua.registry ≡ some (resolver n)
      → rawgeti p.reject s.lua.registry ≡ some (rejecter n)
      → settle h p b (resolve_with h p nothing) s ≡ (
        done tt,
        logged
            (if b then record { promise = n; success = true; args = nothing } else record {
              promise = n;
              success = false;
              args = with_error (h.error s.db.instance) (h.errno s.db.instance);
            })
            s,
      )
  unfolding settle reject resolve_with
  settle_quiet true p n s r k = lua_call-resolver_quiet h quiet p.resolve nothing s n r
  settle_quiet false p n s r k = lua_call-rejecter_quiet h quiet p.reject _ s n k

  finish_job_quiet :
      (j : Job) (p : Promise) (out n : ℕ) (s : State C N)
      → is_plain j ≡ true
      → rawgeti p.resolve s.lua.registry ≡ some (resolver n)
      → rawgeti p.reject s.lua.registry ≡ some (rejecter n)
      → finish_job h p j out s ≡ (done tt, logged (verdict n out s.db.instance) s)
  unfolding finish_job
  finish_job_quiet (auto_commit b) p out n s e = settle_quiet (out == 0) p n s
  finish_job_quiet commit_action p out n s e = settle_quiet (out == 0) p n s
  finish_job_quiet rollback_action p out n s e = settle_quiet (out == 0) p n s
  finish_job_quiet ping_action p out n s e = settle_quiet (out == 0) p n s
  finish_job_quiet (connect_action a b c d f) p out n s e = cc
  finish_job_quiet (prepare_statement a b) p out n s e = cc
  finish_job_quiet (prepare_statement_close a) p out n s e = cc
  finish_job_quiet close_action p out n s e = cc

  -- What is left of the state when the action is over.
  abbrev pub served : Promise → ℕ → Async → Channel C → State C N → State C N
  served p n y ch s = record s {
    db = record s.db { channel = ch };
    lua = free_promise p (record s.lua { log = verdict n y.out ch.instance ∷ s.lua.log });
  }

  work_last :
      (p : Promise) (n : ℕ) (x y : Async) (rest : List Action) (s : State C N) (ch : Channel C)
      → is_plain y.job ≡ true
      → rawgeti p.resolve s.lua.registry ≡ some (resolver n)
      → rawgeti p.reject s.lua.registry ≡ some (rejecter n)
      → query_async h x s.db.channel ≡ (true, y, ch)
      → work h (some (action_of p x)) (busy (action_of p x) rest s)
        ≡ (done true, queued rest (served p n y ch s))
  unfolding work end_action do_finish do_finish_of finish free_current free_of free free_kind
  work_last p n x y rest s ch j r k e =
      let asked : State C N = busy (action_of p y) rest (on_channel ch s) in
      let marked : State C N =
        busy (record { refs = p; has_finished = true; kind = async y }) rest (on_channel ch s) in
      bind_done (query h p (async x)) (end_action h) (busy (action_of p x) rest s) asked true
        (query-busy h p x y rest s true ch e)
      ∙ bind_done (do_finish h) (λ _. do free_current h; pure true) asked _ tt
          (finish_job_quiet y.job p y.out n marked j r k)

  -- The client is done.
  pub run_tick-last :
      (p : Promise) (n : ℕ) (x y : Async) (rest : List Action) (s u : State C N) (ch : Channel C)
      → is_plain y.job ≡ true
      → rawgeti p.resolve u.lua.registry ≡ some (resolver n)
      → rawgeti p.reject u.lua.registry ≡ some (rejecter n)
      → next_action h s ≡ (done (some (action_of p x)), busy (action_of p x) rest u)
      → query_async h x u.db.channel ≡ (true, y, ch)
      → run_tick h s ≡ unpin h (queued rest (served p n y ch u))
  run_tick-last p n x y rest s u ch j r k e f =
      run_tick-unpin h (some (action_of p x)) s (busy (action_of p x) rest u)
        (queued rest (served p n y ch u)) e (work_last p n x y rest u ch j r k f) refl
