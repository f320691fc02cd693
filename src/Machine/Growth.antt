-- ===== src/Machine/Growth.antt =====
-- What Lua code can do to the database at work: it adds to its queue, and leaves the action at work
-- alone.
use gluamysql.Base.{
  true, false, ◌&&◌, none, ◌||◌, ℕ, ◌≡◌, refl, ap, sym, ◌∙◌, Bool, Option, some, List, [], ◌∷◌,
  ◌++◌, append-nil, append_assoc, ◌==◌, if_elim,
}
use gluamysql.Lua.{is_unset, resolver, rejecter, Ref, Lua, Held, Args, rawgeti}
use gluamysql.Host.{
  execute, collect_statement, Host, Command, submit, connect, collect, Request, query, prepare,
  autocommit, commit, rollback, ping,
}
use gluamysql.Action.{Action}
use gluamysql.Database.{Channel, Db, insert_action}
use gluamysql.Database.Insert.{insert_action_cases}
use gluamysql.Library.{
  submit_execute, insert_made, needs_userdata, statement_gc, handle_request, call_method, gc,
}
use gluamysql.Machine.{
  State, collected, on_address, run_command, run_commands, call_held, method_at, lua_call,
}

-- From `d` to `e`: `added` comes to the end of the queue.
pub record Grows {C : Type 0} (d e : Db C) : Type 0 where
  pub added : List Action
  pub queued : e.queue ≡ d.queue ++ added
  pub current : e.current_action ≡ d.current_action
  pub same_address : e.address ≡ d.address

module _ {C : Type 0} where
  pub Grows-refl : (d : Db C) → Grows d d
  Grows-refl d = record {
    added = [];
    queued = sym (append-nil d.queue);
    current = refl;
    same_address = refl;
  }

  pub Grows-trans : {d e f : Db C} → Grows d e → Grows e f → Grows d f
  Grows-trans {d} g k = record {
    added = g.added ++ k.added;
    queued = k.queued ∙ ap (λ q. q ++ k.added) g.queued ∙ append_assoc d.queue g.added k.added;
    current = k.current ∙ g.current;
    same_address = k.same_address ∙ g.same_address;
  }

Grows-queue :
    {C : Type 0} (d : Db C) (a : Action) (r : Ref)
    → Grows d (record d { queue = d.queue ++ a ∷ []; queue_reference = r })
Grows-queue d a r = record { added = a ∷ []; queued = refl; current = refl; same_address = refl }

Grows-channel : {C : Type 0} (d : Db C) (ch : Channel C) → Grows d (record d { channel = ch })
Grows-channel d ch = record {
  added = [];
  queued = sym (append-nil d.queue);
  current = refl;
  same_address = refl;
}

module _ {C N : Type 0} (h : Host C N) where
  insert_action-Grows : (a : Action) (d : Db C) (l : Lua N) → Grows d (insert_action h a (d, l)).1
  insert_action-Grows a d l =
      insert_action_cases h a d l (λ r. Grows d r.1) (λ _ _. Grows-refl d)
        (λ v _. Grows-queue d a _) (λ _. Grows-queue d a d.queue_reference)

  insert_made-Grows : (x : Option Action × Lua N) (d : Db C) → Grows d (insert_made h x d).1
  unfolding insert_made
  insert_made-Grows (none, l) d = Grows-refl d
  insert_made-Grows (some a, l) d = insert_action-Grows a d l

  statement_gc-Grows :
      (cleaned : Bool) (stmt : ℕ) (d : Db C) (l : Lua N)
      → Grows d (statement_gc h cleaned stmt (d, l)).1
  unfolding statement_gc
  statement_gc-Grows true stmt d l = Grows-refl d
  statement_gc-Grows false stmt d l = insert_action-Grows _ d _

  handle_request-Grows :
      (cleaned : Bool) (r : Request) (d : Db C) (l : Lua N)
      → Grows d (handle_request h cleaned r (d, l)).1
  unfolding handle_request submit_execute
  handle_request-Grows cleaned (query text) d l = insert_action-Grows _ d _
  handle_request-Grows cleaned (prepare text) d l =
      let d' : Db C = record d {
        channel = record d.channel { instance = (h.stmt_init d.instance).1 };
      } in
      Grows-trans (Grows-channel d d'.channel) (insert_action-Grows _ d' _)
  handle_request-Grows cleaned (autocommit b) d l = insert_action-Grows _ d _
  handle_request-Grows cleaned commit d l = insert_action-Grows _ d _
  handle_request-Grows cleaned rollback d l = insert_action-Grows _ d _
  handle_request-Grows cleaned ping d l = insert_action-Grows _ d _
  handle_request-Grows cleaned (execute stmt args) d l = insert_made-Grows _ d
  handle_request-Grows cleaned (collect_statement stmt) d l = statement_gc-Grows cleaned stmt d l

  call_method-Grows :
      (cleaned : Bool) (r : Request) (d : Db C) (l : Lua N)
      → Grows d (call_method h cleaned r (d, l)).1
  unfolding call_method
  call_method-Grows cleaned r d l =
      if_elim (λ (x : Bool × Db C × Lua N). Grows d x.1) (d.cleared && needs_userdata h r)
        (λ _. Grows-refl d) (λ _. handle_request-Grows cleaned r d l)

  gc-Grows : (cleaned : Bool) (d : Db C) (l : Lua N) → Grows d (gc h cleaned (d, l)).0
  unfolding gc
  gc-Grows cleaned d l =
      if_elim (λ (x : Db C × Lua N). Grows d x.0) (d.cleared || cleaned) (λ _. Grows-refl d)
        (λ _. record { added = _ ∷ []; queued = refl; current = refl; same_address = refl })

  collected-Grows : (cleaned : Bool) (d : Db C) (l : Lua N) → Grows d (collected h cleaned (d, l)).0
  unfolding collected
  collected-Grows cleaned d l =
      if_elim (λ (x : Db C × Lua N). Grows d x.0) (is_unset d.queue_reference)
        (λ _. gc-Grows cleaned d l) (λ _. Grows-refl d)

  on_address-Grows :
      (a : ℕ) (f : Db C × Lua N → Db C × Lua N) (s : State C N)
      → Grows s.db (f (s.db, s.lua)).0
      → Grows s.db (on_address h a f s).db
  unfolding on_address
  on_address-Grows a f s g =
      if_elim (λ (t : State C N). Grows s.db t.db) (s.db.address == a) (λ _. g)
        (λ _. Grows-refl s.db)

  run_command-Grows : (c : Command) (s : State C N) → Grows s.db (run_command h c s).db
  unfolding run_command
  run_command-Grows (submit a r) s =
      on_address-Grows a (method_at h s.cleaned r) s
        (unfold method_at in call_method-Grows s.cleaned r s.db s.lua)
  run_command-Grows (connect host user passwd dbname port) s = Grows-refl s.db
  run_command-Grows (collect a) s =
      on_address-Grows a (collected h s.cleaned) s (collected-Grows s.cleaned s.db s.lua)

  run_commands-Grows : (cs : List Command) (s : State C N) → Grows s.db (run_commands h cs s).db
  unfolding run_commands
  run_commands-Grows [] s = Grows-refl s.db
  run_commands-Grows (c ∷ cs) s =
      Grows-trans (run_command-Grows c s) (run_commands-Grows cs (run_command h c s))

  call_held-Grows :
      (o : Option (Held N)) (args : Args N) (s : State C N) → Grows s.db (call_held h o args s).1.db
  unfolding call_held
  call_held-Grows (some (resolver p)) args s = run_commands-Grows _ (record s { lua = _ })
  call_held-Grows (some (rejecter p)) args s = run_commands-Grows _ (record s { lua = _ })
  call_held-Grows _ args s = Grows-refl s.db

  pub lua_call-Grows :
      (f : Ref) (args : Args N) (s : State C N) → Grows s.db (lua_call h f args s).1.db
  unfolding lua_call
  lua_call-Grows f args s = call_held-Grows (rawgeti f s.lua.registry) args s
