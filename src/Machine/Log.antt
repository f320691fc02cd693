-- ===== src/Machine/Log.antt =====
-- A call into Lua code is logged, and what that code asks of the module logs nothing.
use gluamysql.Base.{
  ◌&&◌, Option, none, ℕ, ◌≡◌, refl, ◌∙◌, Bool, true, false, ◌||◌, some, List, [], ◌∷◌, arith, ◌==◌,
  if_elim,
}
use gluamysql.Lua.{Ref, Lua, Args, resolver, rejecter, rawgeti, is_unset}
use gluamysql.Host.{
  execute, collect_statement, Host, Command, submit, connect, collect, Request, query, prepare,
  autocommit, commit, rollback, ping,
}
use gluamysql.Binding.{Bind}
use gluamysql.Action.{
  new_execute, Action, Job, connect_action, lua_l_ref, new_promise, new_async, new_query,
}
use gluamysql.Database.{Db, insert_action}
use gluamysql.Database.Insert.{insert_action_cases}
use gluamysql.Library.{
  insert_made, submit_execute, needs_userdata, submit_job, statement_gc, handle_request,
  call_method, new_database, mysql_connect, gc,
}
use gluamysql.Machine.{
  State, collected, at_address, on_address, method_at, run_command, run_commands, call_held,
  lua_call,
}

module _ {C N : Type 0} (h : Host C N) where
  insert_action-log : (a : Action) (d : Db C) (l : Lua N) → (insert_action h a (d, l)).2.log ≡ l.log
  unfolding lua_l_ref
  insert_action-log a d l =
      insert_action_cases h a d l (λ r. r.2.log ≡ l.log) (λ _ _. refl) (λ _ _. refl) (λ _. refl)

  submit_job-log : (j : Job) (d : Db C) (l : Lua N) → (submit_job h j (d, l)).2.log ≡ l.log
  unfolding submit_job new_async
  submit_job-log j d l = insert_action-log (new_async h j l).0 d (new_async h j l).1

  insert_made-log : (x : Option Action × Lua N) (d : Db C) → (insert_made h x d).2.log ≡ x.1.log
  unfolding insert_made
  insert_made-log (none, l) d = refl
  insert_made-log (some a, l) d = insert_action-log a d l

  new_execute-log :
      (stmt : ℕ) (o : Option (List Bind × List (List ℕ))) (l : Lua N)
      → (new_execute h stmt o l).1.log ≡ l.log
  unfolding new_execute new_promise lua_l_ref
  new_execute-log stmt none l = refl
  new_execute-log stmt (some x) l = refl

  call_method-log :
      (cleaned : Bool) (r : Request) (d : Db C) (l : Lua N)
      → (call_method h cleaned r (d, l)).2.log ≡ l.log
  unfolding call_method handle_request statement_gc submit_execute submit_job new_async new_query
  call_method-log cleaned r d l =
      if_elim (λ (x : Bool × Db C × Lua N). x.2.log ≡ l.log) (d.cleared && needs_userdata h r)
        (λ _. refl) (λ _. of r)
    where
      of_gc : (b : Bool) (stmt : ℕ) → (statement_gc h b stmt (d, l)).2.log ≡ l.log
      of_gc true stmt = refl
      of_gc false stmt = submit_job-log _ d l

      of : (q : Request) → (handle_request h cleaned q (d, l)).2.log ≡ l.log
      of (query text) = insert_action-log (new_query h text l).0 d (new_query h text l).1
      of (prepare text) = submit_job-log _ _ l
      of (autocommit b) = submit_job-log _ d l
      of commit = submit_job-log _ d l
      of rollback = submit_job-log _ d l
      of ping = submit_job-log _ d l
      of (execute stmt args) = insert_made-log _ d ∙ new_execute-log stmt _ l
      of (collect_statement stmt) = of_gc cleaned stmt

  collected-log : (b : Bool) (d : Db C) (l : Lua N) → (collected h b (d, l)).1.log ≡ l.log
  unfolding collected gc new_async new_promise lua_l_ref
  collected-log b d l =
      if_elim (λ (x : Db C × Lua N). x.1.log ≡ l.log) (is_unset d.queue_reference)
        (λ _.
          if_elim (λ (x : Db C × Lua N). x.1.log ≡ l.log) (d.cleared || b) (λ _. refl) (λ _. refl))
        (λ _. refl)

  abbrev KeepsLog : (Db C × Lua N → Db C × Lua N) → Type 0
  KeepsLog f = (d : Db C) (l : Lua N) → (f (d, l)).1.log ≡ l.log

  at_address-log :
      (a : ℕ) (f : Db C × Lua N → Db C × Lua N) (ds : List (Db C)) (l : Lua N)
      → KeepsLog f
      → (at_address h a f ds l).1.log ≡ l.log
  unfolding at_address
  at_address-log a f [] l k = refl
  at_address-log a f (d ∷ ds) l k = ground (arith, k d l, at_address-log a f ds l k)

  on_address-log :
      (a : ℕ) (f : Db C × Lua N → Db C × Lua N) (s : State C N)
      → KeepsLog f
      → (on_address h a f s).lua.log ≡ s.lua.log
  unfolding on_address
  on_address-log a f s k =
      if_elim (λ (t : State C N). t.lua.log ≡ s.lua.log) (s.db.address == a) (λ _. k s.db s.lua)
        (λ _. at_address-log a f s.after _ k ∙ at_address-log a f s.before s.lua k)

  run_command-log : (c : Command) (s : State C N) → (run_command h c s).lua.log ≡ s.lua.log
  unfolding run_command method_at mysql_connect new_database lua_l_ref
  run_command-log (submit a r) s =
      on_address-log a (method_at h s.cleaned r) s (call_method-log s.cleaned r)
  run_command-log (connect host user passwd dbname port) s =
      submit_job-log (connect_action host user passwd dbname port) (new_database h _ s.lua).0
        (new_database h _ s.lua).1
  run_command-log (collect a) s =
      on_address-log a (collected h s.cleaned) s (collected-log s.cleaned)

  run_commands-log : (cs : List Command) (s : State C N) → (run_commands h cs s).lua.log ≡ s.lua.log
  unfolding run_commands
  run_commands-log [] s = refl
  run_commands-log (c ∷ cs) s = run_commands-log cs (run_command h c s) ∙ run_command-log c s

  -- To call a promise's resolving function is to log one successful settlement of it.
  pub lua_call-resolver :
      (f : Ref) (args : Args N) (s : State C N) (n : ℕ)
      → rawgeti f s.lua.registry ≡ some (resolver n)
      → (lua_call h f args s).1.lua.log
        ≡ record { promise = n; success = true; args = args } ∷ s.lua.log
  unfolding lua_call
  lua_call-resolver f args s n e = rw (e, call_held) (run_commands-log _ _)

  pub lua_call-rejecter :
      (f : Ref) (args : Args N) (s : State C N) (n : ℕ)
      → rawgeti f s.lua.registry ≡ some (rejecter n)
      → (lua_call h f args s).1.lua.log
        ≡ record { promise = n; success = false; args = args } ∷ s.lua.log
  unfolding lua_call
  lua_call-rejecter f args s n e = rw (e, call_held) (run_commands-log _ _)
