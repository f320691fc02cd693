-- ===== src/Machine/Pinned.antt =====
-- A database with work to do is held by the registry, unless Lua's collector has had it already.
use gluamysql.Base.{
  ◌&&◌, ℕ, ◌≡◌, refl, Bool, true, false, not, ◌||◌, Option, none, some, List, [], ◌∷◌, ◌++◌, arith,
  ◌==◌, if_elim,
}
use gluamysql.Lua.{Ref, Lua, Held, Args, resolver, rejecter, rawgeti, is_unset}
use gluamysql.Host.{
  execute, collect_statement, Host, Command, submit, connect, collect, Request, query, prepare,
  autocommit, commit, rollback, ping,
}
use gluamysql.Action.{Job, connect_action, new_async, Action, lua_l_ref}
use gluamysql.Database.{Db, insert_action}
use gluamysql.Database.Insert.{insert_action_cases}
use gluamysql.Library.{
  insert_made, submit_execute, needs_userdata, submit_job, new_database, statement_gc,
  handle_request, call_method, mysql_connect, gc,
}
use gluamysql.Machine.{
  State, collected, at_address, on_address, method_at, run_command, run_commands, call_held,
  lua_call,
}

-- Nothing at work and nothing queued.
abbrev pub is_idle : Option Action → List Action → Bool
is_idle none [] = true
is_idle none (_ ∷ _) = false
is_idle (some _) _ = false

-- The database was collected, or it has nothing to do, or a reference in the registry holds its
-- userdata.
abbrev pub IsPinned : {C : Type 0} → Db C → Type 0
IsPinned db =
    (db.gced || is_idle db.current_action db.queue || not (is_unset db.queue_reference)) ≡ true

abbrev pub AllPinned : {C : Type 0} → List (Db C) → Type 0
AllPinned [] = Unit {0}
AllPinned (d ∷ ds) = IsPinned d × AllPinned ds

pub AllPinned-append :
    {C : Type 0} (ds es : List (Db C)) → AllPinned ds → AllPinned es → AllPinned (ds ++ es)
AllPinned-append [] es p q = q
AllPinned-append (d ∷ ds) es p q = (p.0, AllPinned-append ds es p.1 q)

-- Every open database.
pub record StatePinned {C N : Type 0} (s : State C N) : Type 0 where
  pub at_work : IsPinned s.db
  pub behind : AllPinned s.before
  pub ahead : AllPinned s.after

module _ {C N : Type 0} (h : Host C N) where
  insert_action-IsPinned :
      (a : Action) (d : Db C) (l : Lua N) → IsPinned d → IsPinned (insert_action h a (d, l)).1
  unfolding lua_l_ref
  insert_action-IsPinned a d l p =
      insert_action_cases h a d l (λ r. IsPinned r.1) (λ _ _. p) (λ v _. ground arith)
        (λ e. ground arith)

  submit_job-IsPinned :
      (job : Job) (d : Db C) (l : Lua N) → IsPinned d → IsPinned (submit_job h job (d, l)).1
  unfolding submit_job
  submit_job-IsPinned job d l p =
      insert_action-IsPinned (new_async h job l).0 d (new_async h job l).1 p

  insert_made-IsPinned :
      (x : Option Action × Lua N) (d : Db C) → IsPinned d → IsPinned (insert_made h x d).1
  unfolding insert_made
  insert_made-IsPinned (none, l) d p = p
  insert_made-IsPinned (some a, l) d p = insert_action-IsPinned a d l p

  statement_gc-IsPinned :
      (cleaned : Bool) (stmt : ℕ) (d : Db C) (l : Lua N)
      → IsPinned d
      → IsPinned (statement_gc h cleaned stmt (d, l)).1
  unfolding statement_gc
  statement_gc-IsPinned true stmt d l p = p
  statement_gc-IsPinned false stmt d l p = submit_job-IsPinned _ d l p

  handle_request-IsPinned :
      (cleaned : Bool) (r : Request) (d : Db C) (l : Lua N)
      → IsPinned d
      → IsPinned (handle_request h cleaned r (d, l)).1
  unfolding handle_request submit_execute
  handle_request-IsPinned cleaned (query text) d l p = insert_action-IsPinned _ d _ p
  handle_request-IsPinned cleaned (prepare text) d l p = insert_action-IsPinned _ _ _ p
  handle_request-IsPinned cleaned (autocommit b) d l p = insert_action-IsPinned _ d _ p
  handle_request-IsPinned cleaned commit d l p = insert_action-IsPinned _ d _ p
  handle_request-IsPinned cleaned rollback d l p = insert_action-IsPinned _ d _ p
  handle_request-IsPinned cleaned ping d l p = insert_action-IsPinned _ d _ p
  handle_request-IsPinned cleaned (execute stmt args) d l p = insert_made-IsPinned _ d p
  handle_request-IsPinned cleaned (collect_statement stmt) d l p =
      statement_gc-IsPinned cleaned stmt d l p

  -- Calling a method keeps a database held.
  pub call_method-IsPinned :
      (cleaned : Bool) (r : Request) (d : Db C) (l : Lua N)
      → IsPinned d
      → IsPinned (call_method h cleaned r (d, l)).1
  unfolding call_method
  call_method-IsPinned cleaned r d l p =
      if_elim (λ (x : Bool × Db C × Lua N). IsPinned x.1) (d.cleared && needs_userdata h r) (λ _. p)
        (λ _. handle_request-IsPinned cleaned r d l p)

  pub collected-IsPinned :
      (cleaned : Bool) (d : Db C) (l : Lua N) → IsPinned d → IsPinned (collected h cleaned (d, l)).0
  unfolding collected gc
  collected-IsPinned cleaned d l p =
      if_elim (λ (x : Db C × Lua N). IsPinned x.0) (is_unset d.queue_reference)
        (λ _.
          if_elim (λ (x : Db C × Lua N). IsPinned x.0) (d.cleared || cleaned) (λ _. p) (λ _. refl))
        (λ _. p)

  -- A database fresh from `mysql.connect` is held until its connect action is done.
  pub mysql_connect-IsPinned :
      (host user passwd dbname : List ℕ) (port address : ℕ) (l : Lua N)
      → IsPinned (mysql_connect h host user passwd dbname port address l).1
  unfolding mysql_connect
  mysql_connect-IsPinned host user passwd dbname port address l =
      submit_job-IsPinned (connect_action host user passwd dbname port) (new_database h address l).0
        (new_database h address l).1 refl

  abbrev pub KeepsPinned : (Db C × Lua N → Db C × Lua N) → Type 0
  KeepsPinned f = (d : Db C) (l : Lua N) → IsPinned d → IsPinned (f (d, l)).0

  pub at_address-AllPinned :
      (a : ℕ) (f : Db C × Lua N → Db C × Lua N) (ds : List (Db C)) (l : Lua N)
      → KeepsPinned f
      → AllPinned ds
      → AllPinned (at_address h a f ds l).0
  unfolding at_address
  at_address-AllPinned a f [] l k p = tt
  at_address-AllPinned a f (d ∷ ds) l k p =
      ground (arith, k d l, at_address-AllPinned a f ds l k p.1)

  on_address-StatePinned :
      (a : ℕ) (f : Db C × Lua N → Db C × Lua N) (s : State C N)
      → KeepsPinned f
      → StatePinned s
      → StatePinned (on_address h a f s)
  unfolding on_address
  on_address-StatePinned a f s k p =
      if_elim (λ (t : State C N). StatePinned t) (s.db.address == a)
        (λ _. record { at_work = k s.db s.lua p.at_work; behind = p.behind; ahead = p.ahead })
        (λ _. record {
          at_work = p.at_work;
          behind = at_address-AllPinned a f s.before s.lua k p.behind;
          ahead = at_address-AllPinned a f s.after _ k p.ahead;
        })

  run_command-StatePinned :
      (c : Command) (s : State C N) → StatePinned s → StatePinned (run_command h c s)
  unfolding run_command method_at
  run_command-StatePinned (submit a r) s p =
      on_address-StatePinned a (method_at h s.cleaned r) s (call_method-IsPinned s.cleaned r) p
  run_command-StatePinned (connect host user passwd dbname port) s p = record {
    at_work = p.at_work;
    behind = p.behind;
    ahead =
        AllPinned-append s.after _ p.ahead
          (mysql_connect-IsPinned host user passwd dbname port _ s.lua, tt);
  }
  run_command-StatePinned (collect a) s p =
      on_address-StatePinned a (collected h s.cleaned) s (collected-IsPinned s.cleaned) p

  run_commands-StatePinned :
      (cs : List Command) (s : State C N) → StatePinned s → StatePinned (run_commands h cs s)
  unfolding run_commands
  run_commands-StatePinned [] s p = p
  run_commands-StatePinned (c ∷ cs) s p =
      run_commands-StatePinned cs (run_command h c s) (run_command-StatePinned c s p)

  call_held-StatePinned :
      (o : Option (Held N)) (args : Args N) (s : State C N)
      → StatePinned s
      → StatePinned (call_held h o args s).1
  unfolding call_held
  call_held-StatePinned (some (resolver n)) args s p =
      run_commands-StatePinned _ _
        (record { at_work = p.at_work; behind = p.behind; ahead = p.ahead })
  call_held-StatePinned (some (rejecter n)) args s p =
      run_commands-StatePinned _ _
        (record { at_work = p.at_work; behind = p.behind; ahead = p.ahead })
  call_held-StatePinned _ args s p = p

  pub lua_call-StatePinned :
      (f : Ref) (args : Args N) (s : State C N)
      → StatePinned s
      → StatePinned (lua_call h f args s).1
  unfolding lua_call
  lua_call-StatePinned f args s p = call_held-StatePinned (rawgeti f s.lua.registry) args s p
