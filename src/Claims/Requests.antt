-- ===== src/Claims/Requests.antt =====
-- The claims of a database when it is opened, asked for something or collected.
use gluamysql.Base.{
  ℕ, ◌≡◌, refl, ap, sym, ◌∙◌, Bool, true, false, Option, none, some, List, [], ◌∷◌, ◌++◌, ◌&&◌,
  ◌||◌, arith, if_elim,
}
use gluamysql.Table.{Bytes}
use gluamysql.Lua.{
  Ref, refnil, noref, key, Lua, Held, database, weak_database, rawgeti, entry, unref, is_unset,
}
use gluamysql.Host.{
  Host, FreshKeys, Request, query, prepare, autocommit, commit, rollback, ping, execute,
  collect_statement,
}
use gluamysql.Action.{Action, Job, new_async, lua_l_ref, close_action}
use gluamysql.Database.{Db, push, insert_action}
use gluamysql.Database.Insert.{insert_action_cases}
use gluamysql.Library.{
  submit_job, submit_execute, insert_made, statement_gc, handle_request, needs_userdata,
  call_method, new_database, mysql_connect, gc,
}
use gluamysql.Machine.{collected, method_at}
use gluamysql.Claims.{
  Claim, weakly, strongly, is_weak, is_strong, unmet, weigh, Owned, claims_action, claims_current,
  claims_ref, claims_db,
}
use gluamysql.Claims.Laws.{weigh-append, Owned-part, Owned-same, Owned-drop, Owned-claim}
use gluamysql.Claims.Objects.{
  weigh-queue, weigh-db, weigh-uses, entry-unref_unused, new_async-Owned, new_query-Owned,
  new_execute-Owned,
}

module _ {C N : Type 0} (h : Host C N) (fresh : FreshKeys h) where
  -- What `Push` finds in the weak table is the userdata of the database.
  push-is_strong :
      (a : ℕ) (x : Option (Held N)) (v : Held N)
      → is_weak a x ≡ true
      → elim x as (λ _. Option (Held N)) [ some (weak_database b) ↦ some (database b) | _ ↦ none ]
        ≡ some v
      → is_strong a (some v) ≡ true
  push-is_strong a (some (weak_database b)) v e g = ap (is_strong a) (sym g) ∙ e
  push-is_strong a _ v e g = cc

  pushed_from :
      (f : Ref) (a : ℕ) (r : List (ℕ × Held N)) (v : Held N)
      → weigh (unmet r) (claims_ref weakly f a) ≡ 0
      → elim (rawgeti f r) as (λ _. Option (Held N)) [
        | some (weak_database b) ↦ some (database b)
        | _ ↦ none
      ]
        ≡ some v
      → is_strong a (some v) ≡ true
  unfolding rawgeti
  pushed_from refnil a r v m e = cc
  pushed_from noref a r v m e = cc
  pushed_from (key k) a r v m e = push-is_strong a (entry k r) v (ground arith) e

  pushed :
      (d : Db C) (l : Lua N) (v : Held N)
      → weigh (unmet l.registry) (claims_ref weakly d.reference d.address) ≡ 0
      → push h d l ≡ some v
      → is_strong d.address (some v) ≡ true
  unfolding push
  pushed d l v m e = pushed_from d.reference d.address l.registry v m e

  pinned-Owned :
      (a : Action) (d : Db C) (l : Lua N) (cs : List Claim) (v : Held N)
      → Owned l.registry (claims_action a ++ (claims_db d ++ cs))
      → push h d l ≡ some v
      → Owned (lua_l_ref h v l).1.registry (
          claims_db (record d { queue = d.queue ++ a ∷ []; queue_reference = (lua_l_ref h v l).0 })
          ++ cs)
  unfolding lua_l_ref rawgeti entry
  pinned-Owned a d l cs v o e =
      let k = h.fresh_key l.registry in
      let all = claims_action a ++ (claims_db d ++ cs) in
      let t : Db C = record d { queue = d.queue ++ a ∷ []; queue_reference = key k } in
      let m =
        pushed d l v
          (omega (
            arith,
            o.met,
            weigh-append (unmet l.registry) (claims_action a) (claims_db d ++ cs),
            weigh-db (unmet l.registry) d cs,
          ))
          e in
      Owned-part (claims_db t ++ cs) (claims_ref strongly d.queue_reference d.address)
        (Owned-claim k v (strongly (key k) d.address) all o (fresh l.registry) (ground (arith, m))
          (λ j. refl))
        (λ w. omega (
          arith,
          weigh-append w (claims_action a) (claims_db d ++ cs),
          weigh-db w d cs,
          weigh-db w t cs,
          weigh-queue w d.queue a,
        ))

  -- `InsertAction`: the action and its claims come to the queue, or its claims are left to nobody.
  insert_action-Owned :
      (a : Action) (d : Db C) (l : Lua N) (cs : List Claim)
      → Owned l.registry (claims_action a ++ (claims_db d ++ cs))
      → let (_, e, m) = insert_action h a (d, l) in Owned m.registry (claims_db e ++ cs)
  insert_action-Owned a d l cs o =
      insert_action_cases h a d l (λ x. Owned x.2.registry (claims_db x.1 ++ cs))
        (λ _ _.
          Owned-part (claims_db d ++ cs) (claims_action a) o
            (λ w. weigh-append w (claims_action a) (claims_db d ++ cs)))
        (λ v e. pinned-Owned a d l cs v o e)
        (λ e. Owned-same (claims_db (record d { queue = d.queue ++ a ∷ [] }) ++ cs) o (λ w. omega (
          arith,
          weigh-append w (claims_action a) (claims_db d ++ cs),
          weigh-db w d cs,
          weigh-db w (record d { queue = d.queue ++ a ∷ [] }) cs,
          weigh-queue w d.queue a,
        )))

  new_database-Owned :
      (address : ℕ) (l : Lua N) (cs : List Claim)
      → Owned l.registry cs
      → Owned (new_database h address l).1.registry (claims_db (new_database h address l).0 ++ cs)
  unfolding new_database lua_l_ref rawgeti entry
  new_database-Owned address l cs o =
      let k = h.fresh_key l.registry in
      Owned-claim k (weak_database address) (weakly (key k) address) cs o (fresh l.registry)
        (ground arith) (λ j. refl)

  submit_job-Owned :
      (job : Job) (d : Db C) (l : Lua N) (cs : List Claim)
      → Owned l.registry (claims_db d ++ cs)
      → let (_, e, m) = submit_job h job (d, l) in Owned m.registry (claims_db e ++ cs)
  unfolding submit_job
  submit_job-Owned job d l cs o =
      insert_action-Owned (new_async h job l).0 d (new_async h job l).1 cs
        (new_async-Owned h fresh job l (claims_db d ++ cs) o)

  insert_made-Owned :
      (x : Option Action × Lua N) (d : Db C) (cs : List Claim)
      → Owned x.1.registry (claims_current x.0 ++ (claims_db d ++ cs))
      → let (_, e, m) = insert_made h x d in Owned m.registry (claims_db e ++ cs)
  unfolding insert_made
  insert_made-Owned (none, l) d cs o = o
  insert_made-Owned (some a, l) d cs o = insert_action-Owned a d l cs o

  statement_gc-Owned :
      (cleaned : Bool) (stmt : ℕ) (d : Db C) (l : Lua N) (cs : List Claim)
      → Owned l.registry (claims_db d ++ cs)
      → let (_, e, m) = statement_gc h cleaned stmt (d, l) in Owned m.registry (claims_db e ++ cs)
  unfolding statement_gc
  statement_gc-Owned true stmt d l cs o = o
  statement_gc-Owned false stmt d l cs o = submit_job-Owned _ d l cs o

  handle_request-Owned :
      (cleaned : Bool) (r : Request) (d : Db C) (l : Lua N) (cs : List Claim)
      → Owned l.registry (claims_db d ++ cs)
      → let (_, e, m) = handle_request h cleaned r (d, l) in Owned m.registry (claims_db e ++ cs)
  unfolding handle_request submit_execute
  handle_request-Owned cleaned (query text) d l cs o =
      insert_action-Owned _ d _ cs (new_query-Owned h fresh text l (claims_db d ++ cs) o)
  handle_request-Owned cleaned (prepare text) d l cs o = submit_job-Owned _ _ l cs o
  handle_request-Owned cleaned (autocommit b) d l cs o = submit_job-Owned _ d l cs o
  handle_request-Owned cleaned commit d l cs o = submit_job-Owned _ d l cs o
  handle_request-Owned cleaned rollback d l cs o = submit_job-Owned _ d l cs o
  handle_request-Owned cleaned ping d l cs o = submit_job-Owned _ d l cs o
  handle_request-Owned cleaned (execute stmt args) d l cs o =
      insert_made-Owned _ d cs (new_execute-Owned h fresh stmt _ l (claims_db d ++ cs) o)
  handle_request-Owned cleaned (collect_statement stmt) d l cs o =
      statement_gc-Owned cleaned stmt d l cs o

  -- What calls of methods, and collections, keep, whatever else is claimed.
  abbrev pub KeepsOwned : (Db C × Lua N → Db C × Lua N) → Type 0
  KeepsOwned f =
      (d : Db C) (l : Lua N) (cs : List Claim)
      → Owned l.registry (claims_db d ++ cs)
      → Owned (f (d, l)).1.registry (claims_db (f (d, l)).0 ++ cs)

  pub method_at-Owned : (cleaned : Bool) (r : Request) → KeepsOwned (method_at h cleaned r)
  unfolding method_at call_method
  method_at-Owned cleaned r d l cs o =
      if_elim (λ (x : Bool × Db C × Lua N). Owned x.2.registry (claims_db x.1 ++ cs))
        (d.cleared && needs_userdata h r) (λ _. o) (λ _. handle_request-Owned cleaned r d l cs o)

  -- The weak reference is given back, and the close action queued.
  closing-Owned :
      (d : Db C) (l : Lua N) (cs : List Claim)
      → Owned l.registry (claims_db d ++ cs)
      → let l1 : Lua N = record l { registry = unref d.reference l.registry } in
        let (a, m) = new_async h close_action l1 in
        Owned m.registry (
          claims_db
            (record d { reference = noref; gced = true; cleared = true; queue = d.queue ++ a ∷ [] })
          ++ cs)
  closing-Owned d l cs o =
      let l1 : Lua N = record l { registry = unref d.reference l.registry } in
      let e : Db C = record d { reference = noref } in
      let a = (new_async h close_action l1).0 in
      let t : Db C = record d {
        reference = noref;
        gced = true;
        cleared = true;
        queue = d.queue ++ a ∷ [];
      } in
      let weak = claims_ref weakly d.reference d.address in
      let dropped =
        Owned-drop l1.registry weak (claims_db e ++ cs)
          (Owned-same (weak ++ (claims_db e ++ cs)) o (λ w.
            omega
              (arith, weigh-db w d cs, weigh-db w e cs, weigh-append w weak (claims_db e ++ cs))))
          (λ k u.
            entry-unref_unused d.reference k l.registry
              (omega (arith, u, weigh-uses weakly d.reference d.address k (λ f a. refl)))) in
      Owned-same (claims_db t ++ cs)
        (new_async-Owned h fresh close_action l1 (claims_db e ++ cs) dropped)
        (λ w. omega (
          arith,
          weigh-append w (claims_action a) (claims_db e ++ cs),
          weigh-db w e cs,
          weigh-db w t cs,
          weigh-queue w d.queue a,
        ))

  gc-Owned : (cleaned : Bool) → KeepsOwned (gc h cleaned)
  unfolding gc
  gc-Owned cleaned d l cs o =
      if_elim (λ (x : Db C × Lua N). Owned x.1.registry (claims_db x.0 ++ cs))
        (d.cleared || cleaned) (λ _. o) (λ _. closing-Owned d l cs o)

  pub collected-Owned : (cleaned : Bool) → KeepsOwned (collected h cleaned)
  unfolding collected
  collected-Owned cleaned d l cs o =
      if_elim (λ (x : Db C × Lua N). Owned x.1.registry (claims_db x.0 ++ cs))
        (is_unset d.queue_reference) (λ _. gc-Owned cleaned d l cs o) (λ _. o)

  pub mysql_connect-Owned :
      (host user passwd dbname : Bytes) (port address : ℕ) (l : Lua N) (cs : List Claim)
      → Owned l.registry cs
      → let (_, d, m) = mysql_connect h host user passwd dbname port address l in
        Owned m.registry (claims_db d ++ cs)
  unfolding mysql_connect
  mysql_connect-Owned host user passwd dbname port address l cs o =
      submit_job-Owned _ (new_database h address l).0 (new_database h address l).1 cs
        (new_database-Owned address l cs o)
