-- ===== src/Async/Settlement.antt =====
-- An asynchronous action settles its promise once.
use gluamysql.Base.{ℕ, ◌≡◌, Bool, true, false, not, some, List, ◌∷◌, arith, ◌==◌, if◌then◌else◌}
use gluamysql.Lua.{
  Ref, refnil, noref, key, Held, Args, nothing, with_database, with_statement, with_error, Event,
  resolver, rejecter, database, rawgeti, weak_statement, entry,
}
use gluamysql.Host.{Host, FreshKeys}
use gluamysql.Action.{
  Promise, Job, connect_action, prepare_statement, prepare_statement_close, auto_commit,
  close_action,
}
use gluamysql.Database.{Db, push}
use gluamysql.Machine.{State, M}
use gluamysql.Machine.Log.{lua_call-resolver, lua_call-rejecter}
use gluamysql.Async.{
  finish_job, settle, reject, resolve_with, resolve_database, resolve_pushed, resolve_statement,
}

-- The actions that Lua code holds a promise of.
abbrev pub has_promise : Job → Bool
has_promise (prepare_statement_close stmt) = false
has_promise close_action = false
has_promise _ = true

-- Success, by what the call wrote: a pointer that is not null for a connection, zero otherwise.
abbrev pub succeeded : Job → ℕ → Bool
succeeded (connect_action host user passwd dbname port) out = not (out == 0)
succeeded _ out = out == 0

-- What the promise of a successful action is resolved with.
abbrev pub value_of : {N : Type 0} → Job → ℕ → Args N
value_of (connect_action host user passwd dbname port) a = with_database a
value_of (prepare_statement stmt text) a = with_statement stmt
value_of _ a = nothing

module _ {C N : Type 0} (h : Host C N) where
  abbrev pub settlement : ℕ → Job → ℕ → Db C → Event N
  settlement n j out db =
      if succeeded j out
      then record { promise = n; success = true; args = value_of j db.address }
      else record {
        promise = n;
        success = false;
        args = with_error (h.error db.instance) (h.errno db.instance);
      }

  settle-log :
      (p : Promise) (ok : Bool) (good : M C N (Unit {0})) (s : State C N) (n : ℕ) (v : Args N)
      → rawgeti p.reject s.lua.registry ≡ some (rejecter n)
      → (good s).1.lua.log ≡ record { promise = n; success = true; args = v } ∷ s.lua.log
      → (settle h p ok good s).1.lua.log
        ≡ (if ok then record { promise = n; success = true; args = v } else record {
          promise = n;
          success = false;
          args = with_error (h.error s.db.instance) (h.errno s.db.instance);
        })
          ∷ s.lua.log
  unfolding settle reject
  settle-log p true good s n v r g = g
  settle-log p false good s n v r g = lua_call-rejecter h p.reject _ s n r

  fresh-rawgeti :
      (fresh : FreshKeys h) (f : Ref) (r : List (ℕ × Held N)) (v w : Held N)
      → rawgeti f r ≡ some v
      → rawgeti f ((h.fresh_key r, w) ∷ r) ≡ some v
  unfolding rawgeti entry
  fresh-rawgeti fresh refnil r v w e = e
  fresh-rawgeti fresh noref r v w e = e
  fresh-rawgeti fresh (key k) r v w e = ground (arith, fresh r)

  -- If the references of the promise hold its two functions, keys from luaL_ref are fresh and the
  -- userdata of the database can be pushed, then finishing an action that Lua code holds a promise
  -- of makes exactly one call into Lua code: it resolves the promise with the action's value if the
  -- client's call succeeded, and rejects it with the connection's error and its number if not.
  pub finish_job-log :
      (fresh : FreshKeys h) (p : Promise) (j : Job) (out n : ℕ) (s : State C N)
      → has_promise j ≡ true
      → rawgeti p.resolve s.lua.registry ≡ some (resolver n)
      → rawgeti p.reject s.lua.registry ≡ some (rejecter n)
      → push h s.db s.lua ≡ some (database s.db.address)
      → (finish_job h p j out s).1.lua.log ≡ settlement n j out s.db ∷ s.lua.log
  unfolding finish_job resolve_with
  finish_job-log fresh p (connect_action host user passwd dbname port) out n s t e r d =
      settle-log p (not (out == 0)) (resolve_database h p) s n _ r
        (unfold resolve_database in rw (d, resolve_pushed) (lua_call-resolver h p.resolve _ s n e))
  finish_job-log fresh p (prepare_statement stmt text) out n s t e r d =
      settle-log p (out == 0) (resolve_statement h p stmt) s n _ r (
        unfold resolve_statement in
        lua_call-resolver h p.resolve _ _ n
          (fresh-rawgeti fresh p.resolve s.lua.registry (resolver n) (weak_statement stmt) e))
  finish_job-log fresh p (prepare_statement_close stmt) out n s t e r d = cc
  finish_job-log fresh p close_action out n s t e r d = cc
  finish_job-log fresh p (auto_commit b) out n s t e r d =
      settle-log p (out == 0) (resolve_with h p nothing) s n _ r
        (lua_call-resolver h p.resolve _ s n e)
  finish_job-log fresh p _ out n s t e r d =
      settle-log p (out == 0) (resolve_with h p nothing) s n _ r
        (lua_call-resolver h p.resolve _ s n e)
