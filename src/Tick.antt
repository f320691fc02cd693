-- ===== src/Tick.antt =====
-- src/luadatabase.cpp and src/luaaction.h: what a database does in one tick (`RunTick`).
pub mod Steps
pub mod Asking
pub mod Runs
pub mod Rule
pub mod Order
pub mod Rounds
pub mod Held
pub mod Once
pub mod Busy
pub mod Fails
pub mod Failing
pub mod Serving
pub mod Drain
pub mod Kept
pub mod Accept
pub mod Session
pub mod Raised
pub mod Stages
pub mod Gathers
pub mod Executes
pub mod Executed
pub mod Refused
pub mod Unasked
use gluamysql.Base.{
  List, ℕ, zero, suc, Bool, true, false, not, ◌&&◌, Option, none, some, [], ◌∷◌, if◌then◌else◌,
}
use gluamysql.Lua.{refnil, unref, is_unset}
use gluamysql.Host.{Host}
use gluamysql.Action.{executing, Promise, Kind, Query, Action, async, querying, Async, free}
use gluamysql.Machine.{modify_db, modify_lua, done, undefined, M, ◌>>=◌, ◌>>◌, pure}
use gluamysql.Async.{query_async, finish_job}
use gluamysql.Querying.{query_query, finish_table, store_kind}
use gluamysql.Executing.{query_exec}

module _ {C N : Type 0} (h : Host C N) where
  -- `LuaActionAsync::Query` in place.
  unfoldable pub query_job : Async → M C N Bool
  unfolding query_async store_kind
  query_job x s =
      let (over, x', ch) = query_async h x s.db.channel in
      (done over, record s { db = store_kind (async x') (record s.db { channel = ch }) })

  -- The virtual function `Query`.
  unfoldable pub query : Promise → Kind → M C N Bool
  unfolding query_job query_query query_exec
  query p (async x) = query_job x
  query p (querying q) = query_query h p q
  query p (executing x) = query_exec h p x

  -- The virtual function `Finish`.
  unfoldable pub finish : Promise → Kind → M C N (Unit {0})
  unfolding finish_job finish_table
  finish p (async x) = finish_job h p x.job x.out
  finish p (querying q) = finish_table h p q.data_reference
  finish p (executing x) = finish_table h p x.reference

  abbrev set_current : Option Action → M C N (Unit {0})
  set_current a = modify_db λ db. record db { current_action = a }

  unfoldable pub do_finish_of : Option Action → M C N (Unit {0})
  unfolding finish
  do_finish_of none = λ s. (undefined, s)
  do_finish_of (some a) =
      if a.has_finished
      then pure tt
      else (do set_current (some (record a { has_finished = true })); finish a.refs a.kind)

  -- `DoFinish` on the action at work.
  unfoldable pub do_finish : M C N (Unit {0})
  unfolding do_finish_of
  do_finish s = do_finish_of s.db.current_action s

  unfoldable pub free_of : Option Action → M C N (Unit {0})
  unfolding free
  free_of none = λ s. (undefined, s)
  free_of (some a) = do modify_lua (free a); set_current none

  -- `current_action->Free(L); current_action = nullptr;`
  unfoldable pub free_current : M C N (Unit {0})
  unfolding free_of
  free_current s = free_of s.db.current_action s

  unfoldable pub next_of : Option Action → List Action → M C N (Option Action)
  next_of (some a) queue = pure (some a)
  next_of none [] = pure none
  next_of none (a ∷ rest) = do
    modify_db λ db. record db { current_action = some a; queue = rest }
    pure (some a)

  -- The next action of the queue becomes the one at work, where there is none; the result is the
  -- action at work, if any.
  unfoldable pub next_action : M C N (Option Action)
  unfolding next_of
  next_action s = next_of s.db.current_action s.db.queue s

  unfoldable pub end_action : Bool → M C N Bool
  unfolding do_finish free_current
  end_action true = do do_finish; free_current; pure true
  end_action false = pure false

  -- The body of the loop on that action; the result is false where it is left by `break`.
  unfoldable pub work : Option Action → M C N Bool
  unfolding query end_action
  work none = pure false
  work (some a) =
      if a.has_finished
      then (do free_current; pure true)
      else (do over ← query a.refs a.kind; end_action over)

  -- The condition `current_action != nullptr`, tested unless the loop was left.
  unfoldable pub test_current : Bool → M C N Bool
  test_current more s =
      (done (more && elim s.db.current_action [ none ↦ false | some _ ↦ true ]), s)

  unfoldable pub round : M C N Bool
  unfolding next_action work test_current
  round = do a ← next_action; more ← work a; test_current more

  unfoldable pub go_on : M C N (Unit {0}) → Bool → M C N (Unit {0})
  go_on rest true = rest
  go_on rest false = pure tt

  -- The loop, on a number of rounds.
  unfoldable pub run_loop : ℕ → M C N (Unit {0})
  unfolding round go_on
  run_loop zero = pure tt
  run_loop (suc rounds) = do again ← round; go_on (run_loop rounds) again

  abbrev pub is_idle : Option Action → List Action → Bool
  is_idle none [] = true
  is_idle none (_ ∷ _) = false
  is_idle (some _) _ = false

  -- With nothing left to do the userdata may be collected again.
  unfoldable pub unpin : M C N (Unit {0})
  unpin s =
      if is_idle s.db.current_action s.db.queue && not (is_unset s.db.queue_reference)
      then (
        done tt,
        record s {
          db = record s.db { queue_reference = refnil };
          lua = record s.lua { registry = unref s.db.queue_reference s.lua.registry };
        },
      )
      else (done tt, s)

  -- `RunTick`; one round of the loop is enough.
  unfoldable pub run_tick : M C N (Unit {0})
  unfolding run_loop unpin
  run_tick = do run_loop 1; unpin
