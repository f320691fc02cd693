-- ===== src/Async.antt =====
-- src/luaactionasync.h and the subclasses of `LuaActionAsync`: one call of the client, begun,
-- taken up again while the socket is ready, and its outcome handed to the promise.
pub mod Close
pub mod Settlement
use gluamysql.Base.{
  ℕ, Bool, true, not, Option, none, some, List, [], ◌∷◌, ◌++◌, ◌==◌, if◌then◌else◌,
}
use gluamysql.Table.{Bytes}
use gluamysql.Lua.{
  Held, weak_statement, Args, nothing, with_database, with_statement, with_error, database,
}
use gluamysql.Host.{Host, Reply}
use gluamysql.Action.{
  Job, Promise, Async, prepare_statement, prepare_statement_close, auto_commit, commit_action,
  rollback_action, ping_action, connect_action, close_action, job_call, lua_l_ref,
}
use gluamysql.Database.{Channel, get_socket_status, check_status, push}
use gluamysql.Machine.{done, raised, undefined, M, ◌>>◌, pure, modify_db, modify_lua, lua_call}

-- What a call wrote through its pointer, if it wrote.
abbrev pub written : Option ℕ → ℕ → ℕ
written none old = old
written (some v) old = v

-- `std::remove` and `erase` of the one element at the place that it returns. The pointers from
-- there on are what the elements moved over them left behind. `none`: the place is the end.
unfoldable pub kept : ℕ → List ℕ → List ℕ
kept x [] = []
kept x (y ∷ ys) = let rest = kept x ys in if y == x then rest else y ∷ rest

unfoldable pub drop_as_long : List ℕ → List ℕ → List ℕ
drop_as_long [] ys = ys
drop_as_long (_ ∷ ks) [] = []
drop_as_long (_ ∷ ks) (_ ∷ ys) = drop_as_long ks ys

unfoldable pub erase_first : List ℕ → List ℕ → Option (List ℕ)
erase_first ks [] = none
erase_first ks (_ ∷ left) = some (ks ++ left)

unfoldable pub erase_removed : ℕ → List ℕ → Option (List ℕ)
unfolding kept drop_as_long erase_first
erase_removed x ys = erase_first (kept x ys) (drop_as_long (kept x ys) ys)

module _ {C N : Type 0} (h : Host C N) where
  -- `Start` and `Continue`: the status is stored, and the out-parameter if the call wrote it.
  unfoldable pub store_reply : Reply × C → Async → Async × Channel C
  store_reply (reply, c) x = (
    record x { out = written reply.out x.out },
    record { instance = c; socket_state = reply.status },
  )

  unfoldable pub start_job : Async → Channel C → Async × Channel C
  unfolding store_reply
  start_job x ch = store_reply (h.start (job_call x.job) ch.instance) x

  unfoldable pub continue_job : Async → Channel C → Async × Channel C
  unfolding store_reply
  continue_job x ch = store_reply (h.cont (job_call x.job) ch.socket_state ch.instance) x

  -- `LuaActionAsync::Query`
  unfoldable pub query_async : Async → Channel C → Bool × Async × Channel C
  unfolding start_job continue_job get_socket_status check_status
  query_async x ch =
      if not x.started
      then (let (x', ch') = start_job (record x { started = true }) (get_socket_status h ch) in
          (ch'.socket_state == 0, x', ch'))
      else (let (is_ready, ch1) = check_status h ch in
          if is_ready
          then (let (x', ch') = continue_job x (get_socket_status h ch1) in
              (ch'.socket_state == 0, x', ch'))
          else (ch1.socket_state == 0, x, ch1))

  -- `LuaAction::Reject`; without a message it is the connection's.
  unfoldable pub reject : Promise → Option Bytes → M C N (Unit {0})
  unfolding lua_call
  reject p message s =
      let c = s.db.instance in
      let text : Bytes = elim message [ none ↦ h.error c | some m ↦ m ] in
      lua_call h p.reject (with_error text (h.errno c)) s

  unfoldable pub resolve_with : Promise → Args N → M C N (Unit {0})
  unfolding lua_call
  resolve_with p args = lua_call h p.resolve args

  unfoldable pub resolve_pushed : Promise → Option (Held N) → M C N (Unit {0})
  unfolding resolve_with
  resolve_pushed p (some (database a)) = resolve_with p (with_database a)
  resolve_pushed p _ = λ s. (raised, s)

  -- The end of `ConnectAction::Finish`: `db->Push` comes after the resolving function is pushed.
  unfoldable pub resolve_database : Promise → M C N (Unit {0})
  unfolding push resolve_pushed
  resolve_database p s = resolve_pushed p (push h s.db s.lua) s

  -- The end of `PrepareStatementAction::Finish`: a weak reference to the userdata is kept.
  unfoldable pub resolve_statement : Promise → ℕ → M C N (Unit {0})
  unfolding resolve_with lua_l_ref
  resolve_statement p stmt = do
    modify_db (λ db. record db { stmts = db.stmts ++ stmt ∷ [] })
    modify_lua (λ l. (lua_l_ref h (weak_statement stmt) l).1)
    resolve_with p (with_statement stmt)

  unfoldable pub put_stmts : Option (List ℕ) → M C N (Unit {0})
  put_stmts none s = (undefined, s)
  put_stmts (some left) s = (done tt, record s { db = record s.db { stmts = left } })

  -- `PrepareStatementCloseAction::Finish`
  unfoldable pub forget_statement : ℕ → M C N (Unit {0})
  unfolding erase_removed put_stmts
  forget_statement stmt s = put_stmts (erase_removed stmt s.db.stmts) s

  unfoldable pub settle : Promise → Bool → M C N (Unit {0}) → M C N (Unit {0})
  unfolding reject
  settle p ok good = if ok then good else reject p none

  -- `ConnectAction::Finish`
  abbrev pub finish_connect : Promise → ℕ → M C N (Unit {0})
  finish_connect p out = settle p (not (out == 0)) (resolve_database p)

  -- `PrepareStatementAction::Finish`
  abbrev pub finish_prepare : Promise → ℕ → ℕ → M C N (Unit {0})
  finish_prepare p stmt out = settle p (out == 0) (resolve_statement p stmt)

  -- `PingAction::Finish`
  abbrev pub finish_ping : Promise → ℕ → M C N (Unit {0})
  finish_ping p out = settle p (out == 0) (resolve_with p nothing)

  -- `Finish` of each subclass, by what its call wrote.
  unfoldable pub finish_job : Promise → Job → ℕ → M C N (Unit {0})
  unfolding settle resolve_with resolve_database resolve_statement forget_statement
  finish_job p (connect_action host user passwd dbname port) out = finish_connect p out
  finish_job p (prepare_statement stmt text) out = finish_prepare p stmt out
  finish_job p (prepare_statement_close stmt) out = forget_statement stmt
  finish_job p close_action out = pure tt
  finish_job p (auto_commit b) out = settle p (out == 0) (resolve_with p nothing)
  finish_job p commit_action out = settle p (out == 0) (resolve_with p nothing)
  finish_job p rollback_action out = settle p (out == 0) (resolve_with p nothing)
  finish_job p ping_action out = finish_ping p out
