-- ===== src/Querying.antt =====
-- src/actions/query.h: a query runs through three calls of the client, the second of them once for
-- each row, and gathers the rows in a table that the registry holds.
pub mod Counts
pub mod Reference
use gluamysql.Base.{
  ℕ, ◌-◌, ◌^◌, Bool, true, false, not, ◌&&◌, ◌||◌, Option, none, some, [], ◌∷◌, ◌++◌, ◌==◌,
  if◌then◌else◌,
}
use gluamysql.Int.{to_signed}
use gluamysql.Row.{Row, push_row}
use gluamysql.Lua.{Ref, ResultTable, Held, table, with_table, rawgeti, rawseti}
use gluamysql.Host.{Host, Reply}
use gluamysql.Action.{
  executing, Action, async, Promise, Kind, querying, Query, Stage, at_query, at_fetch, at_free,
  stage_call, empty_table,
}
use gluamysql.Database.{Channel, Db, get_socket_status, check_status}
use gluamysql.Machine.{done, raised, undefined, M, ◌>>=◌, ◌>>◌, pure, modify_db, modify_lua, get_db}
use gluamysql.Async.{written, reject, resolve_with}

-- The member that the call of a stage writes to: `out`, `row`, or none.
unfoldable pub store_out : Stage → Option ℕ → Query → Query
store_out at_query v q = record q { out = written v q.out }
store_out at_fetch v q = record q { row = written v q.row }
store_out at_free v q = q

-- `my_ulonglong` -1, which the client returns for an error.
abbrev pub no_rows : ℕ
no_rows = 2 ^ 64 - 1

-- CR_SERVER_GONE_ERROR and CR_SERVER_LOST
abbrev pub server_gone : ℕ
server_gone = 2006

abbrev pub server_lost : ℕ
server_lost = 2013

-- The action at work is changed in place.
unfoldable pub with_kind : Kind → Option Action → Option Action
with_kind k none = none
with_kind k (some a) = some (record a { kind = k })

unfoldable pub store_kind : {C : Type 0} → Kind → Db C → Db C
unfolding with_kind
store_kind k db = record db { current_action = with_kind k db.current_action }

-- The query at work.
unfoldable pub query_of : Option Action → Option Query
query_of none = none
query_of (some a) = elim a.kind [ querying q ↦ some q | async x ↦ none | executing x ↦ none ]

module _ {C N : Type 0} (h : Host C N) where
  unfoldable pub store_stage : Reply × C → Query → Query × Channel C
  unfolding store_out
  store_stage (reply, c) q =
      (store_out q.stage reply.out q, record { instance = c; socket_state = reply.status })

  -- The first half of `QueryAction::Query`: the call of the stage is begun or taken up again.
  unfoldable pub advance : Query → Channel C → Query × Channel C
  unfolding store_stage get_socket_status check_status
  advance q ch =
      if not q.started
      then (let ch1 = get_socket_status h ch in
          store_stage (h.start (stage_call q) ch1.instance) (record q { started = true }))
      else (let (is_ready, ch1) = check_status h ch in
          if is_ready
          then (let ch2 = get_socket_status h ch1 in
              store_stage (h.cont (stage_call q) ch2.socket_state ch2.instance) q)
          else (q, ch1))

  abbrev pub store : Query → M C N (Unit {0})
  store q = modify_db (store_kind (querying q))

  -- `FinishQuery` with the pointer that `mysql_use_result` returned.
  unfoldable pub have_result : Promise → Query → ℕ → M C N Bool
  unfolding reject store_kind
  have_result p q results =
      if results == 0
      then (do
        store (record q { results = 0 })
        db ← get_db
        if h.field_count db.instance == 0 then pure tt else reject h p none
        pure true)
      else (do store (record q { results = results; stage = at_fetch }); pure false)

  abbrev use_result : M C N ℕ
  use_result s =
      let (r, c) = h.use_result s.db.instance in
      (done r, record s { db = record s.db { channel = record s.db.channel { instance = c } } })

  unfoldable pub finish_query : Promise → Query → M C N Bool
  unfolding have_result reject
  finish_query p q =
      if q.out == 0 then (do r ← use_result; have_result p q r) else (do reject h p none; pure true)

  -- The row goes behind the last one of the table at the reference; an entry that is no table makes
  -- `lua_rawseti` fail.
  unfoldable pub append_to : Ref → Row N → Option (Held N) → M C N (Unit {0})
  append_to ref row (some (table t)) = modify_lua λ l. record l {
    registry = rawseti ref (table (record t { rows = t.rows ++ row ∷ [] })) l.registry;
  }
  append_to ref row _ = λ s. (raised, s)

  unfoldable pub append_row : Ref → Row N → M C N (Unit {0})
  unfolding append_to
  append_row ref row s = append_to ref row (rawgeti ref s.lua.registry) s

  unfoldable pub push_made : Query → Option (Row N) → M C N Bool
  unfolding append_row
  push_made q none = λ s. (undefined, s)
  push_made q (some row) = do append_row q.data_reference row; pure false

  unfoldable pub push_fetched : Query → M C N Bool
  unfolding push_made
  push_fetched q s =
      push_made q
        (push_row h.numbers (h.fields q.results s.db.instance) (h.cells q.row s.db.instance) none) s

  -- `FinishFetch` without a row: the rows have ended, or fetching failed.
  unfoldable pub end_of_rows : Promise → Query → M C N Bool
  unfolding reject store_kind
  end_of_rows p q s =
      (if h.errno s.db.instance == 0
          then (do store (record q { stage = at_free }); pure false)
          else (do reject h p none; pure true))
        s

  unfoldable pub finish_fetch : Promise → Query → M C N Bool
  unfolding push_fetched end_of_rows
  finish_fetch p q = if q.row == 0 then end_of_rows p q else push_fetched q

  unfoldable pub finish_stage : Promise → Query → Stage → M C N Bool
  unfolding finish_query finish_fetch
  finish_stage p q at_query = finish_query p q
  finish_stage p q at_fetch = finish_fetch p q
  finish_stage p q at_free = pure true

  abbrev pub is_lost : ℕ → Bool
  is_lost e = e == server_gone || e == server_lost

  -- What looks like the preparation of a second try.
  unfoldable pub note_retry : Query → M C N (Unit {0})
  unfolding store_kind
  note_retry q = do
    store (record q { has_retried = true })
    modify_lua λ l. record l { registry = rawseti q.data_reference (table empty_table) l.registry }

  unfoldable pub note_query : Option Query → M C N Bool
  unfolding note_retry
  note_query none s = (done true, s)
  note_query (some q) s =
      (if not q.has_retried && is_lost (h.errno s.db.instance)
          then (do note_retry q; pure true)
          else pure true)
        s

  -- `Query` behind a finishing function that returned true: true is returned all the same.
  unfoldable pub note_lost : M C N Bool
  unfolding note_query query_of
  note_lost s = note_query (query_of s.db.current_action) s

  unfoldable pub rewind_query : Option Query → M C N (Unit {0})
  unfolding store_kind
  rewind_query none = pure tt
  rewind_query (some q) = store (record q { started = false })

  -- `started = false`
  unfoldable pub rewind : M C N (Unit {0})
  unfolding rewind_query query_of
  rewind s = rewind_query (query_of s.db.current_action) s

  unfoldable pub after_stage : Bool → M C N Bool
  unfolding note_lost rewind
  after_stage true = note_lost
  after_stage false = do rewind; pure false

  -- The second half of `QueryAction::Query`, on what the finishing function of the stage returned.
  unfoldable pub conclude : Promise → Query → M C N Bool
  unfolding finish_stage after_stage
  conclude p q = do over ← finish_stage p q q.stage; after_stage over

  unfoldable pub run_stage : Promise → Query × Channel C → M C N Bool
  unfolding conclude store_kind
  run_stage p (q, ch) = do
    modify_db (λ d. store_kind (querying q) (record d { channel = ch }))
    if ch.socket_state == 0 then conclude p q else pure false

  -- `QueryAction::Query`
  unfoldable pub query_query : Promise → Query → M C N Bool
  unfolding advance run_stage
  query_query p q s = run_stage p (advance q s.db.channel) s

  -- The entries that `Finish` adds to the table.
  unfoldable pub with_counts : C → ResultTable N → ResultTable N
  with_counts c t =
      let id = h.insert_id c in
      let affected = h.affected_rows c in
      record t {
        last_insert_id =
            if id == 0
            then t.last_insert_id
            else some (h.numbers.of_integer (to_signed h.integer_bits id));
        affected_rows =
            if affected == no_rows
            then t.affected_rows
            else some (h.numbers.of_integer (to_signed h.integer_bits affected));
      }

  unfoldable pub finish_with : Promise → Ref → Option (Held N) → M C N (Unit {0})
  unfolding with_counts resolve_with
  finish_with p ref (some (table t)) s =
      let t' = with_counts s.db.instance t in
      resolve_with h p (with_table t')
        (record s { lua = record s.lua { registry = rawseti ref (table t') s.lua.registry } })
  finish_with p ref _ s = (raised, s)

  -- `QueryAction::Finish` and `ExecuteStatementAction::Finish`, with the reference to the table.
  unfoldable pub finish_table : Promise → Ref → M C N (Unit {0})
  unfolding finish_with
  finish_table p ref s = finish_with p ref (rawgeti ref s.lua.registry) s
