-- ===== src/Tick/Fails.antt =====
-- The stages of a query that fails: its rejection, the mark of a lost connection, and its end.
use gluamysql.Base.{ℕ, ◌≡◌, ◌≢◌, refl, Bool, true, false, not, ◌&&◌, none, some, ◌==◌}
use gluamysql.Lua.{
  Ref, Lua, Held, ResultTable, Event, with_error, table, resolver, rejecter, rawgeti, rawseti,
}
use gluamysql.Lua.Registry.{rawgeti-rawseti_other, rawgeti-rawseti_same}
use gluamysql.Host.{Host}
use gluamysql.Action.{Promise, querying, Query, Stage, at_query, at_fetch, at_free, empty_table}
use gluamysql.Machine.{State, done, pure}
use gluamysql.Machine.Quiet.{bind_done, Quiet, logged, lua_call-rejecter_quiet}
use gluamysql.Async.{reject}
use gluamysql.Querying.{
  is_lost, finish_stage, finish_query, finish_fetch, end_of_rows, note_lost, note_query, note_retry,
  query_of, store_kind, with_kind,
}
use gluamysql.Tick.Busy.{resolver-ne-table, at_work}

-- The action at work.
abbrev pub working : {C N : Type 0} → Promise → Query → State C N → State C N
working p q s = at_work p (querying q) s

-- What the client reported when the call of a stage was done is an error.
pub data Fails {C N : Type 0} (h : Host C N) (c : C) (q : Query) : Type 0 where
  in_query : q.stage ≡ at_query → (q.out == 0) ≡ false → Fails h c q
  in_fetch : q.stage ≡ at_fetch → (q.row == 0) ≡ true → (h.errno c == 0) ≡ false → Fails h c q

-- The registry holds the functions of the promise and the table of the rows.
pub record IsHeld {C N : Type 0} (n : ℕ) (p : Promise) (ref : Ref) (s : State C N) : Type 0 where
  pub resolves : rawgeti p.resolve s.lua.registry ≡ some (resolver n)
  pub rejects : rawgeti p.reject s.lua.registry ≡ some (rejecter n)
  pub rows : ResultTable N
  pub gathers : rawgeti ref s.lua.registry ≡ some (table rows)

rejecter-ne-table :
    {N : Type 0} (n : ℕ) (t : ResultTable N) → ◌≢◌ {A = Held N} (rejecter n) (table t)
rejecter-ne-table n t = λ e. cc

module _ {C N : Type 0} (h : Host C N) (quiet : Quiet h) where
  abbrev pub rejection : ℕ → C → Event N
  rejection n c = record { promise = n; success = false; args = with_error (h.error c) (h.errno c) }

  reject_quiet :
      (p : Promise) (n : ℕ) (s : State C N)
      → rawgeti p.reject s.lua.registry ≡ some (rejecter n)
      → reject h p none s ≡ (done tt, logged (rejection n s.db.instance) s)
  unfolding reject
  reject_quiet p n s e = lua_call-rejecter_quiet h quiet p.reject _ s n e

  pub failing_stage :
      (p : Promise) (q : Query) (st : Stage) (n : ℕ) (s : State C N)
      → q.stage ≡ st
      → Fails h s.db.instance q
      → rawgeti p.reject s.lua.registry ≡ some (rejecter n)
      → finish_stage h p q st s ≡ (done true, logged (rejection n s.db.instance) s)
  unfolding finish_stage finish_query finish_fetch end_of_rows
  failing_stage p q at_query n s e (in_query _ f) r =
      rw f (bind_done (reject h p none) (λ _. pure true) s _ tt (reject_quiet p n s r))
  failing_stage p q at_fetch n s e (in_query g f) r = cc
  failing_stage p q at_free n s e (in_query g f) r = cc
  failing_stage p q at_query n s e (in_fetch g f k) r = cc
  failing_stage p q at_fetch n s e (in_fetch g f k) r =
      rw (f, k) (bind_done (reject h p none) (λ _. pure true) s _ tt (reject_quiet p n s r))
  failing_stage p q at_free n s e (in_fetch g f k) r = cc

  -- What `note_lost` leaves: the action at work may be marked, and its table may be a new one.
  pub record Noted (n : ℕ) (p : Promise) (ref : Ref) (s : State C N) : Type 0 where
    pub after : Query
    pub same_ref : after.data_reference ≡ ref
    pub lua : Lua N
    pub same_log : lua.log ≡ s.lua.log
    pub noted : note_lost h s ≡ (done true, working p after (record s { lua = lua }))
    pub resolves : rawgeti p.resolve lua.registry ≡ some (resolver n)
    pub rows : ResultTable N
    pub gathers : rawgeti ref lua.registry ≡ some (table rows)

  pub note_lost-Noted :
      (p : Promise) (q : Query) (n : ℕ) (s : State C N)
      → IsHeld n p q.data_reference s
      → Noted n p q.data_reference (working p q s)
  unfolding note_lost note_query note_retry query_of store_kind with_kind
  note_lost-Noted p q n s w = by_test (not q.has_retried && is_lost h (h.errno s.db.instance)) refl
    where
      by_test :
          (b : Bool)
          → (not q.has_retried && is_lost h (h.errno s.db.instance)) ≡ b
          → Noted n p q.data_reference (working p q s)
      by_test false e = record {
        after = q;
        same_ref = refl;
        lua = s.lua;
        same_log = refl;
        noted = rw e refl;
        resolves = w.resolves;
        rows = w.rows;
        gathers = w.gathers;
      }
      by_test true e = record {
        after = record q { has_retried = true };
        same_ref = refl;
        lua = record s.lua {
          registry = rawseti q.data_reference (table empty_table) s.lua.registry;
        };
        same_log = refl;
        noted = rw e refl;
        resolves =
            rawgeti-rawseti_other p.resolve q.data_reference _ s.lua.registry w.resolves w.gathers
              (resolver-ne-table n w.rows);
        rows = empty_table;
        gathers = rawgeti-rawseti_same q.data_reference _ s.lua.registry w.gathers;
      }
