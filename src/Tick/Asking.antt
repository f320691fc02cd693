-- ===== src/Tick/Asking.antt =====
-- What happens while `Query` of a query runs, cut into steps; the table of its rows stays the same.
use gluamysql.Base.{
  ℕ, ◌≡◌, refl, sym, ap, ◌∙◌, Bool, true, false, Option, none, some, ◌==◌, if◌then◌else◌, arith,
}
use gluamysql.Row.{Row}
use gluamysql.Lua.{Ref, Held, table, rawgeti}
use gluamysql.Host.{Host}
use gluamysql.Action.{
  async, executing, empty_table, Action, Promise, Kind, querying, Query, Stage, at_query, at_fetch,
  at_free,
}
use gluamysql.Database.{Channel}
use gluamysql.Machine.{State, ◌>>◌, pure}
use gluamysql.Async.{reject}
use gluamysql.Querying.{
  with_kind, store_kind, query_of, have_result, finish_query, append_to, append_row, push_made,
  push_fetched, end_of_rows, finish_fetch, finish_stage, note_retry, note_query, note_lost,
  rewind_query, rewind, after_stage, conclude, run_stage,
}
use gluamysql.Tick.Steps.{
  refs_of, table_of, table_at, Steps, own, then_, nothing_new, writes, Local-lua, Local-channel,
  Steps-table, Runs, idle, Runs-bind, Runs-if, Runs-pure, Runs-reject,
}

refs_of-with_kind : (k : Kind) (o : Option Action) → refs_of (with_kind k o) ≡ refs_of o
unfolding with_kind
refs_of-with_kind k none = refl
refs_of-with_kind k (some a) = refl

-- The kind of the action at work is stored, and its table stays the same.
table_at-with_kind :
    (k : Kind) (o : Option Action) → table_at o ≡ table_of k → table_at (with_kind k o) ≡ table_at o
unfolding with_kind
table_at-with_kind k none e = refl
table_at-with_kind k (some a) e = sym e

table_at-query_of :
    (o : Option Action) (q : Query) → query_of o ≡ some q → table_at o ≡ some q.data_reference
unfolding query_of
table_at-query_of none q e = cc
table_at-query_of (some a) q e = by_kind a.kind e
  where
    by_kind :
        (k : Kind)
        → elim k as (λ _. Option Query) [
          | querying y ↦ some y
          | async x ↦ none
          | executing x ↦ none
        ]
          ≡ some q
        → table_of k ≡ some q.data_reference
    by_kind (querying y) e =
        ap (λ o. elim o as (λ _. Option Ref) [ none ↦ none | some z ↦ some z.data_reference ]) e
    by_kind (async x) e = cc
    by_kind (executing x) e = cc

module _ {C N : Type 0} (h : Host C N) (ref : Option Ref) where
  -- The action at work is stored, and the connection changed by a call.
  pub Runs-store :
      (k : Kind) (ch : Channel C) (s : State C N)
      → table_of k ≡ ref
      → table_at s.db.current_action ≡ ref
      → Steps h s (record s { db = store_kind k (record s.db { channel = ch }) })
  unfolding store_kind
  Runs-store k ch s e w =
      own
        (ground (
          arith,
          refs_of-with_kind k s.db.current_action,
          table_at-with_kind k s.db.current_action (w ∙ sym e),
        ))
        (nothing_new refl)

  pub Runs-append_to :
      (f : Ref) (row : Row N) (o : Option (Held N))
      → some f ≡ ref
      → Runs h ref (append_to h f row o)
  unfolding append_to
  Runs-append_to f row (some (table t)) e s w = own (Local-lua s _) (writes f _ (w ∙ sym e) refl)
  Runs-append_to f row _ e s w = idle h ref s

  Runs-rejected : (p : Promise) → Runs h ref (do reject h p none; pure true)
  Runs-rejected p =
      Runs-bind h ref (reject h p none) (λ _. pure true) (Runs-reject h ref p none)
        (λ _. Runs-pure h ref true)

  Runs-no_result :
      (p : Promise) (b : Bool) → Runs h ref (do if b then pure tt else reject h p none; pure true)
  Runs-no_result p b =
      Runs-bind h ref (if b then pure tt else reject h p none) (λ _. pure true)
        (Runs-if h ref b (pure tt) (reject h p none) (Runs-pure h ref tt)
          (Runs-reject h ref p none))
        (λ _. Runs-pure h ref true)

  module _ (q : Query) (w : some q.data_reference ≡ ref) where
    pub Runs-push_made : (o : Option (Row N)) → Runs h ref (push_made h q o)
    unfolding push_made append_row
    Runs-push_made none s e = idle h ref s
    Runs-push_made (some row) s e =
        Runs-bind h ref (append_row h q.data_reference row) (λ _. pure false)
          (λ t f.
            Runs-append_to q.data_reference row (rawgeti q.data_reference t.lua.registry) w t f)
          (λ _. Runs-pure h ref false) s e

    pub Runs-have_result : (p : Promise) (r : ℕ) → Runs h ref (have_result h p q r)
    unfolding have_result
    Runs-have_result p r =
        Runs-if h ref (r == 0) _ _
          (λ s e.
            let x = Runs-store (querying (record q { results = 0 })) s.db.channel s w e in
            then_ x (Runs-no_result p _ _ (Steps-table h x ∙ e)))
          (λ s e.
            Runs-store (querying (record q { results = r; stage = at_fetch })) s.db.channel s w e)

    Runs-finish_query : (p : Promise) → Runs h ref (finish_query h p q)
    unfolding finish_query
    Runs-finish_query p =
        Runs-if h ref (q.out == 0) _ _
          (λ s e. then_ (own (Local-channel s _) (nothing_new refl)) (Runs-have_result p _ _ e))
          (Runs-rejected p)

    Runs-end_of_rows : (p : Promise) → Runs h ref (end_of_rows h p q)
    unfolding end_of_rows
    Runs-end_of_rows p s =
        Runs-if h ref (h.errno s.db.instance == 0) _ (do reject h p none; pure true)
          (λ t e. Runs-store (querying (record q { stage = at_free })) t.db.channel t w e)
          (Runs-rejected p) s

    pub Runs-finish_stage : (p : Promise) (st : Stage) → Runs h ref (finish_stage h p q st)
    unfolding finish_stage finish_fetch push_fetched
    Runs-finish_stage p at_query = Runs-finish_query p
    Runs-finish_stage p at_fetch =
        Runs-if h ref (q.row == 0) _ _ (Runs-end_of_rows p) (λ s. Runs-push_made _ s)
    Runs-finish_stage p at_free = Runs-pure h ref true

    Runs-note_retry : Runs h ref (do note_retry h q; pure true)
    unfolding note_retry
    Runs-note_retry s e =
        let p = Runs-store (querying (record q { has_retried = true })) s.db.channel s w e in
        then_ p (
          own (Local-lua _ _)
            (writes q.data_reference empty_table (Steps-table h p ∙ e ∙ sym w) refl))

  pub Runs-note_query :
      (o : Option Query) (s : State C N)
      → query_of s.db.current_action ≡ o
      → table_at s.db.current_action ≡ ref
      → Steps h s (note_query h o s).1
  unfolding note_query note_retry
  Runs-note_query none s i e = idle h ref s
  Runs-note_query (some q) s i e =
      Runs-if h ref _ (do note_retry h q; pure true) (pure true)
        (Runs-note_retry q (sym (table_at-query_of s.db.current_action q i) ∙ e))
        (Runs-pure h ref true) s e

  Runs-rewind_query :
      (o : Option Query) (s : State C N)
      → query_of s.db.current_action ≡ o
      → table_at s.db.current_action ≡ ref
      → Steps h s (rewind_query h o s).1
  unfolding rewind_query
  Runs-rewind_query none s i e = idle h ref s
  Runs-rewind_query (some q) s i e =
      Runs-store (querying (record q { started = false })) s.db.channel s
        (sym (table_at-query_of s.db.current_action q i) ∙ e) e

  pub Runs-rewind : Runs h ref (rewind h)
  unfolding rewind
  Runs-rewind s e = Runs-rewind_query (query_of s.db.current_action) s refl e

  Runs-after_stage : (over : Bool) → Runs h ref (after_stage h over)
  unfolding after_stage note_lost
  Runs-after_stage true s e = Runs-note_query (query_of s.db.current_action) s refl e
  Runs-after_stage false s e =
      Runs-bind h ref (rewind h) (λ _. pure false) Runs-rewind (λ _. Runs-pure h ref false) s e

  pub Runs-conclude :
      (p : Promise) (q : Query) → some q.data_reference ≡ ref → Runs h ref (conclude h p q)
  unfolding conclude
  Runs-conclude p q w =
      Runs-bind h ref (finish_stage h p q q.stage) (after_stage h) (Runs-finish_stage q w p q.stage)
        Runs-after_stage

  pub Runs-run_stage :
      (p : Promise) (x : Query × Channel C)
      → some x.0.data_reference ≡ ref
      → Runs h ref (run_stage h p x)
  unfolding run_stage
  Runs-run_stage p (q, ch) w s e =
      let x = Runs-store (querying q) ch s w e in
      then_ x (
        Runs-if h ref (ch.socket_state == 0) (conclude h p q) (pure false) (Runs-conclude p q w)
          (Runs-pure h ref false) _ (Steps-table h x ∙ e))
