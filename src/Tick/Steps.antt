-- ===== src/Tick/Steps.antt =====
-- What happens while `Query`, `Finish` and `Free` run, cut into steps: a step of the module's own,
-- which leaves the queue alone, or a call into Lua code.
use gluamysql.Base.{
  ℕ, ◌≡◌, refl, ap, ◌∙◌, Bool, not, Option, none, some, List, ◌==◌, if◌then◌else◌, if_elim, arith,
}
use gluamysql.Lua.{Ref, Lua, Held, table, database, Args, nothing, rawseti, ResultTable}
use gluamysql.Host.{Host}
use gluamysql.Action.{
  async, executing, lua_l_ref, Action, Promise, Kind, querying, Job, connect_action,
  prepare_statement, prepare_statement_close, close_action,
}
use gluamysql.Database.{Channel, push}
use gluamysql.Machine.{State, Outcome, done, raised, undefined, M, ◌>>=◌, pure, lua_call}
use gluamysql.Machine.Growth.{lua_call-Grows}
use gluamysql.Async.{
  reject, resolve_with, resolve_pushed, resolve_database, resolve_statement, put_stmts,
  erase_removed, forget_statement, settle, finish_job,
}

-- The promise of an action, if there is one, by which the action is known.
abbrev pub refs_of : Option Action → Option Promise
refs_of none = none
refs_of (some a) = some a.refs

-- The reference to the table of an action's rows.
abbrev pub table_of : Kind → Option Ref
table_of (async x) = none
table_of (querying q) = some q.data_reference
table_of (executing x) = some x.reference

abbrev pub table_at : Option Action → Option Ref
table_at none = none
table_at (some a) = table_of a.kind

-- The module's own changes: what the queue, the references to the userdata and the other databases
-- are concerned with stays as it is, and an action at work stays at work.
pub record Local {C N : Type 0} (s t : State C N) : Type 0 where
  pub same_queue : t.db.queue ≡ s.db.queue
  pub same_pin : t.db.queue_reference ≡ s.db.queue_reference
  pub same_address : t.db.address ≡ s.db.address
  pub same_gced : t.db.gced ≡ s.db.gced
  pub same_refs : refs_of t.db.current_action ≡ refs_of s.db.current_action
  pub same_table : table_at t.db.current_action ≡ table_at s.db.current_action
  pub same_reference : t.db.reference ≡ s.db.reference
  pub same_before : t.before ≡ s.before
  pub same_after : t.after ≡ s.after
  pub same_cleaned : t.cleaned ≡ s.cleaned

-- What they do to the registry: nothing, or the table of the action at work is written, or a value
-- comes under a new key.
pub data Touches {C N : Type 0} (h : Host C N) (s t : State C N) : Type 0 where
  nothing_new : t.lua.registry ≡ s.lua.registry → Touches h s t
  writes :
      (f : Ref) (v : ResultTable N)
      → table_at s.db.current_action ≡ some f
      → t.lua.registry ≡ rawseti f (table v) s.lua.registry
      → Touches h s t
  adds : (v : Held N) → t.lua.registry ≡ (lua_l_ref h v s.lua).1.registry → Touches h s t

pub data Steps {C N : Type 0} (h : Host C N) : State C N → State C N → Type 0 where
  own : {s t : State C N} → Local s t → Touches h s t → Steps h s t
  lua : (f : Ref) (args : Args N) (s : State C N) → Steps h s (lua_call h f args s).1
  then_ : {s t u : State C N} → Steps h s t → Steps h t u → Steps h s u

Local-refl : {C N : Type 0} (s : State C N) → Local s s
Local-refl s = ground arith

pub Local-stmts :
    {C N : Type 0} (s : State C N) (stmts : List ℕ) (l : Lua N)
    → Local s (record s { db = record s.db { stmts = stmts }; lua = l })
Local-stmts s stmts l = ground arith

pub Local-lua : {C N : Type 0} (s : State C N) (l : Lua N) → Local s (record s { lua = l })
Local-lua s l = ground arith

pub Local-channel :
    {C N : Type 0} (s : State C N) (ch : Channel C)
    → Local s (record s { db = record s.db { channel = ch } })
Local-channel s ch = ground arith

pub Steps-table :
    {C N : Type 0} (h : Host C N) {s t : State C N}
    → Steps h s t
    → table_at t.db.current_action ≡ table_at s.db.current_action
Steps-table h (own l x) = l.same_table
Steps-table h (lua f args s) = ap table_at (lua_call-Grows h f args s).current
Steps-table h (then_ p q) = Steps-table h q ∙ Steps-table h p

module _ {C N : Type 0} (h : Host C N) (ref : Option Ref) where
  -- The action at work has this table.
  abbrev pub Runs : {A : Type 0} → M C N A → Type 0
  Runs m = (s : State C N) → table_at s.db.current_action ≡ ref → Steps h s (m s).1

  pub idle : (s : State C N) → Steps h s s
  idle s = own (Local-refl s) (nothing_new refl)

  bind-Steps :
      {A B : Type 0} (f : A → M C N B) (s t : State C N) (r : Outcome A)
      → table_at s.db.current_action ≡ ref
      → Steps h s t
      → ((a : A) → Runs (f a))
      → Steps h s
          (elim r as (λ x. Outcome B × State C N) [
            | done a ↦ f a t
            | raised ↦ (raised, t)
            | undefined ↦ (undefined, t)
          ]).1
  bind-Steps f s t (done a) e p q = then_ p (q a t (Steps-table h p ∙ e))
  bind-Steps f s t raised e p q = p
  bind-Steps f s t undefined e p q = p

  pub Runs-bind :
      {A B : Type 0} (m : M C N A) (f : A → M C N B)
      → Runs m
      → ((a : A) → Runs (f a))
      → Runs (m >>= f)
  Runs-bind m f p q s e = bind-Steps f s (m s).1 (m s).0 e (p s e) q

  pub Runs-if :
      {A : Type 0} (b : Bool) (m n : M C N A) → Runs m → Runs n → Runs (if b then m else n)
  Runs-if {A} b m n p q = if_elim (λ (x : M C N A). Runs x) b (λ _. p) (λ _. q)

  pub Runs-pure : {A : Type 0} (a : A) → Runs (pure a)
  Runs-pure a s e = idle s

  pub Runs-reject : (p : Promise) (m : Option (List ℕ)) → Runs (reject h p m)
  unfolding reject
  Runs-reject p m s e = lua _ _ s

  pub Runs-resolve_with : (p : Promise) (args : Args N) → Runs (resolve_with h p args)
  unfolding resolve_with
  Runs-resolve_with p args s e = lua p.resolve args s

  Runs-resolve_pushed : (p : Promise) (o : Option (Held N)) → Runs (resolve_pushed h p o)
  unfolding resolve_pushed
  Runs-resolve_pushed p (some (database a)) = Runs-resolve_with p _
  Runs-resolve_pushed p _ = λ s e. idle s

  Runs-resolve_statement : (p : Promise) (stmt : ℕ) → Runs (resolve_statement h p stmt)
  unfolding resolve_statement
  Runs-resolve_statement p stmt s e =
      then_ (own (Local-stmts s _ _) (adds _ refl)) (Runs-resolve_with p _ _ e)

  Runs-put_stmts : (o : Option (List ℕ)) → Runs (put_stmts h o)
  unfolding put_stmts
  Runs-put_stmts none s e = idle s
  Runs-put_stmts (some left) s e = own (ground arith) (nothing_new refl)

  Runs-settle : (p : Promise) (ok : Bool) (m : M C N (Unit {0})) → Runs m → Runs (settle h p ok m)
  unfolding settle
  Runs-settle p ok m r = Runs-if ok m (reject h p none) r (Runs-reject p none)

  pub Runs-finish_job : (p : Promise) (j : Job) (out : ℕ) → Runs (finish_job h p j out)
  unfolding finish_job
  Runs-finish_job p (connect_action host user passwd dbname port) out =
      Runs-settle p (not (out == 0)) (resolve_database h p)
        (unfold resolve_database in λ s e. Runs-resolve_pushed p (push h s.db s.lua) s e)
  Runs-finish_job p (prepare_statement stmt text) out =
      Runs-settle p _ _ (Runs-resolve_statement p stmt)
  Runs-finish_job p (prepare_statement_close stmt) out =
      unfold forget_statement in λ s e. Runs-put_stmts (erase_removed stmt s.db.stmts) s e
  Runs-finish_job p close_action out = Runs-pure tt
  Runs-finish_job p _ out = Runs-settle p _ _ (Runs-resolve_with p nothing)
