-- ===== src/Claims/Ticks.antt =====
-- A tick keeps the claims of all databases.
use gluamysql.Base.{
  ℕ, ◌+◌, ◌≡◌, refl, ap, sym, subst, ◌∙◌, true, not, ◌&&◌, Option, none, some, List, [], ◌∷◌, ◌++◌,
  arith, if_elim,
}
use gluamysql.Lua.{
  Ref, refnil, noref, key, Held, ResultTable, table, rawgeti, rawseti, unref, entry, is_unset,
}
use gluamysql.Lua.Registry.{entry-remove}
use gluamysql.Host.{Host, FreshKeys}
use gluamysql.Action.{Action, Promise, Kind, async, querying, executing, free}
use gluamysql.Database.{Db}
use gluamysql.Machine.{State, Outcome}
use gluamysql.Tick.{next_of, next_action, unpin, is_idle, run_tick}
use gluamysql.Tick.Steps.{refs_of, table_of, table_at, Local, Touches, nothing_new, writes, adds}
use gluamysql.Tick.Rule.{IsRule, at_current, run_tick_rule}
use gluamysql.Claims.{
  Claim, promise_of, rows_at, strongly, at_ref, is_table, weigh, Owned, claims_kind, claims_action,
  claims_current, claims_queue, claims_ref, claims_db, claims_dbs,
}
use gluamysql.Claims.Laws.{weigh-append, Owned-same, Owned-drop, Owned-change}
use gluamysql.Claims.Objects.{weigh-db, weigh-uses, free-Owned, entry-unref_unused, lua_l_ref-Owned}
use gluamysql.Claims.Commands.{claims_state, AllOwned, lua_call-Owned}

-- The claims of an action, by its promise and its table.
abbrev pub claims_of : Option Promise → Option Ref → List Claim
claims_of none t = []
claims_of (some p) none = promise_of p ∷ []
claims_of (some p) (some f) = promise_of p ∷ rows_at f ∷ []

pub claims_current_lem : (o : Option Action) → claims_current o ≡ claims_of (refs_of o) (table_at o)
claims_current_lem none = refl
claims_current_lem (some a) = by_kind a.kind
  where
    by_kind : (k : Kind) → promise_of a.refs ∷ claims_kind k ≡ claims_of (some a.refs) (table_of k)
    by_kind (async x) = refl
    by_kind (querying q) = refl
    by_kind (executing x) = refl

Local-claims : {C N : Type 0} (s t : State C N) → Local s t → claims_state t ≡ claims_state s
Local-claims s t l =
    rw
      (
        l.same_queue,
        l.same_pin,
        l.same_address,
        l.same_reference,
        l.same_before,
        l.same_after,
        claims_current_lem t.db.current_action,
        claims_current_lem s.db.current_action,
        l.same_refs,
        l.same_table,
      )
      refl

-- The action at work claims its table, besides its promise.
abbrev own_promise : Option Promise → List Claim
own_promise none = []
own_promise (some p) = promise_of p ∷ []

weigh-table :
    (w : Claim → ℕ) (o : Option Action) (f : Ref)
    → table_at o ≡ some f
    → weigh w (claims_current o) ≡ w (rows_at f) + weigh w (own_promise (refs_of o))
weigh-table w none f e = cc
weigh-table w (some a) f e =
    ap (weigh w) (claims_current_lem (some a) ∙ ap (claims_of (some a.refs)) e) ∙ omega arith

module _ {N : Type 0} where
  entry-rawseti_unused :
      (f : Ref) (k : ℕ) (v : Held N) (r : List (ℕ × Held N))
      → at_ref k f ≡ 0
      → entry k (rawseti f v r) ≡ entry k r
  unfolding rawseti entry
  entry-rawseti_unused refnil k v r e = refl
  entry-rawseti_unused noref k v r e = refl
  entry-rawseti_unused (key j) k v r e = ground (arith, entry-remove j k r)

  rawseti-is_table :
      (f : Ref) (t : ResultTable N) (r : List (ℕ × Held N))
      → is_table (rawgeti f r) ≡ true
      → is_table (rawgeti f (rawseti f (table t) r)) ≡ true
  unfolding rawgeti rawseti entry
  rawseti-is_table refnil t r e = cc
  rawseti-is_table noref t r e = cc
  rawseti-is_table (key j) t r e = ground arith

  written-Owned :
      (f : Ref) (t : ResultTable N) (r : List (ℕ × Held N)) (cs : List Claim)
      → Owned r (rows_at f ∷ cs)
      → Owned (rawseti f (table t) r) (rows_at f ∷ cs)
  written-Owned f t r cs o =
      Owned-change _ (rows_at f) cs o (λ k e. entry-rawseti_unused f k (table t) r e)
        (rawseti-is_table f t r (ground (arith, o.met)))

module _ {C N : Type 0} (h : Host C N) (fresh : FreshKeys h) where
  touched-Owned : (s t : State C N) → Local s t → Touches h s t → AllOwned s → AllOwned t
  touched-Owned s t l (nothing_new e) o =
      subst (λ cs. Owned t.lua.registry cs) (sym (Local-claims s t l))
        (subst (λ r. Owned r (claims_state s)) (sym e) o)
  touched-Owned s t l (adds v e) o =
      subst (λ cs. Owned t.lua.registry cs) (sym (Local-claims s t l))
        (subst (λ r. Owned r (claims_state s)) (sym e) (lua_l_ref-Owned h fresh v s.lua _ o))
  touched-Owned s t l (writes f v i e) o =
      let rest =
        own_promise (refs_of s.db.current_action)
        ++ (claims_db (record s.db { current_action = none })
            ++ (claims_dbs s.before ++ claims_dbs s.after)) in
      let same = λ (w : Claim → ℕ). written_last s f i w in
      subst (λ cs. Owned t.lua.registry cs) (sym (Local-claims s t l))
        (subst (λ r. Owned r (claims_state s)) (sym e)
          (Owned-same (claims_state s)
            (written-Owned f v s.lua.registry rest (Owned-same (rows_at f ∷ rest) o same))
            (λ w. sym (same w))))
    where
      written_last :
          (s : State C N) (f : Ref)
          → table_at s.db.current_action ≡ some f
          → (w : Claim → ℕ)
          → weigh w (claims_state s)
            ≡ weigh w (
                rows_at f ∷ own_promise (refs_of s.db.current_action)
                ++ (claims_db (record s.db { current_action = none })
                    ++ (claims_dbs s.before ++ claims_dbs s.after)))
      written_last s f i w =
          let others = claims_dbs s.before ++ claims_dbs s.after in
          let d : Db C = record s.db { current_action = none } in
          omega (
            arith,
            weigh-db w s.db others,
            weigh-db w d others,
            weigh-table w s.db.current_action f i,
            weigh-append w (own_promise (refs_of s.db.current_action)) (claims_db d ++ others),
          )

  mark-Owned :
      (a : Action) (s : State C N)
      → s.db.current_action ≡ some a
      → AllOwned s
      → AllOwned (at_current (some (record a { has_finished = true })) s)
  mark-Owned a s e o =
      let t = at_current (some (record a { has_finished = true })) s in
      let others = claims_dbs s.before ++ claims_dbs s.after in
      Owned-same (claims_state t) o (λ w. omega (
        arith,
        weigh-db w s.db others,
        weigh-db w t.db others,
        ap (λ x. weigh w (claims_current x)) e,
      ))

  freed-Owned :
      (a : Action) (s : State C N)
      → s.db.current_action ≡ some a
      → AllOwned s
      → AllOwned (at_current none (record s { lua = free a s.lua }))
  freed-Owned a s e o =
      let t = at_current none s in
      let others = claims_dbs s.before ++ claims_dbs s.after in
      free-Owned a s.lua (claims_state t) (
        Owned-same (claims_action a ++ claims_state t) o (λ w. omega (
          arith,
          weigh-db w s.db others,
          weigh-db w t.db others,
          weigh-append w (claims_action a) (claims_state t),
          ap (λ x. weigh w (claims_current x)) e,
        )))

  unpin-Owned : (s : State C N) → AllOwned s → AllOwned (unpin h s).1
  unfolding unpin
  unpin-Owned s o =
      if_elim (λ (x : Outcome (Unit {0}) × State C N). AllOwned x.1)
        (is_idle h s.db.current_action s.db.queue && not (is_unset s.db.queue_reference))
        (λ _.
          let d : Db C = record s.db { queue_reference = refnil } in
          let others = claims_dbs s.before ++ claims_dbs s.after in
          let pin = claims_ref strongly s.db.queue_reference s.db.address in
          Owned-drop (unref s.db.queue_reference s.lua.registry) pin (claims_db d ++ others)
            (Owned-same (pin ++ (claims_db d ++ others)) o (λ w. omega (
              arith,
              weigh-db w s.db others,
              weigh-db w d others,
              weigh-append w pin (claims_db d ++ others),
            )))
            (λ k u. entry-unref_unused s.db.queue_reference k s.lua.registry (
              omega
                (arith, u, weigh-uses strongly s.db.queue_reference s.db.address k (λ f a. refl)))))
        (λ _. o)

  pub AllOwned-IsRule : IsRule h (λ s t. AllOwned s → AllOwned t)
  AllOwned-IsRule = record {
    here = λ s o. o;
    also = λ s t u f g o. g (f o);
    of_local = λ s t l x. touched-Owned s t l x;
    of_call = λ f args s. lua_call-Owned h fresh f args s;
    of_mark = mark-Owned;
    of_free = freed-Owned;
    of_unpin = unpin-Owned;
  }

  pub next_of-Owned :
      (x : Option Action) (q : List Action) (s : State C N)
      → s.db.current_action ≡ x
      → s.db.queue ≡ q
      → AllOwned s
      → AllOwned (next_of h x q s).1
  unfolding next_of
  next_of-Owned (some a) q s e f o = o
  next_of-Owned none [] s e f o = o
  next_of-Owned none (a ∷ rest) s e f o =
      let d : Db C = record s.db { current_action = some a; queue = rest } in
      let others = claims_dbs s.before ++ claims_dbs s.after in
      Owned-same (claims_db d ++ others) o (λ w. omega (
        arith,
        weigh-db w s.db others,
        weigh-db w d others,
        ap (λ x. weigh w (claims_current x)) e,
        ap (λ x. weigh w (claims_queue x)) f,
        weigh-append w (claims_action a) (claims_queue rest),
      ))

  -- If the registry meets the claims of all open databases and none of its keys is claimed twice, then
  -- so it is after a tick of one of them, however the tick ends and whatever Lua code does meanwhile.
  pub run_tick-AllOwned : (s : State C N) → AllOwned s → AllOwned (run_tick h s).1
  unfolding next_action
  run_tick-AllOwned s o =
      run_tick_rule h (λ t u. AllOwned t → AllOwned u) AllOwned-IsRule s
        (next_of-Owned s.db.current_action s.db.queue s refl refl o)
