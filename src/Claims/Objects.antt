-- ===== src/Claims/Objects.antt =====
-- The claims of an action come with its making and go with its freeing.
use gluamysql.Base.{ℕ, ◌+◌, ◌≡◌, refl, ◌∙◌, Option, none, some, List, [], ◌∷◌, ◌++◌, arith}
use gluamysql.Table.{Bytes}
use gluamysql.Binding.{Bind}
use gluamysql.Lua.{Ref, refnil, noref, key, Lua, Held, table, rawgeti, entry, unref}
use gluamysql.Lua.Registry.{entry-remove}
use gluamysql.Host.{Host, FreshKeys}
use gluamysql.Action.{
  Action, Promise, Kind, Job, async, querying, executing, new_async, new_query, new_execute,
  new_promise, lua_l_ref, free, free_kind, free_promise, free_table, empty_table,
}
use gluamysql.Database.{Db}
use gluamysql.Claims.{
  Claim, promise_of, rows_at, weakly, strongly, at_ref, uses, weigh, Owned, claims_kind,
  claims_action, claims_current, claims_queue, claims_ref, claims_db,
}
use gluamysql.Claims.Laws.{
  weigh-append, Owned-part, Owned-same, Owned-drop, Owned-add, Owned-claim, Owned-promise,
}

pub weigh-queue :
    (w : Claim → ℕ) (queue : List Action) (a : Action)
    → weigh w (claims_queue (queue ++ a ∷ []))
      ≡ weigh w (claims_queue queue) + weigh w (claims_action a)
weigh-queue w [] a = weigh-append w (claims_action a) [] ∙ omega arith
weigh-queue w (b ∷ queue) a = omega (
  arith,
  weigh-queue w queue a,
  weigh-append w (claims_action b) (claims_queue queue),
  weigh-append w (claims_action b) (claims_queue (queue ++ a ∷ [])),
)

pub weigh-db :
    {C : Type 0} (w : Claim → ℕ) (d : Db C) (cs : List Claim)
    → weigh w (claims_db d ++ cs)
      ≡ weigh w (claims_ref weakly d.reference d.address)
        + (weigh w (claims_ref strongly d.queue_reference d.address)
            + (weigh w (claims_current d.current_action)
                + (weigh w (claims_queue d.queue) + weigh w cs)))
weigh-db w d cs =
    let a = claims_ref weakly d.reference d.address in
    let b = claims_ref strongly d.queue_reference d.address in
    let c = claims_current d.current_action in
    let e = claims_queue d.queue in
    omega (
      arith,
      weigh-append w (a ++ (b ++ (c ++ e))) cs,
      weigh-append w a (b ++ (c ++ e)),
      weigh-append w b (c ++ e),
      weigh-append w c e,
    )

pub weigh-uses :
    (c : Ref → ℕ → Claim) (f : Ref) (a k : ℕ)
    → ((g : Ref) (b : ℕ) → uses k (c g b) ≡ at_ref k g)
    → weigh (uses k) (claims_ref c f a) ≡ at_ref k f
weigh-uses c refnil a k e = refl
weigh-uses c noref a k e = refl
weigh-uses c (key j) a k e = omega (arith, e (key j) a)

module _ {N : Type 0} where
  pub entry-unref_unused :
      (f : Ref) (k : ℕ) (r : List (ℕ × Held N)) → at_ref k f ≡ 0 → entry k (unref f r) ≡ entry k r
  unfolding unref
  entry-unref_unused refnil k r e = refl
  entry-unref_unused noref k r e = refl
  entry-unref_unused (key j) k r e = ground (arith, entry-remove j k r)

  free_promise-unused :
      (p : Promise) (k : ℕ) (l : Lua N)
      → uses k (promise_of p) ≡ 0
      → entry k (free_promise p l).registry ≡ entry k l.registry
  unfolding free_promise
  free_promise-unused p k l e =
      entry-unref_unused p.resolve k _ (omega arith)
      ∙ entry-unref_unused p.reject k _ (omega arith)
      ∙ entry-unref_unused p.promise k _ (omega arith)

  free_kind-unused :
      (x : Kind) (k : ℕ) (l : Lua N)
      → weigh (uses k) (claims_kind x) ≡ 0
      → entry k (free_kind x l).registry ≡ entry k l.registry
  unfolding free_kind free_table
  free_kind-unused (async x) k l e = refl
  free_kind-unused (querying q) k l e = entry-unref_unused q.data_reference k _ (omega arith)
  free_kind-unused (executing x) k l e = entry-unref_unused x.reference k _ (omega arith)

  -- A freed action gives its claims up.
  pub free-Owned :
      (a : Action) (l : Lua N) (cs : List Claim)
      → Owned l.registry (claims_action a ++ cs)
      → Owned (free a l).registry cs
  unfolding free
  free-Owned a l cs o = Owned-drop _ (claims_action a) cs o (λ k e.
      free_kind-unused a.kind k (free_promise a.refs l) (omega arith)
      ∙ free_promise-unused a.refs k l (omega arith))

module _ {C N : Type 0} (h : Host C N) (fresh : FreshKeys h) where
  pub new_promise-Owned :
      (l : Lua N) (cs : List Claim)
      → Owned l.registry cs
      → Owned (new_promise h l).1.registry (promise_of (new_promise h l).0 ∷ cs)
  unfolding new_promise lua_l_ref
  new_promise-Owned l cs o = Owned-promise l.promises _ _ _ cs o (fresh _) (fresh _) (fresh _)

  pub lua_l_ref-Owned :
      (v : Held N) (l : Lua N) (cs : List Claim)
      → Owned l.registry cs
      → Owned (lua_l_ref h v l).1.registry cs
  unfolding lua_l_ref
  lua_l_ref-Owned v l cs o = Owned-add _ v cs o (fresh _)

  pub new_async-Owned :
      (job : Job) (l : Lua N) (cs : List Claim)
      → Owned l.registry cs
      → Owned (new_async h job l).1.registry (claims_action (new_async h job l).0 ++ cs)
  unfolding new_async
  new_async-Owned job l cs o = new_promise-Owned l cs o

  pub table-Owned :
      (p : Promise) (l : Lua N) (cs : List Claim)
      → Owned l.registry (promise_of p ∷ cs)
      → Owned
          (lua_l_ref h (table empty_table) l).1.registry
          (promise_of p ∷ rows_at (lua_l_ref h (table empty_table) l).0 ∷ cs)
  unfolding lua_l_ref entry rawgeti
  table-Owned p l cs o =
      let k = h.fresh_key l.registry in
      Owned-same (promise_of p ∷ rows_at (key k) ∷ cs)
        (Owned-claim k (table empty_table) (rows_at (key k)) (promise_of p ∷ cs) o (fresh _)
          (ground arith) (λ j. refl))
        (λ w. omega arith)

  pub new_query-Owned :
      (text : Bytes) (l : Lua N) (cs : List Claim)
      → Owned l.registry cs
      → Owned (new_query h text l).1.registry (claims_action (new_query h text l).0 ++ cs)
  unfolding new_query
  new_query-Owned text l cs o =
      table-Owned (new_promise h l).0 (new_promise h l).1 cs (new_promise-Owned l cs o)

  pub new_execute-Owned :
      (stmt : ℕ) (x : Option (List Bind × List Bytes)) (l : Lua N) (cs : List Claim)
      → Owned l.registry cs
      → Owned (new_execute h stmt x l).1.registry (claims_current (new_execute h stmt x l).0 ++ cs)
  unfolding new_execute
  new_execute-Owned stmt none l cs o =
      Owned-part cs (promise_of (new_promise h l).0 ∷ []) (new_promise-Owned l cs o)
        (λ w. omega arith)
  new_execute-Owned stmt (some x) l cs o =
      table-Owned (new_promise h l).0 (new_promise h l).1 cs (new_promise-Owned l cs o)
