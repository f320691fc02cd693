-- ===== src/Action/References.antt =====
-- What an action takes from the registry it gives back.
use gluamysql.Base.{some, ℕ, ◌≡◌, refl, none, List, ◌∷◌, arith}
use gluamysql.Table.{Bytes}
use gluamysql.Lua.{
  Ref, key, Lua, Held, resolver, rejecter, promise_object, table, entry, rawgeti, unref,
}
use gluamysql.Lua.Registry.{entry-remove, rawgeti-unref_self, rawgeti-unref-none}
use gluamysql.Host.{Host, FreshKeys}
use gluamysql.Action.{
  push_promise, new_promise, lua_l_ref, executing, Action, Promise, Kind, async, querying, Job,
  new_async, new_query, free_promise, free_table, free_kind, free, empty_table,
}

-- Two registries with the same entries.
abbrev pub SameEntries : {N : Type 0} → List (ℕ × Held N) → List (ℕ × Held N) → Type 0
SameEntries r t = (k : ℕ) → entry k r ≡ entry k t

module _ {N : Type 0} where
  free_kind-log : (k : Kind) (l : Lua N) → (free_kind k l).log ≡ l.log
  unfolding free_kind free_table
  free_kind-log (async x) l = refl
  free_kind-log (querying q) l = refl
  free_kind-log (executing x) l = refl

  pub free-log : (a : Action) (l : Lua N) → (free a l).log ≡ l.log
  unfolding free free_promise
  free-log a l = free_kind-log a.kind (free_promise a.refs l)

  entry-cons_none :
      (d k : ℕ) (w : Held N) (r : List (ℕ × Held N))
      → entry d ((k, w) ∷ r) ≡ none
      → entry d r ≡ none
  unfolding entry
  entry-cons_none d k w r e = ground arith

  -- The entry on top is taken back.
  take_top :
      (k : ℕ) (w : Held N) (r t : List (ℕ × Held N))
      → entry k r ≡ none
      → SameEntries t ((k, w) ∷ r)
      → SameEntries (unref (key k) t) r
  unfolding entry unref
  take_top k w r t e s j = ground (arith, entry-remove k j t, s j)

  -- So is the entry below the top.
  take_second :
      (d k : ℕ) (v w : Held N) (r t : List (ℕ × Held N))
      → entry d ((k, w) ∷ r) ≡ none
      → entry k r ≡ none
      → SameEntries t ((d, v) ∷ (k, w) ∷ r)
      → SameEntries (unref (key k) t) ((d, v) ∷ r)
  unfolding entry unref
  take_second d k v w r t f e s j = ground (arith, entry-remove k j t, s j)

module _ {C N : Type 0} (h : Host C N) (fresh : FreshKeys h) where
  -- Freeing an asynchronous action just made, whose references nothing else has touched, leaves the
  -- registry with the entries that it had before, if luaL_ref hands out keys that are not in use.
  pub free-new_async :
      (job : Job) (l : Lua N)
      → let (a, l') = new_async h job l in SameEntries (free a l').registry l.registry
  unfolding new_async free free_kind free_promise
  free-new_async job l = take_top (h.fresh_key r0) (resolver l.promises) r0 _ (fresh r0) (
      take_top (h.fresh_key r1) (rejecter l.promises) r1 _ (fresh r1)
        (take_top (h.fresh_key r2) (promise_object l.promises) r2 _ (fresh r2) (λ j. refl)))
    where
      r0 : List (ℕ × Held N)
      r0 = l.registry

      r1 : List (ℕ × Held N)
      r1 = (h.fresh_key r0, resolver l.promises) ∷ r0

      r2 : List (ℕ × Held N)
      r2 = (h.fresh_key r1, rejecter l.promises) ∷ r1

  -- Freeing a query just made, which holds a table for its rows besides the references of its promise,
  -- leaves the registry with the entries that it had before, if luaL_ref hands out keys that are not in
  -- use.
  pub free-new_query :
      (text : Bytes) (l : Lua N)
      → let (a, l') = new_query h text l in SameEntries (free a l').registry l.registry
  unfolding new_query free free_kind free_promise
  free-new_query text l = take_top d (table empty_table) r0 _ f0 (
      take_second d (h.fresh_key r0) (table empty_table) (resolver l.promises) r0 _ f1 (fresh r0) (
        take_second d (h.fresh_key r1) (table empty_table) (rejecter l.promises) r1 _ f2 (fresh r1)
          (take_second d (h.fresh_key r2) (table empty_table) (promise_object l.promises) r2 _
            (fresh r3) (fresh r2) (λ j. refl))))
    where
      r0 : List (ℕ × Held N)
      r0 = l.registry

      r1 : List (ℕ × Held N)
      r1 = (h.fresh_key r0, resolver l.promises) ∷ r0

      r2 : List (ℕ × Held N)
      r2 = (h.fresh_key r1, rejecter l.promises) ∷ r1

      r3 : List (ℕ × Held N)
      r3 = (h.fresh_key r2, promise_object l.promises) ∷ r2

      d : ℕ
      d = h.fresh_key r3

      f2 : entry d r2 ≡ none
      f2 = entry-cons_none d (h.fresh_key r2) (promise_object l.promises) r2 (fresh r3)

      f1 : entry d r1 ≡ none
      f1 = entry-cons_none d (h.fresh_key r1) (rejecter l.promises) r1 f2

      f0 : entry d r0 ≡ none
      f0 = entry-cons_none d (h.fresh_key r0) (resolver l.promises) r0 f1

free_promise-dangling :
    {N : Type 0} (p : Promise) (l : Lua N)
    → (rawgeti p.resolve (free_promise p l).registry ≡ none)
      × (rawgeti p.reject (free_promise p l).registry ≡ none)
      × (rawgeti p.promise (free_promise p l).registry ≡ none)
unfolding free_promise
free_promise-dangling p l =
    let r = unref p.promise l.registry in
    (
      rawgeti-unref_self p.resolve _,
      rawgeti-unref-none p.resolve p.reject _ (rawgeti-unref_self p.reject r),
      rawgeti-unref-none p.resolve p.promise _
          (rawgeti-unref-none p.reject p.promise r (rawgeti-unref_self p.promise l.registry)),
    )

free_kind-none :
    {N : Type 0} (k : Kind) (l : Lua N) (f : Ref)
    → rawgeti f l.registry ≡ none
    → rawgeti f (free_kind k l).registry ≡ none
unfolding free_kind
free_kind-none (async x) l f e = e
free_kind-none (querying q) l f e = rawgeti-unref-none q.data_reference f l.registry e
free_kind-none (executing x) l f e = rawgeti-unref-none x.reference f l.registry e

-- After an action was freed none of the three references of its promise leads to anything.
pub free-dangling :
    {N : Type 0} (a : Action) (l : Lua N)
    → (rawgeti a.refs.resolve (free a l).registry ≡ none)
      × (rawgeti a.refs.reject (free a l).registry ≡ none)
      × (rawgeti a.refs.promise (free a l).registry ≡ none)
unfolding free
free-dangling a l =
    let (x, y, z) = free_promise-dangling a.refs l in
    (
      free_kind-none a.kind _ a.refs.resolve x,
      free_kind-none a.kind _ a.refs.reject y,
      free_kind-none a.kind _ a.refs.promise z,
    )

-- Whatever the registry held, a method that makes an asynchronous action pushes the action's own new
-- promise, if luaL_ref hands out keys that are not in use.
pub push_promise-new_async :
    {C N : Type 0} (h : Host C N) (fresh : FreshKeys h) (job : Job) (l : Lua N)
    → let (a, l') = new_async h job l in
      (push_promise a.refs l' ≡ some (promise_object l.promises))
      × (rawgeti a.refs.resolve l'.registry ≡ some (resolver l.promises))
      × (rawgeti a.refs.reject l'.registry ≡ some (rejecter l.promises))
unfolding push_promise new_async new_promise lua_l_ref rawgeti entry
push_promise-new_async {N = N} h fresh job l = ground (arith, fresh l.registry, fresh r1, fresh r2)
  where
    r1 : List (ℕ × Held N)
    r1 = (h.fresh_key l.registry, resolver l.promises) ∷ l.registry

    r2 : List (ℕ × Held N)
    r2 = (h.fresh_key r1, rejecter l.promises) ∷ r1
