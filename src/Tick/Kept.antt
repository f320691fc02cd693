-- ===== src/Tick/Kept.antt =====
-- The references of queued actions stay as new entries come to the registry.
use gluamysql.Base.{ℕ, ◌≡◌, ◌≢◌, ap, sym, subst, ◌∙◌, none, some, List, [], ◌∷◌, ◌++◌, arith}
use gluamysql.Lua.{key, Held, resolver, rejecter, promise_object, entry, rawgeti, unref}
use gluamysql.Lua.Registry.{rawgeti-unref_other, rawgeti-cons, unref-cons, entry-unref-none}
use gluamysql.Action.{Promise, Async}
use gluamysql.Tick.Drain.{Asked, without_refs, IsKept, AllKept}

-- An action with the keys of its promise.
abbrev pub new_asked : ℕ → ℕ → ℕ → ℕ → Async → Asked
new_asked n k1 k2 k3 x = record {
  number = n;
  refs = record { resolve = key k1; reject = key k2; promise = key k3 };
  call = x;
}

module _ {N : Type 0} where
  rejecter-ne-promise : (n : ℕ) → ◌≢◌ {A = Held N} (rejecter n) (promise_object n)
  rejecter-ne-promise n = λ e. cc

  resolver-ne-promise : (n : ℕ) → ◌≢◌ {A = Held N} (resolver n) (promise_object n)
  resolver-ne-promise n = λ e. cc

  resolver-ne-rejecter : (n : ℕ) → ◌≢◌ {A = Held N} (resolver n) (rejecter n)
  resolver-ne-rejecter n = λ e. cc

  cons-IsKept :
      (k : ℕ) (v : Held N) (r : List (ℕ × Held N)) (a : Asked)
      → entry k r ≡ none
      → IsKept r a
      → IsKept ((k, v) ∷ r) a
  cons-IsKept k v r a e w = record {
    resolves = rawgeti-cons a.refs.resolve k v r e w.resolves;
    rejects = rawgeti-cons a.refs.reject k v r e w.rejects;
    is_promise = rawgeti-cons a.refs.promise k v r e w.is_promise;
  }

  cons-without_refs :
      (k : ℕ) (v : Held N) (r : List (ℕ × Held N)) (a : Asked)
      → entry k r ≡ none
      → IsKept r a
      → without_refs a.refs ((k, v) ∷ r) ≡ (k, v) ∷ without_refs a.refs r
  cons-without_refs k v r a e w =
      let p = a.refs in
      let n = a.number in
      let r1 : List (ℕ × Held N) = unref p.promise r in
      let r2 : List (ℕ × Held N) = unref p.reject r1 in
      let rejects : rawgeti p.reject r1 ≡ some (rejecter n) =
        rawgeti-unref_other p.reject p.promise r w.rejects w.is_promise (rejecter-ne-promise n) in
      let resolves1 : rawgeti p.resolve r1 ≡ some (resolver n) =
        rawgeti-unref_other p.resolve p.promise r w.resolves w.is_promise (resolver-ne-promise n) in
      let resolves2 : rawgeti p.resolve r2 ≡ some (resolver n) =
        rawgeti-unref_other p.resolve p.reject r1 resolves1 rejects (resolver-ne-rejecter n) in
      let e1 = entry-unref-none p.promise k r e in
      ap (λ (t : List (ℕ × Held N)). unref p.resolve (unref p.reject t))
        (unref-cons p.promise k v r e w.is_promise)
      ∙ ap (unref p.resolve) (unref-cons p.reject k v r1 e1 rejects)
      ∙ unref-cons p.resolve k v r2 (entry-unref-none p.reject k r1 e1) resolves2

  entry-without_refs-none :
      (k : ℕ) (r : List (ℕ × Held N)) (p : Promise)
      → entry k r ≡ none
      → entry k (without_refs p r) ≡ none
  entry-without_refs-none k r p e =
      entry-unref-none p.resolve k _
        (entry-unref-none p.reject k _ (entry-unref-none p.promise k r e))

  -- An entry under a key that was not in use leaves the actions their promises.
  pub cons-AllKept :
      (k : ℕ) (v : Held N) (items : List Asked) (r : List (ℕ × Held N))
      → entry k r ≡ none
      → AllKept r items
      → AllKept ((k, v) ∷ r) items
  cons-AllKept k v [] r e w = tt
  cons-AllKept k v (a ∷ rest) r e (w, ws) = (
    cons-IsKept k v r a e w,
    subst (λ t. AllKept t rest) (sym (cons-without_refs k v r a e w))
        (cons-AllKept k v rest (without_refs a.refs r) (entry-without_refs-none k r a.refs e) ws),
  )

  -- The registry with the entries of a new promise.
  abbrev pub with_promise : ℕ → ℕ → ℕ → ℕ → List (ℕ × Held N) → List (ℕ × Held N)
  with_promise n k1 k2 k3 r = (k3, promise_object n) ∷ (k2, rejecter n) ∷ (k1, resolver n) ∷ r

  -- None of the keys is in use when its entry is made.
  pub record AreFresh (n k1 k2 k3 : ℕ) (r : List (ℕ × Held N)) : Type 0 where
    pub first : entry k1 r ≡ none
    pub second : entry k2 ((k1, resolver n) ∷ r) ≡ none
    pub third : entry k3 ((k2, rejecter n) ∷ (k1, resolver n) ∷ r) ≡ none

  with_promise-IsKept :
      (n k1 k2 k3 : ℕ) (x : Async) (r : List (ℕ × Held N))
      → AreFresh n k1 k2 k3 r
      → IsKept (with_promise n k1 k2 k3 r) (new_asked n k1 k2 k3 x)
  unfolding rawgeti entry
  with_promise-IsKept n k1 k2 k3 x r f = record {
    resolves = ground (arith, f.second, f.third);
    rejects = ground (arith, f.third);
    is_promise = ground arith;
  }

  module _ (n k1 k2 k3 : ℕ) (r : List (ℕ × Held N)) (f : AreFresh n k1 k2 k3 r) (a : Asked)
      (w : IsKept r a) where
    with_promise_old : IsKept (with_promise n k1 k2 k3 r) a
    with_promise_old =
        cons-IsKept k3 _ _ a f.third
          (cons-IsKept k2 _ _ a f.second (cons-IsKept k1 _ r a f.first w))

    one_removed :
        without_refs a.refs ((k1, resolver n) ∷ r) ≡ (k1, resolver n) ∷ without_refs a.refs r
    one_removed = cons-without_refs k1 _ r a f.first w

    two_removed :
        without_refs a.refs ((k2, rejecter n) ∷ (k1, resolver n) ∷ r)
        ≡ (k2, rejecter n) ∷ (k1, resolver n) ∷ without_refs a.refs r
    two_removed =
        cons-without_refs k2 _ _ a f.second (cons-IsKept k1 _ r a f.first w)
        ∙ ap (λ (t : List (ℕ × Held N)). (k2, rejecter n) ∷ t) one_removed

    three_removed :
        without_refs a.refs (with_promise n k1 k2 k3 r)
        ≡ with_promise n k1 k2 k3 (without_refs a.refs r)
    three_removed =
        cons-without_refs k3 _ _ a f.third
          (cons-IsKept k2 _ _ a f.second (cons-IsKept k1 _ r a f.first w))
        ∙ ap (λ (t : List (ℕ × Held N)). (k3, promise_object n) ∷ t) two_removed

    still_fresh : AreFresh n k1 k2 k3 (without_refs a.refs r)
    still_fresh = record {
      first = entry-without_refs-none k1 r a.refs f.first;
      second =
          subst (λ t. entry k2 t ≡ none) one_removed (entry-without_refs-none k2 _ a.refs f.second);
      third =
          subst (λ t. entry k3 t ≡ none) two_removed (entry-without_refs-none k3 _ a.refs f.third);
    }

  -- An action whose promise has keys that were not in use comes to the end of the queue.
  pub AllKept-snoc :
      (n k1 k2 k3 : ℕ) (x : Async) (items : List Asked) (r : List (ℕ × Held N))
      → AreFresh n k1 k2 k3 r
      → AllKept r items
      → AllKept (with_promise n k1 k2 k3 r) (items ++ new_asked n k1 k2 k3 x ∷ [])
  AllKept-snoc n k1 k2 k3 x [] r f w = (with_promise-IsKept n k1 k2 k3 x r f, tt)
  AllKept-snoc n k1 k2 k3 x (a ∷ rest) r f (w, ws) = (
    with_promise_old n k1 k2 k3 r f a w,
    subst (λ t. AllKept t (rest ++ new_asked n k1 k2 k3 x ∷ []))
        (sym (three_removed n k1 k2 k3 r f a w))
        (AllKept-snoc n k1 k2 k3 x rest (without_refs a.refs r) (still_fresh n k1 k2 k3 r f a w)
          ws),
  )
