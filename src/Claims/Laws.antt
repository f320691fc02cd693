-- ===== src/Claims/Laws.antt =====
-- How claims fare when the registry changes.
use gluamysql.Base.{
  ℕ, ◌+◌, ◌≡◌, refl, ap, sym, ◌∙◌, inl, inr, Bool, true, false, Option, none, some, List, [], ◌∷◌,
  ◌++◌, append_assoc, arith, Option-cases, Bool-cases,
}
use gluamysql.Lua.{
  Ref, refnil, noref, key, Held, resolver, rejecter, promise_object, rawgeti, entry,
}
use gluamysql.Claims.{
  Claim, promise_of, rows_at, weakly, strongly, at_ref, uses, is_promise, is_table, is_weak,
  is_strong, is_met, unmet, weigh, Owned,
}

pub weigh-append :
    (w : Claim → ℕ) (xs ys : List Claim) → weigh w (xs ++ ys) ≡ weigh w xs + weigh w ys
weigh-append w [] ys = omega arith
weigh-append w (c ∷ xs) ys = omega (arith, weigh-append w xs ys)

-- Three lists in another order.
pub weigh-nested :
    (w : Claim → ℕ) (xs ys zs : List Claim)
    → weigh w ((xs ++ ys) ++ zs) ≡ weigh w (xs ++ (ys ++ zs))
weigh-nested w xs ys zs = ap (weigh w) (append_assoc xs ys zs)

pub weigh-moved :
    (w : Claim → ℕ) (xs ys zs : List Claim)
    → weigh w (xs ++ (ys ++ zs)) ≡ weigh w (ys ++ (xs ++ zs))
weigh-moved w xs ys zs = omega (
  arith,
  weigh-append w xs (ys ++ zs),
  weigh-append w ys zs,
  weigh-append w ys (xs ++ zs),
  weigh-append w xs zs,
)

pub weigh-turned :
    (w : Claim → ℕ) (xs ys zs : List Claim)
    → weigh w (xs ++ (ys ++ zs)) ≡ weigh w (zs ++ (xs ++ ys))
weigh-turned w xs ys zs = omega (
  arith,
  weigh-append w xs (ys ++ zs),
  weigh-append w ys zs,
  weigh-append w zs (xs ++ ys),
  weigh-append w xs ys,
)

module _ {N : Type 0} where
  -- Some of the claims, in any order.
  pub Owned-part :
      {r : List (ℕ × Held N)} (xs zs : List Claim) {ys : List Claim}
      → Owned r ys
      → ((w : Claim → ℕ) → weigh w ys ≡ weigh w zs + weigh w xs)
      → Owned r xs
  Owned-part {r} xs zs o e = record {
    met = omega (arith, o.met, e (unmet r));
    apart = λ k. omega (arith, o.apart k, e (uses k));
  }

  pub Owned-same :
      {r : List (ℕ × Held N)} (xs : List Claim) {ys : List Claim}
      → Owned r ys
      → ((w : Claim → ℕ) → weigh w ys ≡ weigh w xs)
      → Owned r xs
  Owned-same xs o e = Owned-part xs [] o (λ w. omega (arith, e w))

  rawgeti-agree :
      (f : Ref) (r t : List (ℕ × Held N))
      → ((k : ℕ) → ¬ (at_ref k f ≡ 0) → entry k t ≡ entry k r)
      → rawgeti f t ≡ rawgeti f r
  unfolding rawgeti
  rawgeti-agree refnil r t e = refl
  rawgeti-agree noref r t e = refl
  rawgeti-agree (key j) r t e = e j (ground arith)

  is_met-agree :
      (c : Claim) (r t : List (ℕ × Held N))
      → ((k : ℕ) → ¬ (uses k c ≡ 0) → entry k t ≡ entry k r)
      → is_met t c ≡ is_met r c
  is_met-agree (promise_of p) r t e =
      rw
        (
          rawgeti-agree p.resolve r t (λ k n. e k (omega arith)),
          rawgeti-agree p.reject r t (λ k n. e k (omega arith)),
          rawgeti-agree p.promise r t (λ k n. e k (omega arith)),
        )
        refl
  is_met-agree (rows_at f) r t e = ap is_table (rawgeti-agree f r t e)
  is_met-agree (weakly f a) r t e = ap (is_weak a) (rawgeti-agree f r t e)
  is_met-agree (strongly f a) r t e = ap (is_strong a) (rawgeti-agree f r t e)

  weigh-agree :
      (cs : List Claim) (r t : List (ℕ × Held N))
      → ((k : ℕ) → ¬ (weigh (uses k) cs ≡ 0) → entry k t ≡ entry k r)
      → weigh (unmet t) cs ≡ weigh (unmet r) cs
  weigh-agree [] r t e = refl
  weigh-agree (c ∷ cs) r t e =
      rw
        (
          is_met-agree c r t (λ k n. e k (omega arith)),
          weigh-agree cs r t (λ k n. e k (omega arith)),
        )
        refl

  -- A key that is not in use is claimed by none.
  at_ref-unused :
      (f : Ref) (k : ℕ) (r : List (ℕ × Held N)) {v : Held N}
      → rawgeti f r ≡ some v
      → entry k r ≡ none
      → at_ref k f ≡ 0
  unfolding rawgeti
  at_ref-unused refnil k r e n = refl
  at_ref-unused noref k r e n = refl
  at_ref-unused (key j) k r e n = ground arith

  ref_unused :
      (test : Option (Held N) → Bool) (f : Ref) (k : ℕ) (r : List (ℕ × Held N))
      → test none ≡ false
      → test (rawgeti f r) ≡ true
      → entry k r ≡ none
      → at_ref k f ≡ 0
  ref_unused test f k r o e n = elim (Option-cases (rawgeti f r)) [
    | inl x ↦ absurd cc (sym e ∙ ap test x ∙ o)
    | inr (v, x) ↦ at_ref-unused f k r x n
  ]

  uses-unused :
      (c : Claim) (k : ℕ) (r : List (ℕ × Held N))
      → is_met r c ≡ true
      → entry k r ≡ none
      → uses k c ≡ 0
  uses-unused (promise_of p) k r e n = promise_unused _ _ _ refl refl refl e
    where
      promise_unused :
          (x y z : Option (Held N))
          → rawgeti p.resolve r ≡ x
          → rawgeti p.reject r ≡ y
          → rawgeti p.promise r ≡ z
          → is_promise x y z ≡ true
          → uses k (promise_of p) ≡ 0
      promise_unused (some (resolver a)) (some (rejecter b)) (some (promise_object c)) x y z m =
          omega (
            arith,
            at_ref-unused p.resolve k r x n,
            at_ref-unused p.reject k r y n,
            at_ref-unused p.promise k r z n,
          )
      promise_unused _ _ _ x y z m = cc
  uses-unused (rows_at f) k r e n = ref_unused is_table f k r refl e n
  uses-unused (weakly f a) k r e n = ref_unused (is_weak a) f k r refl e n
  uses-unused (strongly f a) k r e n = ref_unused (is_strong a) f k r refl e n

  unused :
      (cs : List Claim) (k : ℕ) (r : List (ℕ × Held N))
      → weigh (unmet r) cs ≡ 0
      → entry k r ≡ none
      → weigh (uses k) cs ≡ 0
  unused [] k r e n = refl
  unused (c ∷ cs) k r e n = elim (Bool-cases (is_met r c)) [
    | inl y ↦ omega (arith, uses-unused c k r y n, unused cs k r (ground arith) n)
    | inr y ↦ ground arith
  ]

  -- The registry is changed at the keys of some claims, which are given up.
  pub Owned-drop :
      {r : List (ℕ × Held N)} (t : List (ℕ × Held N)) (xs cs : List Claim)
      → Owned r (xs ++ cs)
      → ((k : ℕ) → weigh (uses k) xs ≡ 0 → entry k t ≡ entry k r)
      → Owned t cs
  Owned-drop {r} t xs cs o e = record {
    met =
        weigh-agree cs r t (λ k n. e k (omega (arith, o.apart k, weigh-append (uses k) xs cs)))
        ∙ omega (arith, o.met, weigh-append (unmet r) xs cs);
    apart = λ k. omega (arith, o.apart k, weigh-append (uses k) xs cs);
  }

  -- It is changed at the keys of one that it still meets.
  pub Owned-change :
      {r : List (ℕ × Held N)} (t : List (ℕ × Held N)) (c : Claim) (cs : List Claim)
      → Owned r (c ∷ cs)
      → ((k : ℕ) → uses k c ≡ 0 → entry k t ≡ entry k r)
      → is_met t c ≡ true
      → Owned t (c ∷ cs)
  Owned-change {r} t c cs o e m =
      let rest = Owned-drop {r = r} t (c ∷ []) cs o (λ k n. e k (omega arith)) in
      record { met = ground (arith, rest.met); apart = o.apart }

  -- A value comes under a new key.
  pub Owned-add :
      {r : List (ℕ × Held N)} (k : ℕ) (v : Held N) (cs : List Claim)
      → Owned r cs
      → entry k r ≡ none
      → Owned ((k, v) ∷ r) cs
  unfolding entry
  Owned-add {r} k v cs o n = record {
    met = weigh-agree cs r ((k, v) ∷ r) (λ j m. ground (arith, unused cs k r o.met n)) ∙ o.met;
    apart = o.apart;
  }

  -- A new key is claimed with it.
  pub Owned-claim :
      {r : List (ℕ × Held N)} (k : ℕ) (v : Held N) (c : Claim) (cs : List Claim)
      → Owned r cs
      → entry k r ≡ none
      → is_met ((k, v) ∷ r) c ≡ true
      → ((j : ℕ) → uses j c ≡ at_ref j (key k))
      → Owned ((k, v) ∷ r) (c ∷ cs)
  Owned-claim {r} k v c cs o n m u =
      let p = Owned-add k v cs o n in
      record {
        met = ground (arith, p.met);
        apart = λ j. ground (arith, u j, o.apart j, unused cs j r o.met);
      }

  -- Three new keys are claimed by a promise.
  pub Owned-promise :
      {r : List (ℕ × Held N)} (n a b c : ℕ) (cs : List Claim)
      → Owned r cs
      → entry a r ≡ none
      → entry b ((a, resolver n) ∷ r) ≡ none
      → entry c ((b, rejecter n) ∷ (a, resolver n) ∷ r) ≡ none
      → Owned
          ((c, promise_object n) ∷ (b, rejecter n) ∷ (a, resolver n) ∷ r)
          (promise_of (record { resolve = key a; reject = key b; promise = key c }) ∷ cs)
  unfolding entry rawgeti
  Owned-promise {r} n a b c cs o x y z =
      let p =
        Owned-add c (promise_object n) cs
          (Owned-add b (rejecter n) cs (Owned-add a (resolver n) cs o x) y) z in
      record {
        met = ground (arith, p.met);
        apart = λ j. ground (arith, o.apart j, unused cs j r o.met);
      }
