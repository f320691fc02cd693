-- ===== src/Lua/Registry.antt =====
-- Laws of the registry.
use gluamysql.Base.{ℕ, ◌≡◌, ◌≢◌, refl, none, some, List, [], ◌∷◌, arith, ◌==◌, if◌then◌else◌}
use gluamysql.Lua.{Ref, refnil, noref, key, entry, remove, rawgeti, rawseti, unref}

module _ {V : Type 0} where
  pub entry-remove :
      (k j : ℕ) (r : List (ℕ × V)) → entry j (remove k r) ≡ (if k == j then none else entry j r)
  unfolding entry remove
  entry-remove k j [] = ground arith
  entry-remove k j ((i, v) ∷ r) = ground (arith, entry-remove k j r)

  pub rawgeti-unref_self : (a : Ref) (r : List (ℕ × V)) → rawgeti a (unref a r) ≡ none
  unfolding rawgeti unref
  rawgeti-unref_self refnil r = refl
  rawgeti-unref_self noref r = refl
  rawgeti-unref_self (key k) r = ground (arith, entry-remove k k r)

  pub rawgeti-unref-none :
      (a b : Ref) (r : List (ℕ × V)) → rawgeti b r ≡ none → rawgeti b (unref a r) ≡ none
  unfolding rawgeti unref
  rawgeti-unref-none refnil b r h = h
  rawgeti-unref-none noref b r h = h
  rawgeti-unref-none (key k) refnil r h = refl
  rawgeti-unref-none (key k) noref r h = refl
  rawgeti-unref-none (key k) (key j) r h = ground (arith, entry-remove k j r)

  pub rawgeti-unref_ne :
      (a b : Ref) (r : List (ℕ × V)) → a ≢ b → rawgeti b (unref a r) ≡ rawgeti b r
  unfolding rawgeti unref
  rawgeti-unref_ne refnil b r h = refl
  rawgeti-unref_ne noref b r h = refl
  rawgeti-unref_ne (key k) refnil r h = refl
  rawgeti-unref_ne (key k) noref r h = refl
  rawgeti-unref_ne (key k) (key j) r h = ground (arith, entry-remove k j r)

  pub rawgeti-rawseti_self :
      (k : ℕ) (v : V) (r : List (ℕ × V)) → rawgeti (key k) (rawseti (key k) v r) ≡ some v
  unfolding rawgeti rawseti entry
  rawgeti-rawseti_self k v r = ground arith

  pub rawgeti-rawseti_ne :
      (k j : ℕ) (v : V) (r : List (ℕ × V))
      → k ≢ j
      → rawgeti (key j) (rawseti (key k) v r) ≡ rawgeti (key j) r
  unfolding rawgeti rawseti entry
  rawgeti-rawseti_ne k j v r h = ground (arith, entry-remove k j r)

  -- A reference is not the one that is written to if what it leads to is another value.
  pub rawgeti-rawseti_other :
      (f g : Ref) (v : V) (r : List (ℕ × V)) {u w : V}
      → rawgeti f r ≡ some u
      → rawgeti g r ≡ some w
      → u ≢ w
      → rawgeti f (rawseti g v r) ≡ some u
  unfolding rawgeti rawseti entry
  rawgeti-rawseti_other refnil g v r p q n = cc
  rawgeti-rawseti_other noref g v r p q n = cc
  rawgeti-rawseti_other (key j) refnil v r p q n = p
  rawgeti-rawseti_other (key j) noref v r p q n = p
  rawgeti-rawseti_other (key j) (key k) v r p q n = ground (arith, entry-remove k j r)

  pub rawgeti-rawseti_same :
      (g : Ref) (v : V) (r : List (ℕ × V)) {w : V}
      → rawgeti g r ≡ some w
      → rawgeti g (rawseti g v r) ≡ some v
  unfolding rawgeti rawseti entry
  rawgeti-rawseti_same refnil v r q = cc
  rawgeti-rawseti_same noref v r q = cc
  rawgeti-rawseti_same (key k) v r q = ground arith

  -- A reference that leads to another value stays.
  pub rawgeti-unref_other :
      (f g : Ref) (r : List (ℕ × V)) {u w : V}
      → rawgeti f r ≡ some u
      → rawgeti g r ≡ some w
      → u ≢ w
      → rawgeti f (unref g r) ≡ some u
  unfolding rawgeti unref
  rawgeti-unref_other refnil g r p q n = cc
  rawgeti-unref_other noref g r p q n = cc
  rawgeti-unref_other (key j) refnil r p q n = p
  rawgeti-unref_other (key j) noref r p q n = p
  rawgeti-unref_other (key j) (key k) r p q n = ground (arith, entry-remove k j r)

  -- An entry under a key that was not in use.
  pub rawgeti-cons :
      (f : Ref) (k : ℕ) (v : V) (r : List (ℕ × V)) {u : V}
      → entry k r ≡ none
      → rawgeti f r ≡ some u
      → rawgeti f ((k, v) ∷ r) ≡ some u
  unfolding rawgeti entry
  rawgeti-cons refnil k v r e p = p
  rawgeti-cons noref k v r e p = p
  rawgeti-cons (key j) k v r e p = ground arith

  pub unref-cons :
      (f : Ref) (k : ℕ) (v : V) (r : List (ℕ × V)) {u : V}
      → entry k r ≡ none
      → rawgeti f r ≡ some u
      → unref f ((k, v) ∷ r) ≡ (k, v) ∷ unref f r
  unfolding rawgeti unref remove
  unref-cons refnil k v r e p = refl
  unref-cons noref k v r e p = refl
  unref-cons (key j) k v r e p = ground arith

  pub entry-unref-none :
      (f : Ref) (k : ℕ) (r : List (ℕ × V)) → entry k r ≡ none → entry k (unref f r) ≡ none
  unfolding unref
  entry-unref-none refnil k r e = e
  entry-unref-none noref k r e = e
  entry-unref-none (key j) k r e = ground (arith, entry-remove j k r)
