-- ===== src/Binding/Parameters.antt =====
-- The parameters of a statement as the constructor of `ExecuteStatementAction` makes them.
use gluamysql.Base.{
  ℕ, zero, suc, ◌+◌, ◌≤◌, ◌<◌, ◌≡◌, ◌≢◌, ◌⊎◌, inl, inr, refl, ap, sym, ◌∙◌, some, List, [], ◌∷◌,
  ◌++◌, length, length-append, append-nil, append_assoc, arith,
}
use gluamysql.Table.{Bytes}
use gluamysql.Binding.{
  LuaArg, Bind, null_binds, populate_bind, populate, make_arguments, create_buffer,
}
use gluamysql.Binding.Buffers.{at_index}
use gluamysql.Binding.Reading.{
  AllBindable, given, reads_nil, AllRead, none_left, one_more, null_bind, nulls, Stays,
  populate_bind-Populated,
}

-- The first loop's buffers.
abbrev flags : ℕ → List Bytes
flags zero = []
flags (suc n) = (1 ∷ []) ∷ flags n

length-flags : (n : ℕ) → length (flags n) ≡ n
length-flags zero = refl
length-flags (suc n) = ap suc (length-flags n)

at_index-flags : (j n : ℕ) → j < n → at_index j (flags n) ≡ some (1 ∷ [])
at_index-flags j zero h = absurd omega (arith, h)
at_index-flags zero (suc n) h = refl
at_index-flags (suc j) (suc n) h = at_index-flags j n (omega (arith, h))

near : (j k base size : ℕ) → base ≤ size → (j ≡ k) ⊎ (size ≤ j) → (j < suc k) ⊎ (base ≤ j)
near j k base size h (inl e) = inl (omega (arith, e))
near j k base size h (inr e) = inr (omega (arith, e, h))

far : (j k base : ℕ) → (j < k) ⊎ (base ≤ j) → (j < suc k) ⊎ (base ≤ j)
far j k base (inl e) = inl (omega (arith, e))
far j k base (inr e) = inr e

apart : (j k base : ℕ) → k < base → (j < k) ⊎ (base ≤ j) → j ≢ k
apart j k base h (inl e) = λ i. omega (arith, e, i)
apart j k base h (inr e) = λ i. omega (arith, e, i, h)

module _ (ulong : ℕ → Bytes) where
  null_binds_lem :
      (n : ℕ) (bs : List Bytes) → null_binds ulong n bs ≡ (nulls (length bs) n, bs ++ flags n)
  unfolding null_binds create_buffer
  null_binds_lem zero bs = ap (λ r. ([], r)) (sym (append-nil bs))
  null_binds_lem (suc n) bs =
      let more : List Bytes = bs ++ (1 ∷ []) ∷ [] in
      ap (λ (x : List Bind × List Bytes). (null_bind (length bs) ∷ x.0, x.1))
        (null_binds_lem n more)
      ∙ ap (λ k. (null_bind (length bs) ∷ nulls k n, more ++ flags n))
          (omega (arith, length-append bs ((1 ∷ []) ∷ [])))
      ∙ ap (λ r. (null_bind (length bs) ∷ nulls (suc (length bs)) n, r))
          (append_assoc bs ((1 ∷ []) ∷ []) (flags n))

  -- The flags of the parameters from `k` on say NULL.
  abbrev AllFlagged : ℕ → ℕ → List Bytes → Type 0
  AllFlagged k base bs = (j : ℕ) → k ≤ j → j < base → at_index j bs ≡ some (1 ∷ [])

  nulls-AllRead :
      (n k base : ℕ) (bs : List Bytes)
      → k + n ≡ base
      → AllFlagged k base bs
      → AllRead ulong bs (nulls k n) (given n [])
  nulls-AllRead zero k base bs e f = none_left
  nulls-AllRead (suc n) k base bs e f =
      one_more (reads_nil (f k (omega arith) (omega (arith, e))))
        (nulls-AllRead n (suc k) base bs (omega (arith, e)) (λ j a b. f j (omega (arith, a)) b))

  record Made (n k base : ℕ) (args : List LuaArg) (bs : List Bytes) : Type 0 where
    pub binds : List Bind
    pub left : List Bytes
    pub result : populate ulong args (nulls k n) bs ≡ some (binds, left)
    pub all_read : AllRead ulong left binds (given n args)
    pub stays : Stays (λ j. (j < k) ⊎ (base ≤ j)) bs left

  populate-one_more :
      (a : LuaArg) (b b' : Bind) (rest : List LuaArg) (binds more : List Bind)
      (bs cs ds : List Bytes)
      → populate_bind ulong a b bs ≡ some (b', cs)
      → populate ulong rest binds cs ≡ some (more, ds)
      → populate ulong (a ∷ rest) (b ∷ binds) bs ≡ some (b' ∷ more, ds)
  unfolding populate
  populate-one_more a b b' rest binds more bs cs ds e f = rw (populate, e) (rw f refl)

  populate-Made :
      (n k base : ℕ) (args : List LuaArg) (bs : List Bytes)
      → k + n ≡ base
      → base ≤ length bs
      → AllFlagged k base bs
      → AllBindable (given n args)
      → Made n k base args bs
  unfolding populate
  populate-Made zero k base [] bs e l f w = record {
    binds = [];
    left = bs;
    result = refl;
    all_read = none_left;
    stays = λ j v a x. x;
  }
  populate-Made zero k base (a ∷ rest) bs e l f w = record {
    binds = [];
    left = bs;
    result = refl;
    all_read = none_left;
    stays = λ j v a x. x;
  }
  populate-Made (suc n) k base [] bs e l f w = record {
    binds = nulls k (suc n);
    left = bs;
    result = refl;
    all_read = nulls-AllRead (suc n) k base bs e f;
    stays = λ j v a x. x;
  }
  populate-Made (suc n) k base (a ∷ rest) bs e l f (w, ws) =
      let x = populate_bind-Populated ulong a k bs w (omega (arith, e, l)) in
      let y =
        populate-Made n (suc k) base rest x.left (omega (arith, e)) (omega (arith, l, x.longer))
          (λ j p q.
            x.others j (1 ∷ []) (λ i. absurd omega (arith, i, p)) (f j (omega (arith, p)) q))
          ws in
      record {
        binds = x.bind ∷ y.binds;
        left = y.left;
        result = populate-one_more a (null_bind k) x.bind rest _ _ bs x.left _ x.result y.result;
        all_read =
            one_more (x.reads y.left (λ j v p q. y.stays j v (near j k base (length bs) l p) q))
              y.all_read;
        stays = λ j v p q.
            y.stays j v (far j k base p) (x.others j v (apart j k base (omega (arith, e)) p) q);
      }

  -- If the arguments up to the number of parameters are of types that can be bound, then the parameters
  -- are made, and the client reads of them these arguments, in their order, and NULL where there are
  -- fewer: what was written for one is not disturbed by the others.
  pub make_arguments-AllRead :
      (count : ℕ) (args : List LuaArg)
      → AllBindable (given count args)
      → (binds : List Bind) × (bs : List Bytes) × (make_arguments ulong count args
          ≡ some (binds, bs))
        × AllRead ulong bs binds (given count args)
  unfolding make_arguments
  make_arguments-AllRead count args w =
      let x =
        populate-Made count 0 count args (flags count) (omega arith)
          (omega (arith, length-flags count)) (λ j p q. at_index-flags j count q) w in
      (
        x.binds,
        x.left,
        ap (λ (y : List Bind × List Bytes). populate ulong args y.0 y.1) (null_binds_lem count [])
            ∙ x.result,
        x.all_read,
      )
