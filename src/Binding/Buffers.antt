-- ===== src/Binding/Buffers.antt =====
-- The buffers behind their indices.
use gluamysql.Base.{
  ℕ, zero, suc, ◌<◌, ◌≡◌, ◌≢◌, refl, ap, Option, none, some, List, [], ◌∷◌, ◌++◌, length, arith,
}
use gluamysql.Table.{Bytes}
use gluamysql.Binding.{write}

abbrev pub at_index : ℕ → List Bytes → Option Bytes
at_index i [] = none
at_index zero (b ∷ bs) = some b
at_index (suc i) (b ∷ bs) = at_index i bs

module _ (ulong : ℕ → Bytes) where
  pub length-write : (i : ℕ) (s : Bytes) (bs : List Bytes) → length (write ulong i s bs) ≡ length bs
  unfolding write
  length-write i s [] = refl
  length-write zero s (b ∷ bs) = refl
  length-write (suc i) s (b ∷ bs) = ap suc (length-write i s bs)

  pub at_index-write_same :
      (i : ℕ) (s : Bytes) (bs : List Bytes)
      → i < length bs
      → at_index i (write ulong i s bs) ≡ some s
  unfolding write
  at_index-write_same i s [] h = absurd omega (arith, h)
  at_index-write_same zero s (b ∷ bs) h = refl
  at_index-write_same (suc i) s (b ∷ bs) h = at_index-write_same i s bs (omega (arith, h))

  pub at_index-write_other :
      (j i : ℕ) (s : Bytes) (bs : List Bytes)
      → j ≢ i
      → at_index j (write ulong i s bs) ≡ at_index j bs
  unfolding write
  at_index-write_other j i s [] h = refl
  at_index-write_other zero zero s (b ∷ bs) h = absurd (h refl)
  at_index-write_other (suc j) zero s (b ∷ bs) h = refl
  at_index-write_other zero (suc i) s (b ∷ bs) h = refl
  at_index-write_other (suc j) (suc i) s (b ∷ bs) h =
      at_index-write_other j i s bs (λ e. h (ap suc e))

pub at_index-append :
    (j : ℕ) (bs cs : List Bytes) {v : Bytes}
    → at_index j bs ≡ some v
    → at_index j (bs ++ cs) ≡ some v
at_index-append j [] cs e = cc
at_index-append zero (b ∷ bs) cs e = e
at_index-append (suc j) (b ∷ bs) cs e = at_index-append j bs cs e

pub at_index-length :
    (bs cs : List Bytes) (s : Bytes) → at_index (length bs) (bs ++ s ∷ cs) ≡ some s
at_index-length [] cs s = refl
at_index-length (b ∷ bs) cs s = at_index-length bs cs s
