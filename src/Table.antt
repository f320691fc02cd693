-- ===== src/Table.antt =====
-- What the module uses of Lua's values: byte strings, and tables under raw reads and writes, keyed
-- by strings. To write nil under a key is to take the key out.
use gluamysql.Base.{
  ℕ, ◌≡◌, refl, Bool, true, false, ◌&&◌, Option, none, some, List, [], ◌∷◌, arith, ◌==◌,
  if◌then◌else◌,
}

abbrev pub Bytes : Type 0
Bytes = List ℕ

abbrev pub same_bytes : Bytes → Bytes → Bool
same_bytes [] [] = true
same_bytes [] (_ ∷ _) = false
same_bytes (_ ∷ _) [] = false
same_bytes (a ∷ s) (b ∷ t) = a == b && same_bytes s t

pub same_bytes_sound : (s t : Bytes) → same_bytes s t ≡ true → s ≡ t
same_bytes_sound [] [] h = refl
same_bytes_sound [] (b ∷ t) h = cc
same_bytes_sound (a ∷ s) [] h = cc
same_bytes_sound (a ∷ s) (b ∷ t) h = ground (arith, same_bytes_sound s t)

pub same_bytes_refl : (s : Bytes) → same_bytes s s ≡ true
same_bytes_refl [] = refl
same_bytes_refl (a ∷ s) = ground (arith, same_bytes_refl s)

module _ {V : Type 0} where
  -- `lua_rawget`; `none` is nil.
  unfoldable pub rawget : Bytes → List (Bytes × V) → Option V
  rawget k [] = none
  rawget k ((j, v) ∷ t) = if same_bytes j k then some v else rawget k t

  unfoldable pub without : Bytes → List (Bytes × V) → List (Bytes × V)
  without k [] = []
  without k ((j, v) ∷ t) = let rest = without k t in if same_bytes j k then rest else (j, v) ∷ rest

  -- `lua_rawset`
  unfoldable pub rawset : Bytes → Option V → List (Bytes × V) → List (Bytes × V)
  unfolding without
  rawset k none t = without k t
  rawset k (some v) t = (k, v) ∷ without k t

  rawget-without :
      (k j : Bytes) (t : List (Bytes × V))
      → rawget j (without k t) ≡ (if same_bytes k j then none else rawget j t)
  unfolding rawget without
  rawget-without k j [] = ground arith
  rawget-without k j ((i, v) ∷ t) = ground (
    arith,
    rawget-without k j t,
    same_bytes_sound i k,
    same_bytes_sound i j,
    same_bytes_sound k j,
    same_bytes_refl i,
  )

  -- A read after a write.
  pub rawget-rawset :
      (k j : Bytes) (o : Option V) (t : List (Bytes × V))
      → rawget j (rawset k o t) ≡ (if same_bytes k j then o else rawget j t)
  unfolding rawget rawset
  rawget-rawset k j none t = rawget-without k j t
  rawget-rawset k j (some v) t = ground (arith, rawget-without k j t)
