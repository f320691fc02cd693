-- ===== src/Querying/Counts.antt =====
-- The numbers that `Finish` of a query puts into the table of its rows.
use gluamysql.Base.{ℕ, ◌%◌, ◌^◌, ◌<◌, ◌≤◌, ◌≡◌, refl, subst, sym, ap, ◌∙◌, false, some, arith, ◌==◌}
use gluamysql.Int.{ℤ, pos, negsuc, to_signed}
use gluamysql.Int.Range.{IsSigned, to_unsigned, to_signed-IsSigned, to_unsigned-to_signed}
use gluamysql.Lua.{ResultTable}
use gluamysql.Host.{Host}
use gluamysql.Querying.{no_rows, with_counts}

-- The integers that a `double` holds, whatever their bits: up to 2 ^ 53.
abbrev pub IsExact : ℤ → Type 0
IsExact (pos n) = n ≤ 2 ^ 53
IsExact (negsuc n) = n < 2 ^ 53

is_not_zero : (n : ℕ) → 0 < n → (n == 0) ≡ false
is_not_zero n p = ground arith

is_not_no_rows : (n : ℕ) → n ≤ 2 ^ 53 → (n == no_rows) ≡ false
is_not_no_rows n p = ground arith

to_signed_small : (n : ℕ) → n ≤ 2 ^ 53 → to_signed 64 n ≡ pos n
unfolding to_signed
to_signed_small n p = ground arith

module _ {C N : Type 0} (h : Host C N) where
  read_back :
      (read : N → ℤ)
      → ((z : ℤ) → IsExact z → read (h.numbers.of_integer z) ≡ z)
      → h.integer_bits ≡ 64
      → (n : ℕ) → n ≤ 2 ^ 53
      → read (h.numbers.of_integer (to_signed h.integer_bits n)) ≡ pos n
  read_back read exact w n p =
      subst (λ z. read (h.numbers.of_integer z) ≡ pos n)
        (sym (to_signed_small n p) ∙ ap (λ k. to_signed k n) (sym w)) (exact (pos n) p)

  -- Where the client has an insert id and a number of affected rows, both come into the table as what
  -- `lua_pushinteger` makes of integers in the range of `lua_Integer` that have the bits of the
  -- client's numbers, as many as `lua_Integer` has; the rows stay as they are.
  pub with_counts-IsSigned :
      (c : C) (t : ResultTable N)
      → 0 < h.integer_bits
      → (h.insert_id c == 0) ≡ false
      → (h.affected_rows c == no_rows) ≡ false
      → (id affected : ℤ) × (with_counts h c t ≡ record t {
        last_insert_id = some (h.numbers.of_integer id);
        affected_rows = some (h.numbers.of_integer affected);
      })
        × IsSigned h.integer_bits id
        × IsSigned h.integer_bits affected
        × (to_unsigned h.integer_bits id ≡ h.insert_id c % 2 ^ h.integer_bits)
        × (to_unsigned h.integer_bits affected ≡ h.affected_rows c % 2 ^ h.integer_bits)
  unfolding with_counts
  with_counts-IsSigned c t p e f =
      let w = h.integer_bits in
      (
        to_signed w (h.insert_id c),
        to_signed w (h.affected_rows c),
        rw (e, f) refl,
        to_signed-IsSigned w (h.insert_id c) p,
        to_signed-IsSigned w (h.affected_rows c) p,
        to_unsigned-to_signed w (h.insert_id c) p,
        to_unsigned-to_signed w (h.affected_rows c) p,
      )

  -- If `lua_pushinteger` keeps the integers up to 2 ^ 53, as the numbers of Lua are doubles, and
  -- `lua_Integer` has 64 bits, then an insert id and a number of affected rows up to 2 ^ 53 come into
  -- the table as numbers that are read back as the client gave them; the rows stay as they are.
  pub with_counts_exact :
      (read : N → ℤ) (c : C) (t : ResultTable N)
      → ((z : ℤ) → IsExact z → read (h.numbers.of_integer z) ≡ z)
      → h.integer_bits ≡ 64
      → 0 < h.insert_id c
      → h.insert_id c ≤ 2 ^ 53
      → h.affected_rows c ≤ 2 ^ 53
      → (id affected : N) × (with_counts h c t
          ≡ record t { last_insert_id = some id; affected_rows = some affected })
        × (read id ≡ pos (h.insert_id c))
        × (read affected ≡ pos (h.affected_rows c))
  unfolding with_counts
  with_counts_exact read c t exact w p e f = (
    h.numbers.of_integer (to_signed h.integer_bits (h.insert_id c)),
    h.numbers.of_integer (to_signed h.integer_bits (h.affected_rows c)),
    rw (is_not_zero (h.insert_id c) p, is_not_no_rows (h.affected_rows c) f) refl,
    read_back read exact w (h.insert_id c) e,
    read_back read exact w (h.affected_rows c) f,
  )
