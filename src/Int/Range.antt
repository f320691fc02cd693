-- ===== src/Int/Range.antt =====
-- What the conversion to a signed type keeps.
use gluamysql.Base.{ℕ, zero, suc, ◌+◌, ◌-◌, ◌%◌, ◌^◌, ◌<◌, ◌≡◌, refl, subst, arith, ltb, if_elim}
use gluamysql.Int.{ℤ, pos, negsuc, to_signed}

-- A number of a signed type of `w` bits, and the unsigned number with the same bits.
abbrev pub IsSigned : ℕ → ℤ → Type 0
IsSigned w (pos n) = n < 2 ^ (w - 1)
IsSigned w (negsuc n) = n < 2 ^ (w - 1)

abbrev pub to_unsigned : ℕ → ℤ → ℕ
to_unsigned w (pos n) = n
to_unsigned w (negsuc n) = 2 ^ w - n - 1

positive : (v : ℕ) → 0 < 2 ^ v
positive zero = omega arith
positive (suc v) = omega (arith, positive v)

double : (w : ℕ) → 0 < w → 2 ^ w ≡ 2 ^ (w - 1) + 2 ^ (w - 1)
double zero h = absurd omega (arith, h)
double (suc v) h =
    let e : v ≡ suc v - 1 = omega arith in subst (λ u. 2 ^ suc v ≡ 2 ^ u + 2 ^ u) e (omega arith)

pub to_signed-IsSigned : (w n : ℕ) → 0 < w → IsSigned w (to_signed w n)
unfolding to_signed
to_signed-IsSigned w n h =
    let r : ℕ = n % 2 ^ w in
    let d = double w h in
    let p = positive (w - 1) in
    let m : r < 2 ^ w = omega (arith, positive w) in
    if_elim (IsSigned w) (ltb r (2 ^ (w - 1))) (λ e. ground (arith, e))
      (λ e. ground (arith, e, d, m))

pub to_unsigned-to_signed : (w n : ℕ) → 0 < w → to_unsigned w (to_signed w n) ≡ n % 2 ^ w
unfolding to_signed
to_unsigned-to_signed w n h =
    let r : ℕ = n % 2 ^ w in
    let m : r < 2 ^ w = omega (arith, positive w) in
    if_elim (λ z. to_unsigned w z ≡ r) (ltb r (2 ^ (w - 1))) (λ e. refl) (λ e. omega (arith, m))
