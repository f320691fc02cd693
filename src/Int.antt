-- ===== src/Int.antt =====
-- Signed integers over the native numbers: what C's signed types hold.
pub mod Range
use gluamysql.Base.{ℕ, ◌-◌, ◌%◌, ◌^◌, ltb, if◌then◌else◌}

-- `negsuc n` is -(n + 1).
pub data ℤ : Type 0 where
  pos : ℕ → ℤ
  negsuc : ℕ → ℤ

-- The conversion of an unsigned number to a signed type of `w` bits.
unfoldable pub to_signed : ℕ → ℕ → ℤ
to_signed w n =
    let r : ℕ = n % 2 ^ w in if ltb r (2 ^ (w - 1)) then pos r else negsuc (2 ^ w - r - 1)
