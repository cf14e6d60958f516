-- ===== src/BigInt/Range.antt =====
-- The values of int64_t and of long, for numerica_core/big_int.cc.
use stocas.Common.{ℕ, ◌-◌, ◌%◌, ◌^◌, ◌<◌, ◌≤◌, ltb, if◌then◌else◌}
use stocas.Common.Int.{ℤ, pos, negsuc, pos_part, neg_part}

abbrev pub int64_max : ℤ
int64_max = pos (2 ^ 63 - 1)

abbrev pub int64_min : ℤ
int64_min = negsuc (2 ^ 63 - 1)

abbrev pub InRange : ℤ → Type 0
InRange z = (pos_part z < 2 ^ 63) × (neg_part z ≤ 2 ^ 63)

-- The values of a long of w bits.
abbrev pub FitsLong : ℕ → ℤ → Type 0
FitsLong w z = (pos_part z < 2 ^ (w - 1)) × (neg_part z ≤ 2 ^ (w - 1))

abbrev to_signed : ℕ → ℕ → ℤ
to_signed w r = if ltb r (2 ^ (w - 1)) then pos r else negsuc (2 ^ w - 1 - r)

-- The conversion of an int64_t to a long of w bits, modulo 2 ^ w.
unfoldable pub as_long : ℕ → ℤ → ℤ
as_long w (pos n) = to_signed w (n % 2 ^ w)
as_long w (negsuc n) = to_signed w (2 ^ w - 1 - n % 2 ^ w)
