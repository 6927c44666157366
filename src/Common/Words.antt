-- ===== src/Common/Words.antt =====
-- Machine words: `uint64_t`, `uint32_t` and `uint16_t` with their wrap, and the conversions of C
-- between `uint64_t` and `int64_t`.
use Prim.Native.Nat.{ℕ, ◌+◌, ◌-◌, ◌*◌, ◌%◌, ◌^◌}
use profit_playground.Common.Tests.{ltb, if◌then◌else◌}
use profit_playground.Common.Int.{ℤ, pos, negsuc, pos_part, neg_part}

abbrev pub add64 : ℕ → ℕ → ℕ
add64 a b = (a + b) % 2 ^ 64

abbrev pub sub64 : ℕ → ℕ → ℕ
sub64 a b = (a + 2 ^ 64 - b) % 2 ^ 64

abbrev pub mul64 : ℕ → ℕ → ℕ
mul64 a b = a * b % 2 ^ 64

abbrev pub add32 : ℕ → ℕ → ℕ
add32 a b = (a + b) % 2 ^ 32

abbrev pub sub32 : ℕ → ℕ → ℕ
sub32 a b = (a + 2 ^ 32 - b) % 2 ^ 32

abbrev pub add16 : ℕ → ℕ → ℕ
add16 a b = (a + b) % 2 ^ 16

abbrev pub sub16 : ℕ → ℕ → ℕ
sub16 a b = (a + 2 ^ 16 - b) % 2 ^ 16

-- `(int64_t)n` of a `uint64_t`.
abbrev pub to_i64 : ℕ → ℤ
to_i64 n = if ltb n (2 ^ 63) then pos n else negsuc (2 ^ 64 - n - 1)

-- `(uint64_t)a` of an `int64_t`.
abbrev pub to_u64 : ℤ → ℕ
to_u64 a = (pos_part a + 2 ^ 64 - neg_part a) % 2 ^ 64
