-- ===== src/Common/Words.antt =====
-- Machine words as native numbers: casts by `%`, shifts by `/` and `*`.
use Prim.Native.Nat.{ℕ, ◌*◌, ◌/◌, ◌%◌, ◌^◌, ◌<◌}
use mathlib.Core.List.{List}
use vfrs.Common.Lists.{All}

-- `x >> k`
infixl 68 ◌>>>◌ ◌<<<◌
abbrev pub ◌>>>◌ : ℕ → ℕ → ℕ
x >>> k = x / 2 ^ k

-- `x << k`, before any cast
abbrev pub ◌<<<◌ : ℕ → ℕ → ℕ
x <<< k = x * 2 ^ k

abbrev pub u8 : ℕ → ℕ
u8 x = x % 2 ^ 8

abbrev pub u16 : ℕ → ℕ
u16 x = x % 2 ^ 16

abbrev pub u32 : ℕ → ℕ
u32 x = x % 2 ^ 32

abbrev pub u64 : ℕ → ℕ
u64 x = x % 2 ^ 64

-- The octets of a buffer are below 256.
abbrev pub IsByte : ℕ → Type 0
IsByte b = b < 2 ^ 8

abbrev pub Bytes : List ℕ → Type 0
Bytes = All IsByte
