-- ===== src/Base/Bytes.antt =====
-- Bytes, and unsigned words as little-endian bytes.
use Prim.Native.Nat.{ℕ, ◌+◌, ◌-◌, ◌*◌, ◌/◌, ◌%◌, ◌^◌, ◌<◌}
use mathlib.Core.Path.{◌≡◌, refl, ap}
use mathlib.Core.List.{List, [], ◌∷◌}
use mathlib.Core.Option.{Option, none, some}
use native.Mathlib.Omega.{arith}
use waypipe.Base.Lists.{length}

abbrev pub IsU32 : ℕ → Type 0
IsU32 x = x < 2 ^ 32

abbrev pub IsU64 : ℕ → Type 0
IsU64 x = x < 2 ^ 64

-- `usize::MAX`, on a 64-bit target
abbrev pub usize_max : ℕ
usize_max = 2 ^ 64 - 1

-- `u32::to_le_bytes`
unfoldable pub to_le_bytes : ℕ → List ℕ
to_le_bytes x = (x % 256) ∷ (x / 256 % 256) ∷ (x / 65536 % 256) ∷ (x / 16777216 % 256) ∷ []

-- `u32::from_le_bytes(xs.try_into().unwrap())`
unfoldable pub from_le_bytes : List ℕ → Option ℕ
from_le_bytes (a ∷ b ∷ c ∷ d ∷ []) = some (a + 256 * b + 65536 * c + 16777216 * d)
from_le_bytes _ = none

pub from_le_bytes-to_le_bytes : (x : ℕ) → IsU32 x → from_le_bytes (to_le_bytes x) ≡ some x
unfolding to_le_bytes from_le_bytes
from_le_bytes-to_le_bytes x h = ap some (omega arith)

-- The four bytes of a word, wherever they stand in a list, are its encoding.
pub length-to_le_bytes : (x : ℕ) → ◌≡◌ {A = ℕ} (length (to_le_bytes x)) 4
unfolding to_le_bytes
length-to_le_bytes x = refl
