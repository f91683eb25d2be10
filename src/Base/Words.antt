-- ===== src/Base/Words.antt =====
-- Reading a little-endian u32 out of a buffer.
use Prim.Native.Nat.{ℕ, ◌+◌}
use mathlib.Core.Path.{◌≡◌}
use mathlib.Core.List.{List, ◌++◌}
use native.Mathlib.Omega.{arith}
use waypipe.Base.Lists.{length}
use waypipe.Base.Slices.{slice, slice_mid}
use waypipe.Base.Bytes.{
  IsU32, to_le_bytes, from_le_bytes, from_le_bytes-to_le_bytes, length-to_le_bytes,
}
use waypipe.Base.Results.{Outcome, ok, ◌>>=◌, unwrap}

-- `u32::from_le_bytes(xs[a..a + 4].try_into().unwrap())`
unfoldable pub read_word : {E : Type 0} → List ℕ → ℕ → Outcome E ℕ
read_word xs a = do four ← unwrap (slice xs a (a + 4)); unwrap (from_le_bytes four)

-- A word is read where it stands.
pub read_word_behind :
    {E : Type 0} (front rest : List ℕ) (n a : ℕ)
    → IsU32 n
    → a ≡ length front
    → read_word {E = E} (front ++ (to_le_bytes n ++ rest)) a ≡ ok n
unfolding read_word
read_word_behind {E} front rest n a h e = rw (
  slice_mid front (to_le_bytes n) rest a (a + 4) e (omega (arith, length-to_le_bytes n)),
  from_le_bytes-to_le_bytes n h,
)
