-- ===== src/Damage/Rows.antt =====
-- The rows of a rectangle in src/damage.rs, as intervals of a buffer.
use waypipe.Base.{ℕ, ◌+◌, ◌-◌, ◌*◌, ◌/◌, ◌^◌, ◌≤◌, ◌<◌, ◌≡◌, arith, ok}
use waypipe.Util.Interval.{div_bounds, le_of_mul-lt}
use waypipe.Wayland.{checked_next_multiple_of}
use waypipe.Damage.Rects.{align_down, align_up, wrap64}

pub div_mono : (x y n : ℕ) → 0 < n → x ≤ y → x / n ≤ y / n
div_mono x y n p h =
    le_of_mul-lt n (x / n) (y / n) (omega (arith, div_bounds x n p, div_bounds y n p))

mul_mono : (a b n : ℕ) → a ≤ b → a * n ≤ b * n
mul_mono a b n h = grind arith

pub align_down_le : (x k : ℕ) → 0 < 2 ^ k → align_down x k ≤ x
align_down_le x k p = omega (arith, (div_bounds x (2 ^ k) p).0)

pub align_down_mono : (x y k : ℕ) → 0 < 2 ^ k → x ≤ y → align_down x k ≤ align_down y k
align_down_mono x y k p h = mul_mono (x / 2 ^ k) (y / 2 ^ k) (2 ^ k) (div_mono x y (2 ^ k) p h)

-- What `align_up` gives
abbrev pub rounded : ℕ → ℕ → ℕ
rounded x k = (x + (2 ^ k - 1)) / 2 ^ k * 2 ^ k

pub rounded_mono : (x y k : ℕ) → 0 < 2 ^ k → x ≤ y → rounded x k ≤ rounded y k
rounded_mono x y k p h =
    mul_mono ((x + (2 ^ k - 1)) / 2 ^ k) ((y + (2 ^ k - 1)) / 2 ^ k) (2 ^ k)
      (div_mono (x + (2 ^ k - 1)) (y + (2 ^ k - 1)) (2 ^ k) p (omega arith))

pub align_up_lem :
    (x k : ℕ)
    → 0 < 2 ^ k
    → x + 2 ^ k ≤ 2 ^ 64
    → (align_up x k ≡ ok (rounded x k)) × (x ≤ rounded x k)
unfolding align_up checked_next_multiple_of
align_up_lem x k p h = (
  ground (arith, div_bounds (x + (2 ^ k - 1)) (2 ^ k) p),
  omega (arith, (div_bounds (x + (2 ^ k - 1)) (2 ^ k) p)),
)

module _ (offset stride bpp : ℕ) where
  abbrev pub byte_at : ℕ → ℕ → ℕ
  byte_at y x = offset + y * stride + x * bpp

  pub byte_at_mono : (y y' x x' : ℕ) → y ≤ y' → x ≤ x' → byte_at y x ≤ byte_at y' x'
  byte_at_mono y y' x x' h k = grind arith

  pub byte_at_lt : (y x x' : ℕ) → 0 < bpp → x < x' → byte_at y x < byte_at y x'
  byte_at_lt y x x' p k = grind arith

  pub place_lem : (y x : ℕ) → byte_at y x < 2 ^ 64 → wrap64 (byte_at y x) ≡ byte_at y x
  place_lem y x h = omega arith
