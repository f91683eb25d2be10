-- ===== src/Util/Interval.antt =====
-- Rounding and splitting: `align`, `ceildiv` and `split_interval` of src/util.rs.
use native.Mathlib.Nat.{div-add-mod, mod-lt}
use native.Mathlib.Decide.{dec_le}
use waypipe.Base.{
  ℕ, suc, ◌+◌, ◌-◌, ◌*◌, ◌/◌, ◌%◌, ◌^◌, ◌≤◌, ◌<◌, ◌≡◌, ap, ◌∙◌, arith, ok, IsU32, Bool-cases, inl,
  inr, ◌==◌,
}
use waypipe.Util.{wrap32, align, split_interval, ceildiv}

-- A quotient between its bounds.
pub div_bounds : (a n : ℕ) → 0 < n → (n * (a / n) ≤ a) × (a < n * (a / n) + n)
div_bounds a n h = ground (arith, div-add-mod a n, mod-lt a h)

pub le_of_mul-lt : (n k j : ℕ) → n * k < n * j + n → k ≤ j
le_of_mul-lt n k j h = elim (dec_le k j) [ yes p ↦ p | no p ↦ absurd (step (omega arith)) ]
  where
    step : suc j ≤ k → ⊥
    step q = grind arith

-- For `y` above 0, where the sum `x + (y - 1)` is in the range of usize, `align x y` is the least
-- multiple of `y` that is not below `x`: it lies less than `y` above.
pub align_lem :
    (x y : ℕ)
    → 0 < y
    → x + (y - 1) < 2 ^ 64
    → (k : ℕ) × (align x y ≡ ok (y * k)) × (x ≤ y * k) × (y * k < x + y)
unfolding align
align_lem x y pos fits = (
  (x + (y - 1)) / y,
  ground arith,
  (omega (arith, (div_bounds (x + (y - 1)) y pos).1)),
  omega (arith, div_bounds (x + (y - 1)) y pos),
)

-- one more share of the remainder
pub share-suc : (i r n : ℕ) → r < n → (i * r / n ≤ suc i * r / n) × (suc i * r / n ≤ i * r / n + 1)
share-suc i r n h =
    let a = div_bounds (i * r) n (omega arith) in
    let b = div_bounds (suc i * r) n (omega arith) in
    let next : suc i * r ≡ i * r + r = omega arith in
    (
      le_of_mul-lt n (i * r / n) (suc i * r / n) (omega (arith, a, b, next)),
      le_of_mul-lt n (suc i * r / n) (i * r / n + 1) (omega (arith, a, b, next)),
    )

pub share_all : (r n : ℕ) → 0 < n → n * r / n ≡ r
share_all r n h = omega (
  arith,
  le_of_mul-lt n (n * r / n) r (omega (arith, div_bounds (n * r) n h)),
  le_of_mul-lt n r (n * r / n) (omega (arith, div_bounds (n * r) n h)),
)

pub mul_mono : (a b c d : ℕ) → a ≤ b → c ≤ d → a * c ≤ b * d
mul_mono a b c d p q = grind arith

-- The share of a remainder is at most the remainder.
pub share_le : (i r n : ℕ) → 0 < n → i ≤ n → i * r / n ≤ r
share_le i r n h k =
    le_of_mul-lt n (i * r / n) r
      (omega (arith, div_bounds (i * r) n h, mul_mono i n r r k (omega arith)))

-- The boundary `i`: `i` parts of the quotient's size, and a share of the remainder.
abbrev pub boundary : ℕ → ℕ → ℕ → ℕ → ℕ
boundary lo size n i = lo + i * (size / n) + i * (size % n) / n

pub split_lem :
    (lo hi n i : ℕ)
    → lo ≤ hi
    → IsU32 hi
    → 0 < n
    → n < 2 ^ 15
    → hi - lo < 2 ^ 31
    → i ≤ n
    → split_interval lo hi n i ≡ ok (boundary lo (hi - lo) n i)
unfolding split_interval
split_lem lo hi n i h u p q r k =
    let size = hi - lo in
    let whole : wrap32 (2 ^ 32 + hi - lo) ≡ size = omega arith in
    rw whole (
      ground (
        arith,
        mul_mono i n (size / n) (size / n) k (omega arith),
        mul_mono i (2 ^ 15) (size % n) (2 ^ 15) (omega arith) (omega (arith, mod-lt size p)),
        share_le i (size % n) n p k,
        div-add-mod size n,
      ))

-- For `lo` up to `hi`, which is a u32, a distance below 2^31, and a number of parts below 2^15:
-- the first boundary of `split_interval` is `lo`, the last is `hi`, and from one boundary to the
-- next it is the quotient of the distance by the number of parts, or one more.
pub split_interval_parts :
    (lo hi n i : ℕ)
    → lo ≤ hi
    → IsU32 hi
    → n < 2 ^ 15
    → hi - lo < 2 ^ 31
    → i < n
    → (split_interval lo hi n 0 ≡ ok lo)
      × (split_interval lo hi n n ≡ ok hi)
      × (b : ℕ) × (b' : ℕ) × (split_interval lo hi n i ≡ ok b)
      × (split_interval lo hi n (suc i) ≡ ok b')
      × (b + (hi - lo) / n ≤ b')
      × (b' ≤ b + (hi - lo) / n + 1)
split_interval_parts lo hi n i h u q r inside =
    let size = hi - lo in
    let p : 0 < n = omega arith in
    (
      split_lem lo hi n 0 h u p q r (omega arith)
          ∙ ap ok (omega (arith, share_le 0 (size % n) n p (omega arith))),
      split_lem lo hi n n h u p q r (omega arith)
          ∙ ap ok (omega (arith, share_all (size % n) n p, div-add-mod size n)),
      boundary lo size n i,
      boundary lo size n (suc i),
      split_lem lo hi n i h u p q r (omega arith),
      split_lem lo hi n (suc i) h u p q r inside,
      omega (arith, share-suc i (size % n) n (mod-lt size p)),
      omega (arith, share-suc i (size % n) n (mod-lt size p)),
    )

-- For `u` above 0, `ceildiv v u` is the least number of parts of size `u` that hold `v`: with one
-- part less they do not.
pub ceildiv_lem : (v u : ℕ) → 0 < u → (k : ℕ) × (ceildiv v u ≡ ok k) × (v ≤ u * k) × (u * k < v + u)
unfolding ceildiv
ceildiv_lem v u pos = elim (Bool-cases (v % u == 0)) [
  | inl exact ↦
      (v / u, ground arith, ground (arith, div-add-mod v u), ground (arith, div-add-mod v u))
  | inr more ↦
      (v / u + 1, ground arith, omega (arith, div_bounds v u pos), ground (arith, div-add-mod v u))
]
