-- ===== src/Damage/Valid.antt =====
-- `validate_output` of src/damage.rs, and what a valid list of intervals is.
use waypipe.Base.{ℕ, ◌+◌, ◌%◌, ◌^◌, ◌≤◌, ◌<◌, ◌≡◌, refl, ◌↔◌, List, [], ◌∷◌, arith, All, ok}
use waypipe.Damage.{Interval, check_each, check_gaps, validate_output}

abbrev pub IsProper : ℕ → Interval → Type 0
IsProper align_bits (x, y) = (x < y) × (x % 2 ^ align_bits ≡ 0) × (y % 2 ^ align_bits ≡ 0)

-- The first interval, if there is one, starts at `bound` or later.
abbrev pub StartsFrom : ℕ → List Interval → Type 0
StartsFrom bound [] = Unit
StartsFrom bound ((x, y) ∷ rest) = bound ≤ x

-- Between one interval and the next there are `min_gap` bytes at least.
abbrev pub IsApart : ℕ → List Interval → Type 0
IsApart min_gap [] = Unit
IsApart min_gap ((x, y) ∷ rest) = StartsFrom (y + min_gap) rest × IsApart min_gap rest

-- The sums of `validate_output` do not overflow.
abbrev pub IsInRange : ℕ → Interval → Type 0
IsInRange min_gap (x, y) = y + min_gap < 2 ^ 64

check_each-IsProper : (l : List Interval) (k : ℕ) → check_each l k ≡ ok tt → All (IsProper k) l
unfolding check_each
check_each-IsProper [] k h = tt
check_each-IsProper ((x, y) ∷ l) k h = ground (arith, check_each-IsProper l k)

IsProper-check_each : (l : List Interval) (k : ℕ) → All (IsProper k) l → check_each l k ≡ ok tt
unfolding check_each
IsProper-check_each [] k h = refl
IsProper-check_each ((x, y) ∷ l) k (h, hs) = ground (arith, IsProper-check_each l k hs)

check_gaps-IsApart :
    (e : ℕ) (l : List Interval) (g : ℕ)
    → e + g < 2 ^ 64
    → All (IsInRange g) l
    → check_gaps e l g ≡ ok tt
    → StartsFrom (e + g) l × IsApart g l
unfolding check_gaps
check_gaps-IsApart e [] g r rs h = (tt, tt)
check_gaps-IsApart e ((x, y) ∷ l) g r (r', rs) h = ground (arith, check_gaps-IsApart y l g r' rs)

IsApart-check_gaps :
    (e : ℕ) (l : List Interval) (g : ℕ)
    → e + g < 2 ^ 64
    → All (IsInRange g) l
    → StartsFrom (e + g) l
    → IsApart g l
    → check_gaps e l g ≡ ok tt
unfolding check_gaps
IsApart-check_gaps e [] g r rs s h = refl
IsApart-check_gaps e ((x, y) ∷ l) g r (r', rs) s (s', h) =
    ground (arith, IsApart-check_gaps y l g r' rs s' h)

-- On a list whose ends are at least `min_gap` below 2 ^ 64, `validate_output` returns `Ok`
-- exactly when every interval is nonempty with both ends aligned, and consecutive ones are
-- `min_gap` apart.
pub validate_output_lem :
    (l : List Interval) (k g : ℕ)
    → All (IsInRange g) l
    → (validate_output l k g ≡ ok tt) ↔ (All (IsProper k) l × IsApart g l)
unfolding validate_output
validate_output_lem [] k g rs = ground (arith, IsProper-check_each [] k tt)
validate_output_lem ((x, y) ∷ l) k g (r, rs) = ground (
  arith,
  check_each-IsProper ((x, y) ∷ l) k,
  IsProper-check_each ((x, y) ∷ l) k,
  check_gaps-IsApart y l g r rs,
  IsApart-check_gaps y l g r rs,
)
