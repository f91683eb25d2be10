-- ===== src/Damage/Union.antt =====
-- `union_damage` of src/damage.rs: its output as a list of intervals.
use waypipe.Base.{
  ℕ, ◌+◌, ◌-◌, ◌≤◌, ◌<◌, ◌≡◌, Option, none, some, List, [], ◌∷◌, ◌++◌, arith, ltb, leb, All, ok,
  max, if_cases, ◌⊎◌, ◌||◌,
}
use waypipe.Damage.{Interval, absorb, union_loop, union_damage, validate_output}
use waypipe.Damage.Valid.{IsProper, StartsFrom, IsApart, IsInRange, validate_output_lem}

StartsFrom-trans : (x z : ℕ) (l : List Interval) → x ≤ z → StartsFrom z l → StartsFrom x l
StartsFrom-trans x z [] h s = tt
StartsFrom-trans x z (e ∷ l) h s = omega arith

-- What is pushed from the time when `last` starts at `start`.
abbrev IsGood : ℕ → ℕ → ℕ → List Interval → Type 0
IsGood g k start out = StartsFrom start out × All (IsProper k) out × IsApart g out

-- The two outcomes of a round.
pub absorb_cases :
    (g : ℕ) (y e : Interval) (P : List Interval × Option Interval → Type 0)
    → ((e.0 ≤ y.1) ⊎ (e.0 < y.1 + g) → P ([], some (y.0, max (y.1) (e.1))))
    → (y.1 < e.0 → y.1 + g ≤ e.0 → P (y ∷ [], some e))
    → P (absorb g (some y) e)
unfolding absorb
absorb_cases g y e P merge push =
    if_cases P (leb (e.0) (y.1) || ltb (e.0 - y.1) g) (λ h. merge (ground arith))
      (λ h. push (ground arith) (ground arith))

absorb-IsGood :
    (g k : ℕ) (y e : Interval) (rest : Option Interval → List Interval)
    → IsProper k y
    → IsProper k e
    → ((z : Interval) → IsProper k z → IsGood g k (z.0) (rest (some z)))
    → let (out, last) = absorb g (some y) e in IsGood g k (y.0) (out ++ rest last)
absorb-IsGood g k y e rest py pe ih =
    absorb_cases g y e (λ r. IsGood g k (y.0) (r.0 ++ rest (r.1)))
      (λ _. ih (y.0, max (y.1) (e.1)) (ground arith))
      (λ l m.
        let (s, p, q) = ih e pe in
        (ground arith, (py, p), (StartsFrom-trans (y.1 + g) (e.0) (rest (some e)) m s, q)))

union_loop-some :
    (g k : ℕ) (a b : List Interval) (y : Interval)
    → All (IsProper k) a
    → All (IsProper k) b
    → IsProper k y
    → IsGood g k (y.0) (union_loop g a b (some y))
unfolding union_loop
union_loop-some g k [] [] y pa pb py = ground arith
union_loop-some g k (e ∷ a) [] y (pe, pa) pb py =
    absorb-IsGood g k y e (union_loop g a []) py pe (λ z pz. union_loop-some g k a [] z pa pb pz)
union_loop-some g k [] (e ∷ b) y pa (pe, pb) py =
    absorb-IsGood g k y e (union_loop g [] b) py pe (λ z pz. union_loop-some g k [] b z pa pb pz)
union_loop-some g k (ea ∷ a) (eb ∷ b) y (pe, pa) (pe', pb) py =
    if_cases (IsGood g k (y.0)) (leb (ea.0) (eb.0))
      (λ _.
        absorb-IsGood g k y ea (union_loop g a (eb ∷ b)) py pe
          (λ z pz. union_loop-some g k a (eb ∷ b) z pa (pe', pb) pz))
      (λ _.
        absorb-IsGood g k y eb (union_loop g (ea ∷ a) b) py pe'
          (λ z pz. union_loop-some g k (ea ∷ a) b z (pe, pa) pb pz))

valid : (g k : ℕ) (x : ℕ) (l : List Interval) → IsGood g k x l → All (IsProper k) l × IsApart g l
valid g k x l (s, p, q) = (p, q)

union_loop-none :
    (g k : ℕ) (a b : List Interval)
    → All (IsProper k) a
    → All (IsProper k) b
    → All (IsProper k) (union_loop g a b none) × IsApart g (union_loop g a b none)
unfolding union_loop absorb
union_loop-none g k [] [] pa pb = (tt, tt)
union_loop-none g k (e ∷ a) [] (pe, pa) pb = valid g k _ _ (union_loop-some g k a [] e pa pb pe)
union_loop-none g k [] (e ∷ b) pa (pe, pb) = valid g k _ _ (union_loop-some g k [] b e pa pb pe)
union_loop-none g k (ea ∷ a) (eb ∷ b) (pe, pa) (pe', pb) =
    if_cases (λ out. All (IsProper k) out × IsApart g out) (leb (ea.0) (eb.0))
      (λ _. valid g k _ _ (union_loop-some g k a (eb ∷ b) ea pa (pe', pb) pe))
      (λ _. valid g k _ _ (union_loop-some g k (ea ∷ a) b eb (pe, pa) pb pe'))

-- Every number is a multiple of 2 ^ 0.
unaligned : (k : ℕ) (l : List Interval) → All (IsProper k) l → All (IsProper 0) l
unaligned k [] p = tt
unaligned k ((x, y) ∷ l) ((h, _, _), p) = ((h, omega arith, omega arith), unaligned k l p)

validated :
    (l : List Interval) (g k : ℕ)
    → All (IsInRange g) l
    → All (IsProper k) l
    → IsApart g l
    → validate_output l 0 g ≡ ok tt
validated l g k r p a = (validate_output_lem l 0 g r).1 (unaligned k l p, a)

-- On two lists whose intervals are nonempty, aligned and `min_gap` apart, with all ends at least
-- `min_gap` below 2^64, `union_damage` returns a list whose intervals are again nonempty, aligned
-- as the inputs are, and `min_gap` apart.
pub union_damage_valid :
    (a b : List Interval) (g k : ℕ)
    → All (IsInRange g) a
    → All (IsInRange g) b
    → All (IsProper k) a × IsApart g a
    → All (IsProper k) b × IsApart g b
    → (out : List Interval) × (union_damage a b g ≡ ok out) × All (IsProper k) out × IsApart g out
unfolding union_damage
union_damage_valid a b g k ra rb (pa, ga) (pb, gb) =
    let (p, q) = union_loop-none g k a b pa pb in
    (union_loop g a b none, rw (validated a g k ra pa ga, validated b g k rb pb gb), p, q)
