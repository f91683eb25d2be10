-- ===== src/Damage/Cover.antt =====
-- `union_damage` of src/damage.rs: which bytes its output covers.
use waypipe.Base.{
  ℕ, ◌+◌, ◌≤◌, ◌<◌, ◌≡◌, Option, none, some, List, [], ◌∷◌, ◌++◌, arith, leb, All, ok, max,
  if_cases, ◌⊎◌,
}
use waypipe.Damage.{Interval, absorb, union_loop, union_damage, validate_output}
use waypipe.Damage.Valid.{IsProper, StartsFrom, IsApart, IsInRange, validate_output_lem}
use waypipe.Damage.Union.{absorb_cases}

abbrev pub Within : ℕ → Interval → Type 0
Within p (x, y) = x ≤ p × p < y

abbrev pub Covers : ℕ → List Interval → Type 0
Covers p [] = ⊥
Covers p (e ∷ l) = Within p e ⊎ Covers p l

-- The starts do not decrease, from `start` on.
abbrev IsSortedFrom : ℕ → List Interval → Type 0
IsSortedFrom start [] = Unit
IsSortedFrom start (e ∷ l) = start ≤ e.0 × IsSortedFrom (e.0) l

IsSortedFrom-trans : (x z : ℕ) (l : List Interval) → x ≤ z → IsSortedFrom z l → IsSortedFrom x l
IsSortedFrom-trans x z [] h s = tt
IsSortedFrom-trans x z (e ∷ l) h (s, t) = (omega arith, t)

IsApart-IsSortedFrom :
    (x g k : ℕ) (l : List Interval)
    → StartsFrom x l
    → All (IsProper k) l
    → IsApart g l
    → IsSortedFrom x l
IsApart-IsSortedFrom x g k [] s p a = tt
IsApart-IsSortedFrom x g k (e ∷ l) s (pe, p) (s', a) = (
  s,
  IsSortedFrom-trans (e.0) (e.1 + g) l (omega arith) (IsApart-IsSortedFrom (e.1 + g) g k l s' p a),
)

absorb-Covers :
    (g : ℕ) (y e : Interval) (rest : Option Interval → List Interval) (p : ℕ) (R : Type 0)
    → y.0 ≤ e.0
    → ((z : Interval) → z.0 ≤ e.0 → Within p z ⊎ R → Covers p (rest (some z)))
    → Within p y ⊎ (Within p e ⊎ R)
    → let (out, last) = absorb g (some y) e in Covers p (out ++ rest last)
absorb-Covers g y e rest p R s ih h =
    absorb_cases g y e (λ r. Covers p (r.0 ++ rest (r.1)))
      (λ _. ih (y.0, max (y.1) (e.1)) s (ground arith)) (λ l m. ground (arith, ih e))

union_loop-Covers :
    (g : ℕ) (a b : List Interval) (y : Interval) (p : ℕ)
    → IsSortedFrom (y.0) a
    → IsSortedFrom (y.0) b
    → Within p y ⊎ (Covers p a ⊎ Covers p b)
    → Covers p (union_loop g a b (some y))
unfolding union_loop
union_loop-Covers g [] [] y p sa sb h = ground arith
union_loop-Covers g (e ∷ a) [] y p (s, sa) sb h =
    absorb-Covers g y e (union_loop g a []) p (Covers p a ⊎ Covers p []) s
      (λ z l h'. union_loop-Covers g a [] z p (IsSortedFrom-trans (z.0) (e.0) a l sa) tt h')
      (ground arith)
union_loop-Covers g [] (e ∷ b) y p sa (s, sb) h =
    absorb-Covers g y e (union_loop g [] b) p (Covers p [] ⊎ Covers p b) s
      (λ z l h'. union_loop-Covers g [] b z p tt (IsSortedFrom-trans (z.0) (e.0) b l sb) h')
      (ground arith)
union_loop-Covers g (ea ∷ a) (eb ∷ b) y p (s, sa) (s', sb) h =
    if_cases (Covers p) (leb (ea.0) (eb.0))
      (λ t.
        absorb-Covers g y ea (union_loop g a (eb ∷ b)) p (Covers p a ⊎ Covers p (eb ∷ b)) s
          (λ z l h'.
            union_loop-Covers g a (eb ∷ b) z p (IsSortedFrom-trans (z.0) (ea.0) a l sa)
              (ground arith, sb) h')
          (ground arith))
      (λ t.
        absorb-Covers g y eb (union_loop g (ea ∷ a) b) p (Covers p (ea ∷ a) ⊎ Covers p b) s'
          (λ z l h'.
            union_loop-Covers g (ea ∷ a) b z p (ground arith, sa)
              (IsSortedFrom-trans (z.0) (eb.0) b l sb) h')
          (ground arith))

union_loop-none-Covers :
    (g : ℕ) (a b : List Interval) (p : ℕ)
    → IsSortedFrom 0 a
    → IsSortedFrom 0 b
    → Covers p a ⊎ Covers p b
    → Covers p (union_loop g a b none)
unfolding union_loop absorb
union_loop-none-Covers g [] [] p sa sb h = ground arith
union_loop-none-Covers g (e ∷ a) [] p (s, sa) sb h =
    union_loop-Covers g a [] e p sa tt (ground arith)
union_loop-none-Covers g [] (e ∷ b) p sa (s, sb) h =
    union_loop-Covers g [] b e p tt sb (ground arith)
union_loop-none-Covers g (ea ∷ a) (eb ∷ b) p (s, sa) (s', sb) h =
    if_cases (Covers p) (leb (ea.0) (eb.0))
      (λ t. union_loop-Covers g a (eb ∷ b) ea p sa (ground arith, sb) (ground arith))
      (λ t. union_loop-Covers g (ea ∷ a) b eb p (ground arith, sa) sb (ground arith))

-- What a call that returns has checked.
pub union_damage_checked :
    (a b out : List Interval) (g : ℕ)
    → union_damage a b g ≡ ok out
    → (validate_output a 0 g ≡ ok tt)
      × (validate_output b 0 g ≡ ok tt)
      × (union_loop g a b none ≡ out)
unfolding union_damage
union_damage_checked a b out g h = ground arith

pub sorted :
    (l : List Interval) (g : ℕ)
    → All (IsInRange g) l
    → validate_output l 0 g ≡ ok tt
    → IsSortedFrom 0 l
sorted l g r v =
    let (p, a) = (validate_output_lem l 0 g r).0 v in IsApart-IsSortedFrom 0 g 0 l (starts l) p a
  where
    starts : (l : List Interval) → StartsFrom 0 l
    starts [] = tt
    starts (e ∷ l) = omega arith

-- Where the ends of all intervals are at least `min_gap` below 2^64 and `union_damage` returns:
-- every position of either list is one of the list that it returns.
pub union_damage-Covers :
    (a b out : List Interval) (g p : ℕ)
    → All (IsInRange g) a
    → All (IsInRange g) b
    → union_damage a b g ≡ ok out
    → Covers p a ⊎ Covers p b
    → Covers p out
union_damage-Covers a b out g p ra rb h c =
    let (va, vb, e) = union_damage_checked a b out g h in
    rw (← e) (union_loop-none-Covers g a b p (sorted a g ra va) (sorted b g rb vb) c)
