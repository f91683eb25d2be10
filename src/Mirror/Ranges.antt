-- ===== src/Mirror/Ranges.antt =====
-- The set of ranges of src/mirror.rs.
use waypipe.Base.{
  ℕ, max, ◌<◌, refl, if_cases, Bool-cases, inl, inr, ◌≤◌, ◌≡◌, true, false, ◌⊎◌, List, [], ◌∷◌, All,
  arith,
}
use waypipe.Damage.{Interval}
use waypipe.Mirror.{same, contains, insert, remove, any_overlap, nonempty_range_overlap}

-- One interval lies behind the other.
abbrev pub IsClear : Interval → Interval → Type 0
IsClear a b = (a.1 ≤ b.0) ⊎ (b.1 ≤ a.0)

-- No two of the intervals share a position.
abbrev pub IsExclusive : List Interval → Type 0
IsExclusive [] = Unit
IsExclusive (x ∷ l) = All (IsClear x) l × IsExclusive l

pub contains-insert_self : (x : Interval) (l : List Interval) → contains x (insert x l) ≡ true
unfolding insert contains
contains-insert_self x l = ground arith

pub contains-insert :
    (x h : Interval) (l : List Interval) → contains h l ≡ true → contains h (insert x l) ≡ true
unfolding insert contains
contains-insert x h l c = ground arith

pub contains-remove :
    (x h : Interval) (l : List Interval)
    → contains h l ≡ true
    → same x h ≡ false
    → contains h (remove x l) ≡ true
unfolding contains remove
contains-remove x h [] c s = ground arith
contains-remove x h (y ∷ l) c s = ground (arith, contains-remove x h l)

pub any_overlap-IsClear :
    (h x : Interval) (l : List Interval)
    → contains h l ≡ true
    → any_overlap l x ≡ false
    → IsClear x h
unfolding contains any_overlap
any_overlap-IsClear h x [] c a = ground arith
any_overlap-IsClear h x (y ∷ l) c a = ground (arith, any_overlap-IsClear h x l)

-- A range of at least one byte
abbrev pub IsNonempty : Interval → Type 0
IsNonempty x = x.0 < x.1

pub insert-All :
    (P : Interval → Type 0) (x : Interval) (l : List Interval) → P x → All P l → All P (insert x l)
unfolding insert
insert-All P x l p a = if_cases (All P) (contains x l) (λ _. a) (λ _. (p, a))

pub remove-All :
    (P : Interval → Type 0) (x : Interval) (l : List Interval) → All P l → All P (remove x l)
unfolding remove
remove-All P x [] a = tt
remove-All P x (y ∷ l) (p, a) =
    if_cases (All P) (same x y) (λ _. remove-All P x l a) (λ _. (p, remove-All P x l a))

-- A byte that two ranges share
abbrev pub Shares : Interval → Interval → Type 0
Shares x y = (p : ℕ) × ((x.0 ≤ p) × (p < x.1)) × ((y.0 ≤ p) × (p < y.1))

-- No byte of the range is in any of the list.
abbrev pub IsFree : Interval → List Interval → Type 0
IsFree x l = All (λ y. ¬ Shares x y) l

pub any_overlap-IsFree : (x : Interval) (l : List Interval) → any_overlap l x ≡ false → IsFree x l
unfolding any_overlap
any_overlap-IsFree x [] e = tt
any_overlap-IsFree x (y ∷ l) e =
    (λ (p, (a, b), (c, d)). ground (arith, e), any_overlap-IsFree x l (ground (arith, e)))

pub IsFree-any_overlap :
    (x : Interval) (l : List Interval)
    → IsNonempty x
    → All IsNonempty l
    → IsFree x l
    → any_overlap l x ≡ false
unfolding any_overlap
IsFree-any_overlap x [] some_x a f = refl
IsFree-any_overlap x (y ∷ l) some_x (some_y, a) (free, f) =
    rw (apart, IsFree-any_overlap x l some_x a f) refl
  where
    apart : nonempty_range_overlap y x ≡ false
    apart = elim (Bool-cases (nonempty_range_overlap y x)) [
      | inl e ↦ absurd (
          free
            (max (x.0) (y.0), (omega arith, ground (arith, e)), (omega arith, ground (arith, e))))
      | inr e ↦ e
    ]
