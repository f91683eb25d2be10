-- ===== src/Damage/Gaps.antt =====
-- `union_damage` of src/damage.rs: the gaps between the intervals of its inputs.
use waypipe.Base.{
  ℕ, ◌+◌, ◌-◌, ◌≤◌, ◌<◌, ◌≡◌, Option, none, some, List, [], ◌∷◌, ◌++◌, arith, leb, All, ok, max,
  if_cases, ◌⊎◌, inl, inr, le_or_lt,
}
use waypipe.Damage.{Interval, absorb, union_loop, union_damage}
use waypipe.Damage.Valid.{IsProper, IsInRange, validate_output_lem}
use waypipe.Damage.Union.{absorb_cases}
use waypipe.Damage.Cover.{Within, Covers, union_damage_checked}

-- The position has the property, or stands between two that have it and are at most `g` apart.
abbrev pub IsNear : (ℕ → Type 0) → ℕ → ℕ → Type 0
IsNear P g p = P p ⊎ ((q r : ℕ) × q < p × p < r × r ≤ q + g × P q × P r)

max_right : (a b : ℕ) → a ≤ b → max a b ≡ b
max_right a b h = omega arith

max_left : (a b : ℕ) → b < a → max a b ≡ a
max_left a b h = omega arith

module _ (P : ℕ → Type 0) (g : ℕ) where
  abbrev IsFull : Interval → Type 0
  IsFull e = (e.0 < e.1) × ((p : ℕ) → Within p e → P p)

  -- All positions are near, and the last one has the property itself.
  abbrev IsFilled : Interval → Type 0
  IsFilled e = (e.0 < e.1) × P (e.1 - 1) × ((p : ℕ) → Within p e → IsNear P g p)

  IsFull-IsFilled : (e : Interval) → IsFull e → IsFilled e
  IsFull-IsFilled e (h, f) = (h, f (e.1 - 1) (ground arith), λ p w. inl (f p w))

  merged_IsFilled :
      (y e : Interval)
      → IsFilled y
      → IsFull e
      → (e.0 ≤ y.1) ⊎ (e.0 < y.1 + g)
      → IsFilled (y.0, max (y.1) (e.1))
  merged_IsFilled y e (h, l, n) (h', f) t = (
    omega arith,
    elim (le_or_lt (y.1) (e.1)) [
      | inl w ↦ rw (max_right (y.1) (e.1) w) (f (e.1 - 1) (ground arith))
      | inr w ↦ rw (max_left (y.1) (e.1) w) l
    ],
    λ p w. elim (le_or_lt (y.1) p) [
      | inr u ↦ n p (ground arith)
      | inl u ↦ elim (le_or_lt (e.0) p) [
        | inl v ↦ inl (f p (ground arith))
        | inr v ↦
            inr (y.1 - 1, e.0, omega arith, omega arith, ground arith, l, f (e.0) (ground arith))
      ]
    ],
  )

  absorb-IsNear :
      (y e : Interval) (rest : Option Interval → List Interval) (p : ℕ)
      → IsFilled y
      → IsFull e
      → ((z : Interval) → IsFilled z → Covers p (rest (some z)) → IsNear P g p)
      → let (out, last) = absorb g (some y) e in Covers p (out ++ rest last) → IsNear P g p
  absorb-IsNear y e rest p (h, last, near) fe ih =
      absorb_cases g y e (λ r. Covers p (r.0 ++ rest (r.1)) → IsNear P g p)
        (λ t c. ih (y.0, max (y.1) (e.1)) (merged_IsFilled y e (h, last, near) fe t) c)
        (λ l m c. elim c [ inl w ↦ near p w | inr w ↦ ih e (IsFull-IsFilled e fe) w ])

  union_loop-IsNear :
      (a b : List Interval) (y : Interval) (p : ℕ)
      → All IsFull a
      → All IsFull b
      → IsFilled y
      → Covers p (union_loop g a b (some y))
      → IsNear P g p
  unfolding union_loop
  union_loop-IsNear [] [] y p fa fb (h, l, n) (inl w) = n p w
  union_loop-IsNear [] [] y p fa fb fy (inr c) = absurd c
  union_loop-IsNear (e ∷ a) [] y p (fe, fa) fb fy c =
      absorb-IsNear y e (union_loop g a []) p fy fe (λ z fz. union_loop-IsNear a [] z p fa tt fz) c
  union_loop-IsNear [] (e ∷ b) y p fa (fe, fb) fy c =
      absorb-IsNear y e (union_loop g [] b) p fy fe (λ z fz. union_loop-IsNear [] b z p tt fb fz) c
  union_loop-IsNear (ea ∷ a) (eb ∷ b) y p (fe, fa) (fe', fb) fy c =
      if_cases (λ out. Covers p out → IsNear P g p) (leb (ea.0) (eb.0))
        (λ _.
          absorb-IsNear y ea (union_loop g a (eb ∷ b)) p fy fe
            (λ z fz. union_loop-IsNear a (eb ∷ b) z p fa (fe', fb) fz))
        (λ _.
          absorb-IsNear y eb (union_loop g (ea ∷ a) b) p fy fe'
            (λ z fz. union_loop-IsNear (ea ∷ a) b z p (fe, fa) fb fz))
        c

  union_loop-none-IsNear :
      (a b : List Interval) (p : ℕ)
      → All IsFull a
      → All IsFull b
      → Covers p (union_loop g a b none)
      → IsNear P g p
  unfolding union_loop absorb
  union_loop-none-IsNear [] [] p fa fb c = absurd c
  union_loop-none-IsNear (e ∷ a) [] p (fe, fa) fb c =
      union_loop-IsNear a [] e p fa tt (IsFull-IsFilled e fe) c
  union_loop-none-IsNear [] (e ∷ b) p fa (fe, fb) c =
      union_loop-IsNear [] b e p tt fb (IsFull-IsFilled e fe) c
  union_loop-none-IsNear (ea ∷ a) (eb ∷ b) p (fe, fa) (fe', fb) c =
      if_cases (λ out. Covers p out → IsNear P g p) (leb (ea.0) (eb.0))
        (λ _. union_loop-IsNear a (eb ∷ b) ea p fa (fe', fb) (IsFull-IsFilled ea fe))
        (λ _. union_loop-IsNear (ea ∷ a) b eb p (fe, fa) fb (IsFull-IsFilled eb fe')) c

  All-IsFull :
      (l : List Interval) (k : ℕ) → All (IsProper k) l → ((p : ℕ) → Covers p l → P p) → All IsFull l
  All-IsFull [] k h f = tt
  All-IsFull (e ∷ l) k ((h, _, _), hs) f =
      ((h, λ p w. f p (inl w)), All-IsFull l k hs (λ p c. f p (inr c)))

-- Where the ends of all intervals are at least `min_gap` below 2^64 and `union_damage` returns: a
-- position of its list is one of the two lists, or stands between two positions of them that are
-- at most `min_gap` apart.
pub union_damage-IsNear :
    (a b out : List Interval) (g p : ℕ)
    → All (IsInRange g) a
    → All (IsInRange g) b
    → union_damage a b g ≡ ok out
    → Covers p out
    → IsNear (λ q. Covers q a ⊎ Covers q b) g p
union_damage-IsNear a b out g p ra rb h c =
    let (va, vb, e) = union_damage_checked a b out g h in
    let (pa, _) = (validate_output_lem a 0 g ra).0 va in
    let (pb, _) = (validate_output_lem b 0 g rb).0 vb in
    union_loop-none-IsNear (λ q. Covers q a ⊎ Covers q b) g a b p
      (All-IsFull (λ q. Covers q a ⊎ Covers q b) g a 0 pa (λ q w. inl w))
      (All-IsFull (λ q. Covers q a ⊎ Covers q b) g b 0 pb (λ q w. inr w)) (rw e c)
