-- ===== src/Split/Shards.antt =====
-- `split_damage` of src/mainloop.rs: one shard takes what it is to take.
use waypipe.Base.{
  ℕ, zero, suc, ◌+◌, ◌-◌, ◌≤◌, ◌<◌, ◌≡◌, refl, ap, arith, min, true, false, ◌&&◌, Option, none,
  some, List, [], ◌∷◌, ltb, leb, ◌==◌, All, ◌⊎◌, inl, inr, if_cases, IsU32,
}
use waypipe.Util.{wrap32}
use waypipe.Damage.{Interval}
use waypipe.Damage.Cover.{Covers}
use waypipe.Split.{Shard, push, trim, as_u32s, shard_loop, take_shard}

-- Intervals that are not empty, one behind the other
abbrev pub IsRising : List Interval → Type 0
IsRising [] = Unit
IsRising (e ∷ l) = (e.0 < e.1) × All (λ (f : Interval). e.1 ≤ f.0) l × IsRising l

-- The bytes of an interval below the bound
abbrev pub size : ℕ → Interval → ℕ
size final e = min (e.1) final - e.0

abbrev pub total : ℕ → List Interval → ℕ
total final [] = 0
total final (e ∷ l) = size final e + total final l

abbrev pub pending : Option Interval → List Interval → List Interval
pending none iter = iter
pending (some x) iter = x ∷ iter

abbrev pub span : List Interval → ℕ
span [] = 0
span ((a, b) ∷ l) = (b - a) + span l

-- A shard of `n` bytes, of the intervals `l`
abbrev pub IsShard : ℕ → List Interval → ℕ → Shard → Type 0
IsShard final l n (out, prev, iter) =
    (span out ≡ n)
    × (total final (pending prev iter) + n ≡ total final l)
    × IsRising (pending prev iter)
    × ((p : ℕ) → p < final → Covers p l → Covers p out ⊎ Covers p (pending prev iter))

total_beyond :
    (final : ℕ) (l : List Interval) → All (λ (f : Interval). final ≤ f.0) l → total final l ≡ 0
total_beyond final [] a = refl
total_beyond final (e ∷ l) (h, a) = omega (arith, total_beyond final l a)

pub beyond :
    (final x : ℕ) (l : List Interval)
    → final ≤ x
    → All (λ (f : Interval). x ≤ f.0) l
    → All (λ (f : Interval). final ≤ f.0) l
beyond final x [] h a = tt
beyond final x (e ∷ l) h (b, a) = (omega arith, beyond final x l h a)

trim_lem : (final : ℕ) (e : Interval) → trim final e ≡ (e.0, min (e.1) final)
trim_lem final (a, b) =
    if_cases (λ (c : Interval). c ≡ (a, min b final)) (ltb final b)
      (λ h. ap (λ x. (a, x)) (ground arith)) (λ h. ap (λ x. (a, x)) (ground arith))

module _ (final : ℕ) (u : IsU32 final) where
  -- The interval is cut, and its rest is pending.
  cut :
      (cur : Interval) (iter : List Interval) (n : ℕ)
      → IsRising (cur ∷ iter)
      → 0 < n
      → n < size final cur
      → IsShard final (cur ∷ iter) n (
        (wrap32 (cur.0), wrap32 (wrap32 (cur.0) + n)) ∷ [],
        some (cur.0 + n, min (cur.1) final),
        iter,
      )
  cut (a, b) iter n (w, s, r) pos fits = (
    omega arith,
    omega arith,
    (omega arith, beyond (min b final) b iter (omega arith) s, r),
    λ p h c. ground arith,
  )

  -- The interval is taken, and nothing more is wanted.
  whole :
      (cur : Interval) (iter : List Interval) (n : ℕ)
      → IsRising (cur ∷ iter)
      → 0 < n
      → size final cur ≡ n
      → IsShard final (cur ∷ iter) n (as_u32s (cur.0, min (cur.1) final) ∷ [], none, iter)
  whole (a, b) iter n (w, s, r) pos fits = (omega arith, omega arith, r, λ p h c. ground arith)

  -- The interval is taken, and more.
  onward :
      (cur : Interval) (iter : List Interval) (n : ℕ) (r : Shard)
      → IsRising (cur ∷ iter)
      → 0 < size final cur
      → size final cur ≤ n
      → IsShard final iter (n - size final cur) r
      → IsShard final (cur ∷ iter) n (push (as_u32s (cur.0, min (cur.1) final)) r)
  onward (a, b) iter n (out, prev, iter') (w, s, r) pos fits (x, y, z, c) = (
    omega arith,
    omega arith,
    z,
    λ p h d. elim d [
      | inl here ↦ inl (inl (omega arith))
      | inr later ↦ elim (c p h later) [ inl o ↦ inl (inr o) | inr q ↦ inr q ]
    ],
  )

  past : (cur : Interval) → (ltb final (cur.1) && leb final (cur.0)) ≡ true → final ≤ cur.0
  past cur t = ground arith

  not_past :
      (cur : Interval)
      → cur.0 < cur.1
      → (ltb final (cur.1) && leb final (cur.0)) ≡ false
      → (0 < size final cur) × (wrap32 (size final cur) ≡ size final cur)
  not_past cur w t = ground arith

  nothing :
      (cur : Interval) (iter : List Interval) (n : ℕ)
      → IsRising (cur ∷ iter)
      → 0 < n
      → n ≤ total final (cur ∷ iter)
      → final ≤ cur.0
      → ⊥
  nothing cur iter n (w, s, r) pos fits h =
      omega (arith, total_beyond final iter (beyond final (cur.1) iter (omega arith) s))

  pub shard_loop-IsShard :
      (cur : Interval) (iter : List Interval) (n : ℕ)
      → IsRising (cur ∷ iter)
      → 0 < n
      → n ≤ total final (cur ∷ iter)
      → IsShard final (cur ∷ iter) n (shard_loop final cur iter n)
  unfolding shard_loop
  shard_loop-IsShard cur [] n (w, a, r) pos fits =
      if_cases (IsShard final (cur ∷ []) n) (ltb final (cur.1) && leb final (cur.0))
        (λ t. absurd (nothing cur [] n (w, a, r) pos fits (past cur t)))
        (λ t.
          let (positive, same) = not_past cur w t in
          rw (trim_lem final cur, same)
            (if_cases (IsShard final (cur ∷ []) n) (leb (size final cur) n)
              (λ s. whole cur [] n (w, a, r) pos (ground arith))
              (λ s. cut cur [] n (w, a, r) pos (ground arith))))
  shard_loop-IsShard cur (nxt ∷ iter) n (w, a, r) pos fits =
      if_cases (IsShard final (cur ∷ nxt ∷ iter) n) (ltb final (cur.1) && leb final (cur.0))
        (λ t. absurd (nothing cur (nxt ∷ iter) n (w, a, r) pos fits (past cur t)))
        (λ t.
          let (positive, same) = not_past cur w t in
          rw (trim_lem final cur, same)
            (if_cases (IsShard final (cur ∷ nxt ∷ iter) n) (leb (size final cur) n)
              (λ s.
                if_cases (IsShard final (cur ∷ nxt ∷ iter) n) (n - size final cur == 0)
                  (λ z. whole cur (nxt ∷ iter) n (w, a, r) pos (ground arith))
                  (λ z.
                    onward cur (nxt ∷ iter) n (shard_loop final nxt iter (n - size final cur))
                      (w, a, r) positive (ground arith)
                      (shard_loop-IsShard nxt iter (n - size final cur) r (ground arith)
                        (omega arith))))
              (λ s. cut cur (nxt ∷ iter) n (w, a, r) pos (ground arith))))

  pub take_shard-IsShard :
      (prev : Option Interval) (iter : List Interval) (n : ℕ)
      → IsRising (pending prev iter)
      → n ≤ total final (pending prev iter)
      → IsShard final (pending prev iter) n (take_shard final prev iter n)
  unfolding take_shard
  take_shard-IsShard prev iter zero r fits = (refl, omega arith, r, λ p h c. inr c)
  take_shard-IsShard (some x) iter (suc n) r fits =
      shard_loop-IsShard x iter (suc n) r (omega arith) fits
  take_shard-IsShard none [] (suc n) r fits = absurd (omega arith)
  take_shard-IsShard none (y ∷ iter) (suc n) r fits =
      shard_loop-IsShard y iter (suc n) r (omega arith) fits
