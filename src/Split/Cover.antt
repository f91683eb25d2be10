-- ===== src/Split/Cover.antt =====
-- `split_damage` of src/mainloop.rs: the shards share out all whole chunks of the damage.
use native.Mathlib.Nat.{div-add-mod, mod-lt}
use waypipe.Base.{
  ℕ, zero, suc, ◌+◌, ◌-◌, ◌*◌, ◌/◌, ◌%◌, ◌^◌, ◌≤◌, ◌<◌, ◌≡◌, refl, ap, ◌∙◌, arith, Bool, true,
  false, ◌&&◌, Option, none, List, [], ◌∷◌, ◌++◌, ltb, leb, ◌==◌, if◌then◌else◌, All, inl, inr,
  if_cases, IsU32, ok, le_or_lt, lt→ltb,
}
use waypipe.Util.{Total, wrap32, split_interval}
use waypipe.Util.Interval.{
  split_lem, boundary, share-suc, share_all, share_le, le_of_mul-lt, ceildiv_lem, div_bounds,
}
use waypipe.Damage.{Interval}
use waypipe.Damage.Valid.{IsProper, StartsFrom, IsApart}
use waypipe.Damage.Cover.{Covers}
use waypipe.Split.{diff_chunksize, measure, take_shard, shards_loop, split_damage}
use waypipe.Split.Shards.{IsRising, beyond, total, pending, span, take_shard-IsShard}

abbrev pub join : List (List Interval) → List Interval
join [] = []
join (part ∷ parts) = part ++ join parts

Covers-front : (p : ℕ) (xs ys : List Interval) → Covers p xs → Covers p (xs ++ ys)
Covers-front p [] ys h = absurd h
Covers-front p (x ∷ xs) ys (inl h) = inl h
Covers-front p (x ∷ xs) ys (inr h) = inr (Covers-front p xs ys h)

Covers-back : (p : ℕ) (xs ys : List Interval) → Covers p ys → Covers p (xs ++ ys)
Covers-back p [] ys h = h
Covers-back p (x ∷ xs) ys h = inr (Covers-back p xs ys h)

total-pos : (final p : ℕ) (l : List Interval) → p < final → Covers p l → 0 < total final l
total-pos final p [] h c = absurd c
total-pos final p (e ∷ l) h (inl c) = omega arith
total-pos final p (e ∷ l) h (inr c) = omega (arith, total-pos final p l h c)

total_le :
    (final x : ℕ) (l : List Interval)
    → IsRising l
    → All (λ (f : Interval). x ≤ f.0) l
    → total final l ≤ final - x
total_le final x [] r a = omega arith
total_le final x (e ∷ l) (w, s, r) (h, a) = omega (arith, total_le final (e.1) l r s)

chain :
    (g y : ℕ) (l : List Interval)
    → StartsFrom y l
    → All (IsProper 6) l
    → IsApart g l
    → All (λ (f : Interval). y ≤ f.0) l
chain g y [] s p a = tt
chain g y ((u, v) ∷ l) s ((w, _, _), p) (b, a) =
    (s, beyond y (v + g) l (omega arith) (chain g (v + g) l b p a))

IsApart-IsRising : (g : ℕ) (l : List Interval) → All (IsProper 6) l → IsApart g l → IsRising l
IsApart-IsRising g [] p a = tt
IsApart-IsRising g ((x, y) ∷ l) ((w, u, v), p) (s, a) =
    (w, beyond y (y + g) l (omega arith) (chain g (y + g) l s p a), IsApart-IsRising g l p a)

-- The result of `measure`, with a length and whether the rest is damaged
abbrev Measured : ℕ → Total (ℕ × Bool) → Type 0
Measured n r = (t : Bool) × (r ≡ ok (n, t))

Measured-change : (n m : ℕ) (r : Total (ℕ × Bool)) → n ≡ m → Measured n r → Measured m r
Measured-change n m r e (t, h) = (t, h ∙ ap (λ x. ok (x, t)) e)

measure-total :
    (buf : ℕ) (l : List Interval) (net : ℕ) (t : Bool)
    → All (IsProper 6) l
    → Measured (net + total (64 * (buf / 64)) l) (measure buf (64 * (buf / 64)) l net t)
unfolding measure
measure-total buf [] net t p = (t, ap (λ x. ok (x, t)) (plus_zero net))
  where
    plus_zero : (n : ℕ) → n ≡ n + 0
    plus_zero n = omega arith
measure-total buf ((a, b) ∷ l) net t ((w, u, v), p) =
    let final = 64 * (buf / 64) in
    rw (lt→ltb a b w, aligned)
      (if_cases (Measured (net + total final ((a, b) ∷ l))) (ltb final b)
        (λ past.
          if_cases (Measured (net + total final ((a, b) ∷ l))) (ltb a buf)
            (λ s. rw (before s) (
              Measured-change _ _ _ (ground arith)
                (measure-total buf l (net + (final - a)) true p)))
            (λ s.
              Measured-change _ _ _ (ground (arith, div_bounds buf 64 (omega arith)))
                (measure-total buf l net t p)))
        (λ past. Measured-change _ _ _ (ground arith) (measure-total buf l (net + (b - a)) t p)))
  where
    aligned : (a % 64 == 0 && b % 64 == 0) ≡ true
    aligned = ground arith

    before : ltb a buf ≡ true → leb a (64 * (buf / 64)) ≡ true
    before s = ground (arith, div_bounds buf 64 (omega arith))

-- What the loop over the shards gives, of the intervals `l`
abbrev IsSplit : ℕ → List Interval → Total (List (List Interval)) → Type 0
IsSplit final l r =
    (parts : List (List Interval)) × (r ≡ ok parts)
    × All (λ part. span part ≤ diff_chunksize) parts
    × ((p : ℕ) → p < final → Covers p l → Covers p (join parts))

-- The step from one boundary to the next, in whole chunks
boundary_step :
    (len n i : ℕ)
    → 0 < n
    → len ≤ 4096 * n
    → (boundary 0 len n i ≤ boundary 0 len n (suc i))
      × (boundary 0 len n (suc i) ≤ boundary 0 len n i + 4096)
boundary_step len n i pos fits =
    let share = share-suc i (len % n) n (mod-lt len pos) in
    (
      omega (arith, share),
      elim (le_or_lt 4096 (len / n)) [
        | inl h ↦ omega (arith, no_rest h, none_shared (suc i) (no_rest h), most)
        | inr h ↦ omega (arith, share)
      ],
    )
  where
    most : len / n ≤ 4096
    most = le_of_mul-lt n (len / n) 4096 (omega (arith, div_bounds len n pos))

    product : (q : ℕ) → 4096 ≤ q → 4096 * n ≤ n * q
    product q h = grind arith

    no_rest : 4096 ≤ len / n → len % n ≡ 0
    no_rest h = omega (arith, div-add-mod len n, product (len / n) h)

    zero_div : 0 / n ≡ 0
    zero_div = omega (arith, le_of_mul-lt n (0 / n) 0 (omega (arith, div_bounds 0 n pos)))

    mul_zero : (j : ℕ) → j * 0 ≡ 0
    mul_zero j = omega arith

    none_shared : (j : ℕ) → len % n ≡ 0 → j * (len % n) / n ≡ 0
    none_shared j h = rw (h, mul_zero j) zero_div

boundary_le : (len n i : ℕ) → 0 < n → i ≤ n → boundary 0 len n i ≤ len
boundary_le len n i pos h =
    omega (arith, product (len / n), share_le i (len % n) n pos h, div-add-mod len n)
  where
    product : (q : ℕ) → i * q ≤ n * q
    product q = grind arith

boundary_last : (len n : ℕ) → 0 < n → boundary 0 len n (n - 0) ≡ len
boundary_last len n pos =
    ap (boundary 0 len n) same ∙ omega (arith, share_all (len % n) n pos, div-add-mod len n)
  where
    same : n - 0 ≡ n
    same = omega arith

module _ (final net n : ℕ) (u : IsU32 final) (small : IsU32 (64 * net)) (few : n < 2 ^ 15)
    (pos : 0 < n) (enough : net ≤ 4096 * n) where
  shards_loop-IsSplit :
      (left : ℕ) (prev : Option Interval) (iter : List Interval)
      → left ≤ n
      → IsRising (pending prev iter)
      → total final (pending prev iter) + 64 * boundary 0 net n (n - left) ≡ 64 * net
      → IsSplit final (pending prev iter) (shards_loop final (64 * net) n left prev iter)
  unfolding shards_loop
  shards_loop-IsSplit zero prev iter le r t = (
    [],
    refl,
    tt,
    λ p h c.
        absurd (omega (arith, total-pos final p (pending prev iter) h c, boundary_last net n pos)),
  )
  shards_loop-IsSplit (suc left) prev iter le r t =
      let i = n - suc left in
      let step = boundary_step net n i pos enough in
      let up = boundary_le net n (suc i) pos (omega arith) in
      let low = boundary_le net n i pos (omega arith) in
      let m = wrap32 (64 * boundary 0 net n (suc i)) - wrap32 (64 * boundary 0 net n i) in
      let (out, prev', iter') = take_shard final prev iter m in
      let (sp, tot, rise, cov) = take_shard-IsShard final u prev iter m r (omega (arith, step)) in
      let (parts, run, bounds, covers) =
        shards_loop-IsSplit left prev' iter' (omega arith) rise
          (omega (arith, step, next_index le)) in
      (
        out ∷ parts,
        rw (at i (omega arith), at' i (omega arith), run) refl,
        (omega (arith, step), bounds),
        λ p h c. elim (cov p h c) [
          | inl x ↦ Covers-front p out (join parts) x
          | inr x ↦ Covers-back p out (join parts) (covers p h x)
        ],
      )
    where
      next_index :
          suc left ≤ n → boundary 0 net n (n - left) ≡ boundary 0 net n (suc (n - suc left))
      next_index h = ap (boundary 0 net n) (omega arith)

      at : (i : ℕ) → i ≤ n → split_interval 0 (64 * net / 64) n i ≡ ok (boundary 0 net n i)
      at i h =
          ap (λ x. split_interval 0 x n i) (omega arith)
          ∙ split_lem 0 net n i (omega arith) (omega arith) pos few (omega arith) h
          ∙ ap (λ x. ok (boundary 0 x n i)) (omega arith)

      at' :
          (i : ℕ)
          → suc i ≤ n
          → split_interval 0 (64 * net / 64) n (i + 1) ≡ ok (boundary 0 net n (suc i))
      at' i h = ap (λ j. split_interval 0 (64 * net / 64) n j) (omega arith) ∙ at (suc i) h

total_aligned : (c : ℕ) (l : List Interval) → All (IsProper 6) l → total (64 * c) l % 64 ≡ 0
total_aligned c [] p = refl
total_aligned c ((a, b) ∷ l) ((w, u, v), p) = omega (arith, total_aligned c l p)

all_from_zero : (l : List Interval) → All (λ (f : Interval). 0 ≤ f.0) l
all_from_zero [] = tt
all_from_zero (e ∷ l) = (omega arith, all_from_zero l)

boundary_first : (len n : ℕ) → 0 < n → boundary 0 len n (n - n) ≡ 0
boundary_first len n pos = ap (boundary 0 len n) none ∙ omega (arith, first)
  where
    none : n - n ≡ 0
    none = omega arith

    first : 0 * (len % n) / n ≡ 0
    first = omega (
      arith,
      le_of_mul-lt n (0 * (len % n) / n) 0 (omega (arith, div_bounds (0 * (len % n)) n pos)),
    )

-- For a valid list of intervals, aligned to 64, in a buffer smaller than 2^32 bytes: every byte
-- of the whole 64-byte chunks of the buffer that is in the list is in one of the parts that
-- `split_damage` returns, and no part has more than DIFF_CHUNKSIZE bytes.
pub split_damage-Covers :
    (l : List Interval) (buf p : ℕ)
    → IsU32 buf
    → All (IsProper 6) l
    → IsApart 0 l
    → p < 64 * (buf / 64)
    → Covers p l
    → (trailing : ℕ) × (parts : List (List Interval)) × (split_damage l buf ≡ ok (trailing, parts))
      × Covers p (join parts)
      × All (λ part. span part ≤ diff_chunksize) parts
unfolding split_damage
split_damage-Covers l buf p u proper apart h c =
    let final = 64 * (buf / 64) in
    let (t, run) = measure-total buf l 0 false proper in
    let rise = IsApart-IsRising 0 l proper apart in
    let some = total-pos final p l h c in
    let most = total_le final 0 l rise (all_from_zero l) in
    let aligned = total_aligned (buf / 64) l proper in
    let net = total final l / 64 in
    let small : 64 * net < 2 ^ 32 = omega (arith, div_bounds buf 64 (omega arith)) in
    let (n, count, low, high) = ceildiv_lem (64 * net / 64) 4096 (omega arith) in
    let pos : 0 < n = omega arith in
    let (parts, shared, bounds, covers) =
      shards_loop-IsSplit final net n (omega (arith, div_bounds buf 64 (omega arith))) small
        (omega arith) pos (omega arith) n none l (omega arith) rise
        (omega (arith, boundary_first net n pos)) in
    (
      (if t then buf % 64 else 0),
      parts,
      rw
          (
            run ∙ ap (λ x. ok (x, t)) (whole (total final l) aligned),
            lt→ltb (64 * net) (2 ^ 32) small,
            multiple net,
            nonzero net (omega arith),
            count,
            shared,
          )
          refl,
      covers p h c,
      bounds,
    )
  where
    whole : (m : ℕ) → m % 64 ≡ 0 → 0 + m ≡ 64 * (m / 64)
    whole m e = omega arith

    multiple : (m : ℕ) → (64 * m % 64 == 0) ≡ true
    multiple m = ground arith

    nonzero : (m : ℕ) → 0 < m → (64 * m == 0) ≡ false
    nonzero m e = ground arith
