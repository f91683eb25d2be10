-- ===== src/Tracking/Stamps.antt =====
-- `timespec_midpoint`, `clock_sub` and `translate_timestamp` of src/tracking.rs. The three results of
-- `clock_gettime` are arguments; its nanoseconds are a number, as they are never negative. The
-- difference of the seconds of two stamps of one clock is within the range of i64.
use waypipe.Base.{
  ℕ, suc, ◌+◌, ◌-◌, ◌*◌, ◌/◌, ◌%◌, ◌^◌, ◌≤◌, ◌<◌, ◌≡◌, refl, Bool, true, false, not, ◌&&◌, Option,
  some, ltb, leb, ◌==◌, if◌then◌else◌, Outcome, ok, err, panic, ◌>>=◌, ◌>>◌, assert, ensure, ok_or,
  arith, ◌⊎◌, inl, inr, le_or_lt, if_cases, ap, ◌∙◌, le→ltb, lt→ltb, le→leb, lt→leb, sym,
}
use waypipe.Util.{join_u64, split_u64}
use waypipe.Tracking.{ℤ, pos, negsuc}
use waypipe.Tracking.Clock.{second, TimeError, time_add}

pub record Timespec : Type 0 where
  pub tv_sec : ℤ
  pub tv_nsec : ℕ

-- `a < b`, and then `b - a`
abbrev less : ℤ → ℤ → Bool
less (pos a) (pos b) = ltb a b
less (pos a) (negsuc b) = false
less (negsuc a) (pos b) = true
less (negsuc a) (negsuc b) = ltb b a

abbrev distance : ℤ → ℤ → ℕ
distance (pos a) (pos b) = b - a
distance (pos a) (negsuc b) = 0
distance (negsuc a) (pos b) = b + suc a
distance (negsuc a) (negsuc b) = a - b

abbrev plus : ℤ → ℕ → ℤ
plus (pos a) n = pos (a + n)
plus (negsuc a) n = if ltb a n then pos (n - suc a) else negsuc (a - n)

-- `a % 2 != b % 2`: the remainder has the sign of the number.
abbrev rest : ℤ → ℕ
rest (pos a) = a % 2
rest (negsuc a) = if suc a % 2 == 0 then 0 else 2

abbrev rests_differ : ℤ → ℤ → Bool
rests_differ a b = not (rest a == rest b)

unfoldable pub timespec_midpoint : Timespec → Timespec → Timespec
timespec_midpoint a c =
    let half =
      (if ltb (a.tv_nsec) (c.tv_nsec)
        then a.tv_nsec + (c.tv_nsec - a.tv_nsec) / 2
        else c.tv_nsec + (a.tv_nsec - c.tv_nsec) / 2) in
    let mid_sec =
      (if less (a.tv_sec) (c.tv_sec)
        then plus (a.tv_sec) (distance (a.tv_sec) (c.tv_sec) / 2)
        else plus (c.tv_sec) (distance (c.tv_sec) (a.tv_sec) / 2)) in
    let mid_nsec = (if rests_differ (c.tv_sec) (a.tv_sec) then half + 500000000 else half) in
    if ltb second mid_nsec
    then record { tv_sec = plus mid_sec 1; tv_nsec = mid_nsec - second }
    else record { tv_sec = mid_sec; tv_nsec = mid_nsec }

pub data ClockError : Type 0 where
  clock_failed overflow nsec_out_of_range : ClockError

abbrev minus : ℤ → ℤ → ℤ
minus (pos a) (pos b) = if leb b a then pos (a - b) else negsuc (b - a - 1)
minus (pos a) (negsuc b) = pos (a + suc b)
minus (negsuc a) (pos b) = negsuc (a + b)
minus (negsuc a) (negsuc b) = if leb a b then pos (b - a) else negsuc (a - b - 1)

abbrev is_i64 : ℤ → Bool
is_i64 (pos n) = ltb n (2 ^ 63)
is_i64 (negsuc n) = ltb n (2 ^ 63)

-- `tv_sec -= 1`, which wraps in a release build
abbrev predecessor : ℤ → ℤ
predecessor (pos n) = if n == 0 then negsuc 0 else pos (n - 1)
predecessor (negsuc n) = if suc n == 2 ^ 63 then pos (2 ^ 63 - 1) else negsuc (suc n)

-- The end of `clock_sub`: the difference of the mean and the second stamp
unfoldable pub stamp_difference : Timespec → Timespec → Outcome ClockError (ℤ × ℕ)
stamp_difference stamp_avg stamp_2 = do
  let sec = minus (stamp_avg.tv_sec) (stamp_2.tv_sec)
  ensure (is_i64 sec) overflow
  let diff : ℤ × ℕ =
      if ltb (stamp_avg.tv_nsec) (stamp_2.tv_nsec)
      then (predecessor sec, stamp_avg.tv_nsec + second - stamp_2.tv_nsec)
      else (sec, stamp_avg.tv_nsec - stamp_2.tv_nsec)
  assert (ltb diff.1 second)
  ok diff

unfoldable pub clock_sub :
    ℕ → ℕ → Option Timespec → Option Timespec → Option Timespec → Outcome ClockError (ℤ × ℕ)
clock_sub clock_a clock_b ret1 ret2 ret3 = do
  assert (ltb clock_a (2 ^ 31) && ltb clock_b (2 ^ 31))
  stamp_1 ← ok_or ret1 clock_failed
  stamp_2 ← ok_or ret2 clock_failed
  stamp_3 ← ok_or ret3 clock_failed
  stamp_difference (timespec_midpoint stamp_1 stamp_3) stamp_2

abbrev in_time : {A : Type 0} → Outcome TimeError A → Outcome ClockError A
in_time (ok a) = ok a
in_time (err e) = err overflow
in_time panic = panic

-- `clock_sub` is called with the clocks in the order of the direction.
unfoldable pub translate_timestamp :
    ℕ → ℕ → ℕ → (ℕ → ℕ → Outcome ClockError (ℤ × ℕ)) → ℕ → ℕ → Bool → Outcome ClockError (ℕ × ℕ × ℕ)
unfolding time_add join_u64 split_u64
translate_timestamp tv_sec_hi tv_sec_lo tv_nsec sub realtime clock_id to_channel = do
  ensure (ltb tv_nsec second) nsec_out_of_range
  diff ← (if to_channel then sub realtime clock_id else sub clock_id realtime)
  (new_sec, new_nsec) ← in_time (time_add (join_u64 tv_sec_hi tv_sec_lo, tv_nsec) diff)
  let (new_sec_hi, new_sec_lo) = split_u64 new_sec
  ok (new_sec_hi, new_sec_lo, new_nsec)

-- Nanoseconds since the epoch
abbrev pub nanoseconds : ℕ → ℕ → ℕ
nanoseconds sec nsec = sec * second + nsec

abbrev pub stamp : ℕ → ℕ → Timespec
stamp sec nsec = record { tv_sec = pos sec; tv_nsec = nsec }

half_sum : (n m : ℕ) → (if ltb n m then n + (m - n) / 2 else m + (n - m) / 2) ≡ (n + m) / 2
half_sum n m = ground arith

half_second :
    (n m : ℕ)
    → (if ltb n m then pos (n + (m - n) / 2) else pos (m + (n - m) / 2)) ≡ pos ((n + m) / 2)
half_second n m =
    if_cases (λ (z : ℤ). z ≡ pos ((n + m) / 2)) (ltb n m) (λ h. ap pos (ground arith))
      (λ h. ap pos (ground arith))

-- The carry of the nanoseconds
carried :
    (m k : ℕ)
    → k < second + 500000000
    → (m' : ℕ) × (k' : ℕ) × ((if ltb second k then stamp (m + 1) (k - second) else stamp m k)
        ≡ stamp m' k')
      × (nanoseconds m' k' ≡ nanoseconds m k)
      × (k' ≤ second)
carried m k h = elim (le_or_lt k second) [
  | inl l ↦ (m, k, rw (le→ltb second k l) refl, refl, l)
  | inr l ↦ (m + 1, k - second, rw (lt→ltb second k l) refl, omega arith, omega arith)
]

mean :
    (s n s' n' : ℕ)
    → nanoseconds
        ((s + s') / 2)
        (if not (s' % 2 == s % 2) then (n + n') / 2 + 500000000 else (n + n') / 2)
      ≡ (nanoseconds s n + nanoseconds s' n') / 2
mean s n s' n' = ground arith

-- For two stamps that are not before the epoch, with nanoseconds below 10^9, `timespec_midpoint`
-- gives the mean of the times, rounded down, with 10^9 nanoseconds at most.
pub timespec_midpoint_lem :
    (s n s' n' : ℕ)
    → n < second
    → n' < second
    → (m : ℕ) × (k : ℕ) × (timespec_midpoint (stamp s n) (stamp s' n') ≡ stamp m k)
      × (nanoseconds m k ≡ (nanoseconds s n + nanoseconds s' n') / 2)
      × (k ≤ second)
unfolding timespec_midpoint
timespec_midpoint_lem s n s' n' h h' =
    let total = (if not (s' % 2 == s % 2) then (n + n') / 2 + 500000000 else (n + n') / 2) in
    let (m, k, e, v, l) = carried ((s + s') / 2) total (ground arith) in
    (m, k, rw (half_sum n n', half_second s s') e, v ∙ mean s n s' n', l)

-- `d` seconds and `n` nanoseconds, the nanoseconds below a second, are `a` less `b` nanoseconds.
abbrev pub IsDifference : ℕ → ℕ → ℤ → ℕ → Type 0
IsDifference a b (pos d) n = (b + nanoseconds d n ≡ a) × (n < second)
IsDifference a b (negsuc d) n = (b + n ≡ a + nanoseconds (suc d) 0) × (n < second)

abbrev Differs : ℕ → ℕ → ℕ → ℕ → Outcome ClockError (ℤ × ℕ) → Type 0
Differs m k s n r =
    ((r ≡ panic) × (k ≡ second) × (n ≡ 0))
    ⊎ ((d : ℤ) × (j : ℕ) × (r ≡ ok (d, j)) × IsDifference (nanoseconds m k) (nanoseconds s n) d j)

-- From the seconds of the difference on
borrowed : ℤ → ℕ → ℕ → Outcome ClockError (ℤ × ℕ)
borrowed sec k n = do
  ensure (is_i64 sec) overflow
  let diff : ℤ × ℕ = if ltb k n then (predecessor sec, k + second - n) else (sec, k - n)
  assert (ltb diff.1 second)
  ok diff

difference_natural :
    (m k s n : ℕ)
    → s ≤ m
    → m < 2 ^ 63
    → k ≤ second
    → n < second
    → Differs m k s n (borrowed (pos (m - s)) k n)
unfolding borrowed
difference_natural m k s n h u l w = elim (le_or_lt n k) [
  | inl a ↦ elim (le_or_lt second (k - n)) [
    | inl b ↦ inl (
      rw (lt→ltb (m - s) (2 ^ 63) (omega arith), le→ltb k n a, le→ltb (k - n) second b) refl,
      omega arith,
      omega arith,
    )
    | inr b ↦ inr (
      pos (m - s),
      k - n,
      rw (lt→ltb (m - s) (2 ^ 63) (omega arith), le→ltb k n a, lt→ltb (k - n) second b) refl,
      (omega arith, b),
    )
  ]
  | inr a ↦ elim (le_or_lt m s) [
    | inl b ↦ inr (
      negsuc 0,
      k + second - n,
      rw
          (
            lt→ltb (m - s) (2 ^ 63) (omega arith),
            lt→ltb k n a,
            none b,
            lt→ltb (k + second - n) second (omega arith),
          )
          refl,
      (omega arith, omega arith),
    )
    | inr b ↦ inr (
      pos (m - s - 1),
      k + second - n,
      rw
          (
            lt→ltb (m - s) (2 ^ 63) (omega arith),
            lt→ltb k n a,
            some_left b,
            lt→ltb (k + second - n) second (omega arith),
          )
          refl,
      (omega arith, omega arith),
    )
  ]
]
  where
    none : m ≤ s → (m - s == 0) ≡ true
    none b = ground arith

    some_left : s < m → (m - s == 0) ≡ false
    some_left b = ground arith

difference_negative :
    (m k s n : ℕ)
    → m < s
    → s < 2 ^ 62
    → k ≤ second
    → n < second
    → Differs m k s n (borrowed (negsuc (s - m - 1)) k n)
unfolding borrowed
difference_negative m k s n h u l w = elim (le_or_lt n k) [
  | inl a ↦ elim (le_or_lt second (k - n)) [
    | inl b ↦ inl (
      rw (lt→ltb (s - m - 1) (2 ^ 63) (omega arith), le→ltb k n a, le→ltb (k - n) second b) refl,
      omega arith,
      omega arith,
    )
    | inr b ↦ inr (
      negsuc (s - m - 1),
      k - n,
      rw (lt→ltb (s - m - 1) (2 ^ 63) (omega arith), le→ltb k n a, lt→ltb (k - n) second b) refl,
      (omega arith, b),
    )
  ]
  | inr a ↦ inr (
    negsuc (suc (s - m - 1)),
    k + second - n,
    rw
        (
          lt→ltb (s - m - 1) (2 ^ 63) (omega arith),
          lt→ltb k n a,
          no_wrap,
          lt→ltb (k + second - n) second (omega arith),
        )
        refl,
    (omega arith, omega arith),
  )
]
  where
    no_wrap : (suc (s - m - 1) == 2 ^ 63) ≡ false
    no_wrap = ground arith

stamp_difference-Differs :
    (m k s n : ℕ)
    → m < 2 ^ 63
    → s < 2 ^ 62
    → k ≤ second
    → n < second
    → Differs m k s n (stamp_difference (stamp m k) (stamp s n))
unfolding stamp_difference borrowed
stamp_difference-Differs m k s n u v l w = elim (le_or_lt s m) [
  | inl h ↦ rw (le→leb s m h) (difference_natural m k s n h u l w)
  | inr h ↦ rw (lt→leb s m h) (difference_negative m k s n h v l w)
]

-- For clock ids that fit an i32, and three stamps that are not before the epoch, with seconds
-- below 2^62 and nanoseconds below 10^9: `clock_sub` panics, where the mean of the first and the
-- third has 10^9 nanoseconds and the second has none, or it returns the difference of the mean
-- and the second stamp, with nanoseconds below 10^9.
pub clock_sub_lem :
    (a b s1 n1 s2 n2 s3 n3 : ℕ)
    → a < 2 ^ 31
    → b < 2 ^ 31
    → (s1 < 2 ^ 62) × (n1 < second)
    → (s2 < 2 ^ 62) × (n2 < second)
    → (s3 < 2 ^ 62) × (n3 < second)
    → ((clock_sub a b (some (stamp s1 n1)) (some (stamp s2 n2)) (some (stamp s3 n3)) ≡ panic)
        × ((timespec_midpoint (stamp s1 n1) (stamp s3 n3)).tv_nsec ≡ second)
        × (n2 ≡ 0))
      ⊎ ((d : ℤ) × (n : ℕ) × (clock_sub a b
              (some (stamp s1 n1))
              (some (stamp s2 n2))
              (some (stamp s3 n3))
            ≡ ok (d, n))
          × IsDifference ((nanoseconds s1 n1 + nanoseconds s3 n3) / 2) (nanoseconds s2 n2) d n)
unfolding clock_sub
clock_sub_lem a b s1 n1 s2 n2 s3 n3 ha hb (u1, v1) (u2, v2) (u3, v3) =
    let (m, k, e, v, l) = timespec_midpoint_lem s1 n1 s3 n3 v1 v3 in
    rw (lt→ltb a (2 ^ 31) ha, lt→ltb b (2 ^ 31) hb, e, sym v)
      (stamp_difference-Differs m k s2 n2 (omega arith) u2 l v2)
