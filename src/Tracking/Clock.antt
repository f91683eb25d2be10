-- ===== src/Tracking/Clock.antt =====
-- `time_add` of src/tracking.rs, which moves a time stamp between clocks.
use waypipe.Base.{
  ℕ, suc, ◌+◌, ◌-◌, ◌*◌, ◌^◌, ◌≤◌, ◌<◌, ◌≡◌, ◌↔◌, ◌&&◌, ltb, if◌then◌else◌, Outcome, ok, err, ◌>>=◌,
  ◌>>◌, assert, arith, le_or_lt, inl, inr,
}
use waypipe.Tracking.{ℤ, pos, negsuc}

-- `None` of `time_add`
pub data TimeError : Type 0 where
  time_overflow : TimeError

-- `checked_add` and `checked_add_signed`, on types of `w` bits
abbrev checked_add : ℕ → ℕ → ℕ → Outcome TimeError ℕ
checked_add w a b = if ltb (a + b) (2 ^ w) then ok (a + b) else err time_overflow

abbrev checked_add_signed : ℕ → ℤ → Outcome TimeError ℕ
checked_add_signed a (pos n) = checked_add 64 a n
checked_add_signed a (negsuc n) = if ltb n a then ok (a - suc n) else err time_overflow

abbrev pub second : ℕ
second = 1000000000

-- Seconds and nanoseconds of the time, and of the offset
unfoldable pub time_add : ℕ × ℕ → ℤ × ℕ → Outcome TimeError (ℕ × ℕ)
time_add a b = do
  assert (ltb a.1 second && ltb b.1 second)
  nsec ← checked_add 32 a.1 b.1
  (sec, nsec') ←
      (if ltb second nsec
        then (do up ← checked_add 64 a.0 1; ok (up, nsec - second))
        else ok (a.0, nsec))
  sum ← checked_add_signed sec b.0
  ok (sum, nsec')

-- For nanoseconds below 10^9, and seconds whose sum with one more is a u64, `time_add` of an
-- offset that is not negative gives the sum of the times, with 10^9 nanoseconds at most; these
-- are 10^9, which is no valid value, exactly when the nanoseconds add up to it.
pub time_add_lem :
    (s n d m : ℕ)
    → n < 1000000000
    → m < 1000000000
    → s + d + 1 < 2 ^ 64
    → (s' : ℕ) × (n' : ℕ) × (time_add (s, n) (pos d, m) ≡ ok (s', n'))
      × (s' * 1000000000 + n' ≡ (s + d) * 1000000000 + n + m)
      × (n' ≤ 1000000000)
      × ((n' ≡ 1000000000) ↔ (n + m ≡ 1000000000))
unfolding time_add
time_add_lem s n d m hn hm hs = elim (le_or_lt (n + m) second) [
  | inl le ↦ (s + d, n + m, ground arith, omega arith, omega arith, ground arith)
  | inr gt ↦ (s + 1 + d, n + m - second, ground arith, omega arith, omega arith, ground arith)
]
