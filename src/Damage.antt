-- ===== src/Damage.antt =====
-- src/damage.rs: lists of damaged intervals of a buffer. A usize is a number; where the code may
-- overflow, the operation's saturation or wrap is written out.
pub mod Valid
pub mod Rects
mod Heap
mod Rows
mod Entries
mod Process
mod Groups
mod Segments
mod Union
pub mod Cover
mod Gaps
mod Tests
use waypipe.Base.{
  ℕ, zero, suc, ◌+◌, ◌-◌, ◌*◌, ◌/◌, ◌%◌, ◌^◌, min, max, Bool, true, false, not, ◌&&◌, ◌||◌, Option,
  none, some, List, [], ◌∷◌, ◌++◌, ltb, leb, ◌==◌, if◌then◌else◌, Outcome, ok, err, panic, ◌>>=◌,
  ◌>>◌, assert, ensure, usize_max,
}
use waypipe.Util.{Total}

-- A byte interval: its start, and its end, which is not in it
abbrev pub Interval : Type 0
Interval = ℕ × ℕ

pub data DamageError : Type 0 where
  empty_interval misaligned overlapping gap_too_small : DamageError

-- The first loop of `validate_output`; `x & mask` is the remainder.
unfoldable pub check_each : List Interval → ℕ → Outcome DamageError (Unit {0})
check_each [] align_bits = ok tt
check_each ((x, y) ∷ rest) align_bits = do
  ensure (ltb x y) empty_interval
  ensure (x % 2 ^ align_bits == 0 && y % 2 ^ align_bits == 0) misaligned
  check_each rest align_bits

-- The second loop, behind an interval with the end `last_end`. The sum wraps.
unfoldable pub check_gaps : ℕ → List Interval → ℕ → Outcome DamageError (Unit {0})
check_gaps last_end [] min_gap = ok tt
check_gaps last_end ((x, y) ∷ rest) min_gap = do
  ensure (leb last_end x) overlapping
  ensure (leb ((last_end + min_gap) % 2 ^ 64) x) gap_too_small
  check_gaps y rest min_gap

abbrev check_all_gaps : List Interval → ℕ → Outcome DamageError (Unit {0})
check_all_gaps [] min_gap = ok tt
check_all_gaps ((x, y) ∷ rest) min_gap = check_gaps y rest min_gap

unfoldable pub validate_output : List Interval → ℕ → ℕ → Outcome DamageError (Unit {0})
validate_output a align_bits min_gap = do check_each a align_bits; check_all_gaps a min_gap

abbrev is_ok : Outcome DamageError (Unit {0}) → Bool
is_ok (ok u) = true
is_ok (err e) = false
is_ok panic = false

-- What one round of `union_damage` pushes, and the new `last`.
unfoldable pub absorb : ℕ → Option Interval → Interval → List Interval × Option Interval
absorb min_gap none nxt = ([], some nxt)
absorb min_gap (some y) nxt =
    if leb nxt.0 y.1 || ltb (nxt.0 - y.1) min_gap
    then ([], some (y.0, max y.1 nxt.1))
    else (y ∷ [], some nxt)

abbrev pub flush : Option Interval → List Interval
flush none = []
flush (some e) = e ∷ []

-- The loop of `union_damage`: what it pushes from here on.
unfoldable pub union_loop : ℕ → List Interval → List Interval → Option Interval → List Interval
union_loop min_gap [] [] last = flush last
union_loop min_gap (ea ∷ a) [] last =
    let (out, last') = absorb min_gap last ea in out ++ union_loop min_gap a [] last'
union_loop min_gap [] (eb ∷ b) last =
    let (out, last') = absorb min_gap last eb in out ++ union_loop min_gap [] b last'
union_loop min_gap (ea ∷ a) (eb ∷ b) last =
    let from_a =
      (let (out, last') = absorb min_gap last ea in out ++ union_loop min_gap a (eb ∷ b) last') in
    let from_b =
      (let (out, last') = absorb min_gap last eb in out ++ union_loop min_gap (ea ∷ a) b last') in
    if leb ea.0 eb.0 then from_a else from_b

unfoldable pub union_damage : List Interval → List Interval → ℕ → Total (List Interval)
union_damage a b min_gap = do
  assert (is_ok (validate_output a 0 min_gap))
  assert (is_ok (validate_output b 0 min_gap))
  ok (union_loop min_gap a b none)
