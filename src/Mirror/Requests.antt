-- ===== src/Mirror/Requests.antt =====
-- `get_mut_range` of src/mirror.rs: which requests are granted, and what a refused one leaves.
use waypipe.Base.{
  ℕ, ◌≤◌, ◌<◌, ◌≡◌, refl, length, ◌↔◌, Bool, false, List, [], ◌∷◌, ltb, leb, arith, ok, panic,
  Option, none, some, if_cases,
}
use waypipe.Util.{Total}
use waypipe.Damage.{Interval}
use waypipe.Kernel.Construct.{Bytes}
use waypipe.Mirror.Calls.{IsSound}
use waypipe.Mirror.Ranges.{IsFree, any_overlap-IsFree, IsFree-any_overlap}
use waypipe.Mirror.{
  Mirror, isize_max, contents, contains, insert, any_overlap, get_mut_range, take_range, extend,
  is_empty,
}

insert_nonempty : (x : Interval) (l : List Interval) → is_empty (insert x l) ≡ false
unfolding insert contains
insert_nonempty x [] = ground arith
insert_nonempty x (y ∷ l) = ground arith

-- A request of a nonempty range that ends beyond the region, while no range overlaps it, returns
-- nothing. Afterwards `extend` panics at every size up to `isize::MAX`, whether or not a range is
-- handed out.
pub get_mut_range_leaks :
    (linux : Bool) (mmap : ℕ → Option Bytes) (mremap : Bytes → ℕ → Option Bytes) (m : Mirror)
    (start end n : ℕ)
    → start < end
    → m.region_size < end
    → any_overlap (m.ranges) (start, end) ≡ false
    → n ≤ isize_max
    → (m' : Mirror) × (get_mut_range m start end ≡ ok (none, m'))
      × (extend linux mmap mremap m' n ≡ panic)
unfolding get_mut_range extend
get_mut_range_leaks linux mmap mremap m start end n lt out free small = (
  record m { ranges = insert (start, end) (m.ranges) },
  ground arith,
  ground (arith, insert_nonempty (start, end) (m.ranges)),
)

take_range_total :
    (m : Mirror) (x : Interval)
    → x.0 < x.1
    → x.1 ≤ m.region_size
    → length (contents (m.data_)) ≡ m.region_size
    → m.region_size ≤ isize_max
    → take_range m x ≡ ok (some x, m)
unfolding take_range
take_range_total m x lt le sized small = ground arith

-- The tests of the code, as they are made
abbrev Passes : Mirror → ℕ → ℕ → Type 0
Passes m start end =
    (start < end) × (end ≤ m.region_size) × (any_overlap (m.ranges) (start, end) ≡ false)

abbrev Decides : Mirror → ℕ → ℕ → Total (Option Interval × Mirror) → Type 0
Decides m start end out =
    (r : Option Interval) × (m' : Mirror) × (out ≡ ok (r, m'))
    × ((r ≡ some (start, end)) ↔ Passes m start end)

-- A request is granted when it is not empty, within the region, and shares no byte with a range
-- of the set.
abbrev pub IsGranted : Mirror → ℕ → ℕ → Type 0
IsGranted m start end = (start < end) × (end ≤ m.region_size) × IsFree (start, end) (m.ranges)

abbrev pub IsAnswer : Mirror → ℕ → ℕ → Total (Option Interval × Mirror) → Type 0
IsAnswer m start end out =
    (r : Option Interval) × (m' : Mirror) × (out ≡ ok (r, m'))
    × ((r ≡ some (start, end)) ↔ IsGranted m start end)

get_mut_range_tests :
    (m : Mirror) (held : List Interval) (start end : ℕ)
    → IsSound m held
    → Decides m start end (get_mut_range m start end)
unfolding get_mut_range
get_mut_range_tests m held start end s =
    let m' : Mirror = record m { ranges = insert (start, end) (m.ranges) } in
    if_cases (Decides m start end) (leb end start) (λ a. (none, m, refl, ground arith))
      (λ a.
        if_cases (Decides m start end) (any_overlap (m.ranges) (start, end))
          (λ b. (none, m, refl, ground arith))
          (λ b.
            if_cases (Decides m start end) (ltb (m.region_size) end)
              (λ c. (none, m', refl, ground arith))
              (λ c. (
                some (start, end),
                m',
                take_range_total m' (start, end) (ground arith) (ground arith) (s.sized) (s.small),
                ground arith,
              ))))

-- On a mirror as after any sequence of calls, with an allocation of the size of the region, at
-- most `isize::MAX`, and no empty range in the set, `get_mut_range` does not panic, and it hands
-- out the range asked for exactly when that is not empty, ends within the region, and shares no
-- byte with a range of the set.
pub get_mut_range_decides :
    (m : Mirror) (held : List Interval) (start end : ℕ)
    → IsSound m held
    → IsAnswer m start end (get_mut_range m start end)
get_mut_range_decides m held start end s =
    let (r, m', run, passes) = get_mut_range_tests m held start end s in
    (
      r,
      m',
      run,
      (
        λ e.
            (let (lt, le, o) = passes.0 e in
              (lt, le, any_overlap-IsFree (start, end) (m.ranges) o)),
        λ (lt, le, f).
            passes.1 (lt, le, IsFree-any_overlap (start, end) (m.ranges) lt (s.nonempty) f),
      ),
    )
