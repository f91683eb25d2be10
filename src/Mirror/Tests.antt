-- ===== src/Mirror/Tests.antt =====
-- Runs of the mirror of src/mirror.rs, and the theorems at concrete mirrors.
use waypipe.Base.{
  ℕ, ◌-◌, ◌≤◌, ◌≡◌, refl, true, false, Option, none, some, List, [], ◌∷◌, ◌++◌, arith, length,
  replicate, ok, panic, copy_at,
}
use waypipe.Damage.{Interval}
use waypipe.Kernel.Construct.{Bytes}
use waypipe.Mirror.{
  Mirror, allocated, contents, contains, insert, remove, any_overlap, get_mut_range, take_range,
  drop_range, write_range, new, extend, grow,
}
use waypipe.Mirror.Calls.{IsSound}
use waypipe.Mirror.Extend.{MmapZeroed, MremapKeeps}
use waypipe.Mirror.Exclusive.{Reach, created, handed, dropped, written, Reach-IsSound, extend_lem}
use waypipe.Mirror.Requests.{IsAnswer, get_mut_range_decides, get_mut_range_leaks}

-- System calls that always succeed
abbrev map_zeroes : ℕ → Option Bytes
map_zeroes n = some (replicate n 0)

abbrev remap : Bytes → ℕ → Option Bytes
remap s n = some (s ++ replicate (n - length s) 0)

zeroes-MmapZeroed : MmapZeroed map_zeroes
zeroes-MmapZeroed n d h = cc

remap-MremapKeeps : MremapKeeps remap
remap-MremapKeeps s d n lt h = cc

abbrev fresh : Mirror
fresh = record { data_ = allocated (replicate 4 0); region_size = 4; ranges = [] }

abbrev lent : Mirror
lent = record { data_ = allocated (replicate 4 0); region_size = 4; ranges = (1, 3) ∷ [] }

-- Two bytes of it are written, and it is given back.
abbrev held_bytes : Bytes
held_bytes = 0 ∷ 7 ∷ 8 ∷ 0 ∷ []

abbrev filled : Mirror
filled = record { data_ = allocated held_bytes; region_size = 4; ranges = [] }

abbrev larger : Mirror
larger = record { data_ = allocated (held_bytes ++ replicate 2 0); region_size = 6; ranges = [] }

fresh-Reach : Reach true map_zeroes remap fresh []
unfolding new
fresh-Reach = created fresh 4 false refl

lent-Reach : Reach true map_zeroes remap lent ((1, 3) ∷ [])
unfolding get_mut_range take_range any_overlap insert contains
lent-Reach = handed fresh lent [] 1 3 (1, 3) fresh-Reach refl

filled-Reach : Reach true map_zeroes remap filled []
unfolding write_range drop_range remove
filled-Reach =
    dropped (write_range lent (1, 3) (7 ∷ 8 ∷ [])) [] [] (1, 3)
      (written lent [] [] (1, 3) (7 ∷ 8 ∷ []) lent-Reach refl)

extend-filled : extend true map_zeroes remap filled 6 ≡ ok larger
unfolding extend grow copy_at
extend-filled = refl

dropped_fresh : drop_range lent (1, 3) ≡ fresh
unfolding drop_range remove
dropped_fresh = refl

reach_example : IsSound lent ((1, 3) ∷ [])
reach_example =
    Reach-IsSound true map_zeroes remap zeroes-MmapZeroed remap-MremapKeeps lent ((1, 3) ∷ [])
      lent-Reach

abbrev nothing : List Interval
nothing = []

extend_example :
    (nothing ≡ [])
    × (larger.region_size ≡ 6)
    × (4 ≤ 6)
    × (contents larger.data_ ≡ held_bytes ++ replicate 2 0)
extend_example =
    extend_lem true map_zeroes remap zeroes-MmapZeroed remap-MremapKeeps filled larger nothing 6
      filled-Reach extend-filled

-- Ranges that touch do not overlap, as in the test of src/mirror.rs.
touching_run :
    get_mut_range (record fresh { ranges = (0, 2) ∷ [] }) 2 4
    ≡ ok (some (2, 4), record fresh { ranges = (2, 4) ∷ (0, 2) ∷ [] })
unfolding get_mut_range take_range any_overlap insert contains
touching_run = refl

request_example : IsAnswer lent 2 4 (get_mut_range lent 2 4)
request_example = get_mut_range_decides lent ((1, 3) ∷ []) 2 4 reach_example

leak_example :
    (m' : Mirror) × (get_mut_range fresh 2 5 ≡ ok (none, m'))
    × (extend true map_zeroes remap m' 8 ≡ panic)
unfolding any_overlap
leak_example =
    get_mut_range_leaks true map_zeroes remap fresh 2 5 8 (omega arith) (omega arith) refl
      (omega arith)
