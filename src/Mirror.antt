-- ===== src/Mirror.antt =====
-- src/mirror.rs: the mirror of a buffer, of which ranges are handed out.
-- The allocation is its bytes; pointers are not modelled. Each operation runs under the mutex, so
-- it is one step. The set of ranges is a list without repetitions.
-- `mmap n` and `mremap d n` are the system calls: the bytes of the mapping, or nothing on failure.
mod Ranges
mod Calls
mod Exclusive
mod Extend
mod Requests
mod Tests
use waypipe.Base.{
  ℕ, zero, suc, ◌+◌, ◌-◌, ◌^◌, Bool, true, false, ◌&&◌, ◌||◌, Option, none, some, List, [], ◌∷◌,
  ltb, leb, ◌==◌, if◌then◌else◌, Outcome, ok, err, panic, ◌>>=◌, ◌>>◌, assert, ensure, ok_or,
  unwrap, length, replicate, copy_at, take, drop, ◌++◌,
}
use waypipe.Util.{Total}
use waypipe.Damage.{Interval}
use waypipe.Kernel.Construct.{Bytes}

pub data MirrorError : Type 0 where
  creating_too_large extending_too_large failed_to_map : MirrorError

pub data MirrorBacking : Type 0 where
  mmapped : Bytes → MirrorBacking
  allocated : Bytes → MirrorBacking

abbrev pub contents : MirrorBacking → Bytes
contents (mmapped d) = d
contents (allocated d) = d

pub record Mirror : Type 0 where
  pub data_ : MirrorBacking
  pub region_size : ℕ
  pub ranges : List Interval

abbrev pub isize_max : ℕ
isize_max = 2 ^ 63 - 1

abbrev pub nonempty_range_overlap : Interval → Interval → Bool
nonempty_range_overlap a b = ltb (b.0) (a.1) && ltb (a.0) (b.1)

abbrev pub same : Interval → Interval → Bool
same a b = (a.0 == b.0) && (a.1 == b.1)

-- Membership, insertion and removal of the set of ranges
unfoldable pub contains : Interval → List Interval → Bool
contains x [] = false
contains x (y ∷ l) = same x y || contains x l

unfoldable pub insert : Interval → List Interval → List Interval
insert x l = if contains x l then l else x ∷ l

unfoldable pub remove : Interval → List Interval → List Interval
remove x [] = []
remove x (y ∷ l) = let rest = remove x l in if same x y then rest else y ∷ rest

-- The loop over the ranges: is any in the way?
unfoldable pub any_overlap : List Interval → Interval → Bool
any_overlap [] x = false
any_overlap (sp ∷ l) x = nonempty_range_overlap sp x || any_overlap l x

-- The pointer arithmetic at the end, with the bounds that the code asserts
unfoldable pub take_range : Mirror → Interval → Total (Option Interval × Mirror)
take_range m x = do
  assert (leb (x.0) isize_max)
  elim (m.data_) [
    | mmapped d ↦ ok (some x, m)
    | allocated d ↦ do assert (leb (x.0 + (x.1 - x.0)) (length d)); ok (some x, m)
  ]

-- The span of the range, if it is handed out, and the mirror after the call
unfoldable pub get_mut_range : Mirror → ℕ → ℕ → Total (Option Interval × Mirror)
get_mut_range m start end =
    if leb end start
    then ok (none, m)
    else if any_overlap (m.ranges) (start, end)
    then ok (none, m)
    else (let m' = record m { ranges = insert (start, end) (m.ranges) } in
        if ltb (m'.region_size) end then ok (none, m') else take_range m' (start, end))

-- `drop` of a `MirrorRange`
unfoldable pub drop_range : Mirror → Interval → Mirror
drop_range m span = record m { ranges = remove span (m.ranges) }

abbrev pub with_contents : MirrorBacking → Bytes → MirrorBacking
with_contents (mmapped p) d = mmapped d
with_contents (allocated v) d = allocated d

-- A write through the `data` of a `MirrorRange`: its bytes become others.
unfoldable pub write_range : Mirror → Interval → Bytes → Mirror
write_range m span bytes =
    let d = contents (m.data_) in
    record m { data_ = with_contents (m.data_) (take (span.0) d ++ (bytes ++ drop (span.1) d)) }

abbrev pub len : Mirror → ℕ
len m = m.region_size

abbrev pub is_empty : List Interval → Bool
is_empty [] = true
is_empty (x ∷ l) = false

module _ (linux : Bool) (mmap : ℕ → Option Bytes) (mremap : Bytes → ℕ → Option Bytes) where
  unfoldable pub do_mmap : ℕ → Outcome MirrorError Bytes
  do_mmap size = ok_or (mmap size) failed_to_map

  -- Off Linux a new mapping is made, and the old one copied.
  unfoldable pub do_mremap : Bytes → ℕ → Outcome MirrorError Bytes
  do_mremap src new_size =
      if linux
      then ok_or (mremap src new_size) failed_to_map
      else (do fresh ← do_mmap new_size; unwrap (copy_at fresh 0 src))

  unfoldable pub new : ℕ → Bool → Outcome MirrorError Mirror
  new size use_mmap = do
    ensure (leb size isize_max) creating_too_large
    if use_mmap
        then (do
          d ← (if ltb 0 size then do_mmap size else ok [])
          ok (record { data_ = mmapped d; region_size = size; ranges = [] }))
        else ok (record { data_ = allocated (replicate size 0); region_size = size; ranges = [] })

  -- The new backing of a mirror that grows
  unfoldable pub grow : MirrorBacking → ℕ → ℕ → Outcome MirrorError MirrorBacking
  grow (mmapped p) old_size new_size = do
    d ← (if old_size == 0 then do_mmap new_size else do_mremap p new_size)
    ok (mmapped d)
  grow (allocated v) old_size new_size = do
    d ← unwrap (copy_at (replicate new_size 0) 0 v)
    ok (allocated d)

  -- An error leaves the mirror as it was.
  unfoldable pub extend : Mirror → ℕ → Outcome MirrorError Mirror
  extend m new_size = do
    ensure (leb new_size isize_max) extending_too_large
    assert (is_empty (m.ranges))
    assert (leb (m.region_size) new_size)
    if new_size == m.region_size then ok m else (do
      assert (ltb (m.region_size) new_size)
      d ← grow (m.data_) (m.region_size) new_size
      ok (record m { data_ = d; region_size = new_size }))
