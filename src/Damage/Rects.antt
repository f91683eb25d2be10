-- ===== src/Damage/Rects.antt =====
-- src/damage.rs: from damaged rectangles to lists of intervals.
-- A binary heap is the list of its elements; `extract` takes its greatest. An index into the
-- rectangles is never in the heap twice, so an entry holds the rectangle and the row counter that
-- belong to its index.
use waypipe.Base.{
  ℕ, zero, suc, ◌+◌, ◌-◌, ◌*◌, ◌/◌, ◌%◌, ◌^◌, min, max, Bool, true, ◌&&◌, ◌||◌, Option, none, List,
  [], ◌∷◌, ◌++◌, ltb, leb, ◌==◌, if◌then◌else◌, Outcome, ok, err, panic, ◌>>=◌, ◌>>◌, assert,
  unwrap, usize_max, length,
}
use waypipe.Wayland.{checked_next_multiple_of}
use waypipe.Damage.{Interval, absorb, flush}

pub record Rect : Type 0 where
  pub x1 : ℕ
  pub x2 : ℕ
  pub y1 : ℕ
  pub y2 : ℕ

-- `no_fuel` is no error of the code: the loop of the model ran out of rounds.
pub data SegmentError : Type 0 where
  no_fuel : SegmentError

abbrev pub saturate : ℕ → ℕ
saturate x = min x usize_max

-- usize arithmetic of a release build
abbrev pub wrap64 : ℕ → ℕ
wrap64 x = x % 2 ^ 64

abbrev pub align_down : ℕ → ℕ → ℕ
align_down x align_bits = x / 2 ^ align_bits * 2 ^ align_bits

unfoldable pub align_up : ℕ → ℕ → Outcome SegmentError ℕ
align_up x align_bits = unwrap (checked_next_multiple_of x (2 ^ align_bits))

pub record Entry : Type 0 where
  pub start : ℕ
  pub index : ℕ
  pub rect : Rect
  pub row : ℕ

-- Is `a` above `b` in the order of the heap: an earlier start, or the greater index?
abbrev pub above : Entry → Entry → Bool
above a b = ltb (a.start) (b.start) || ((a.start == b.start) && ltb (b.index) (a.index))

-- `pop`, of a heap with the element `e`
unfoldable pub extract : Entry → List Entry → Entry × List Entry
extract e [] = (e, [])
extract e (f ∷ h) =
    let (top, rest) = extract f h in if above top e then (top, e ∷ rest) else (e, top ∷ rest)

-- `ilog2` of a number below 2 ^ n
unfoldable pub ilog2 : ℕ → ℕ → ℕ
ilog2 zero x = 0
ilog2 (suc n) x = let half = ilog2 n (x / 2) in if ltb x 2 then 0 else suc half

module _ (align_bits min_gap offset stride bpp : ℕ) where
  unfoldable pub bounding_interval : Rect → Interval
  bounding_interval r = (
    saturate (saturate (offset + saturate (r.y1 * stride)) + saturate (r.x1 * bpp)),
    saturate (saturate (offset + saturate (r.y2 * stride)) + saturate (r.x2 * bpp)),
  )

  unfoldable pub aligned_bounding_interval : Rect → Outcome SegmentError Interval
  aligned_bounding_interval r = do
    end ← align_up ((bounding_interval r).1) align_bits
    ok (align_down ((bounding_interval r).0) align_bits, end)

  -- The byte at row `y` and column `x`
  abbrev pub place : ℕ → ℕ → ℕ
  place y x = wrap64 (offset + y * stride + x * bpp)

  -- Are all rows of a rectangle merged?
  abbrev pub merges : Rect → Bool
  merges r = ltb (stride - min_gap) (wrap64 ((r.x2 - r.x1) * bpp))

  unfoldable pub entry : ℕ → Rect → Entry
  entry i r = record {
    start = align_down (place (r.y1) (r.x1)) align_bits;
    index = i;
    rect = r;
    row = if merges r then usize_max else 0;
  }

  unfoldable pub first_heap : ℕ → List Rect → List Entry
  first_heap i [] = []
  first_heap i (r ∷ rects) = entry i r ∷ first_heap (suc i) rects

  -- The end of the segment that an entry stands for
  abbrev pub segment_end : Entry → Outcome SegmentError ℕ
  segment_end e =
      align_up (place (if e.row == usize_max then e.rect.y2 - 1 else e.rect.y1 + e.row) (e.rect.x2))
        align_bits

  -- The entry goes back into the heap when it has more rows.
  unfoldable pub put_back : Entry → List Entry → List Entry
  put_back e heap =
      if e.row == usize_max
      then heap
      else if ltb (suc (e.row)) (e.rect.y2 - e.rect.y1)
      then record e {
        start = align_down (place (e.rect.y1 + suc (e.row)) (e.rect.x1)) align_bits;
        row = suc (e.row);
      }
        ∷ heap
      else heap

  -- The loop of `process_group`: what it pushes. The test against `cur` is the one of `union_damage`.
  unfoldable pub group_loop :
      Interval → ℕ → List Entry → Option Interval → ℕ → Outcome SegmentError (List Interval)
  group_loop bound fuel [] cur work_estimate = ok (flush cur)
  group_loop bound zero (e ∷ heap) cur work_estimate = err no_fuel
  group_loop bound (suc fuel) (e ∷ heap) cur work_estimate = do
    let (top, rest) = extract e heap
    end ← segment_end top
    let (out, cur') = absorb min_gap cur (top.start, end)
    let heap' = put_back top rest
    let work = work_estimate + ilog2 64 (max 16 (length heap'))
    c ← unwrap cur'
    let next : Outcome SegmentError (List Interval) = do
      more ← group_loop bound fuel heap' cur' work
      ok (out ++ more)
    if ltb ((bound.1 - bound.0) / 8) work then ok (out ++ ((c.0, bound.1) ∷ [])) else next

  -- Each round takes a row away.
  unfoldable pub rows : List Rect → ℕ
  rows [] = 0
  rows (r ∷ rects) = (r.y2 - r.y1) + rows rects

  unfoldable pub process_group : List Rect → Interval → Outcome SegmentError (List Interval)
  process_group rects bound = group_loop bound (rows rects) (first_heap 0 rects) none 0

  -- `sort_unstable_by_key`
  unfoldable pub insert : Rect → List Rect → List Rect
  insert r [] = r ∷ []
  insert r (s ∷ rects) =
      if leb ((bounding_interval r).0) ((bounding_interval s).0)
      then r ∷ s ∷ rects
      else s ∷ insert r rects

  unfoldable pub sort : List Rect → List Rect
  sort [] = []
  sort (r ∷ rects) = insert r (sort rects)

  -- The groups, with the rectangles of the current one and its region
  unfoldable pub group_rects :
      List Rect → List Rect → Interval → Outcome SegmentError (List (List Rect × Interval))
  group_rects [] current region = ok ((current, region) ∷ [])
  group_rects (r ∷ rects) current region = do
    b ← aligned_bounding_interval r
    let joined = group_rects rects (current ++ (r ∷ [])) (region.0, max (region.1) (b.1))
    let apart : Outcome SegmentError (List (List Rect × Interval)) = do
      spans ← group_rects rects (r ∷ []) b
      ok ((current, region) ∷ spans)
    if leb (b.0) (region.1) || ltb (b.0 - region.1) min_gap then joined else apart

  unfoldable pub process_spans : List (List Rect × Interval) → Outcome SegmentError (List Interval)
  process_spans [] = ok []
  process_spans ((rects, region) ∷ spans) = do
    out ← process_group rects region
    more ← process_spans spans
    ok (out ++ more)

  -- The groups of all rectangles, which are not none
  unfoldable pub first_span : List Rect → Outcome SegmentError (List (List Rect × Interval))
  first_span [] = panic
  first_span (r ∷ rects) = do
    region ← aligned_bounding_interval r
    group_rects rects (r ∷ []) region

  abbrev pub is_proper : Rect → Bool
  is_proper r = ltb (r.x1) (r.x2) && ltb (r.y1) (r.y2)

  unfoldable pub all_proper : List Rect → Bool
  all_proper [] = true
  all_proper (r ∷ rects) = is_proper r && all_proper rects

  unfoldable pub compute_damaged_segments : List Rect → Outcome SegmentError (List Interval)
  compute_damaged_segments [] = ok []
  compute_damaged_segments (r ∷ rects) = do
    assert (ltb 0 bpp)
    assert (all_proper (r ∷ rects))
    let sorted = sort (r ∷ rects)
    spans ← first_span sorted
    process_spans spans
