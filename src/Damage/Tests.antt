-- ===== src/Damage/Tests.antt =====
-- Runs of the interval functions of src/damage.rs, and the theorems at concrete lists.
use waypipe.Base.{◌≡◌, refl, inl, ◌↔◌, ◌⊎◌, List, [], ◌∷◌, arith, All, ok, err}
use waypipe.Damage.Rects.{
  Rect, compute_damaged_segments, sort, insert, first_span, group_rects, process_spans,
  process_group, group_loop, first_heap, entry, rows, put_back, extract, align_up,
  aligned_bounding_interval, bounding_interval, all_proper, ilog2,
}
use waypipe.Damage.Segments.{compute_damaged_segments-Covers}
use waypipe.Wayland.{checked_next_multiple_of}
use waypipe.Damage.{
  Interval, union_damage, union_loop, absorb, validate_output, check_each, check_gaps, overlapping,
  misaligned,
}
use waypipe.Damage.Valid.{IsProper, IsApart, validate_output_lem}
use waypipe.Damage.Union.{union_damage_valid}
use waypipe.Damage.Cover.{Covers, union_damage-Covers}
use waypipe.Damage.Gaps.{IsNear, union_damage-IsNear}

abbrev left : List Interval
left = (0, 64) ∷ (128, 192) ∷ []

abbrev right : List Interval
right = (80, 96) ∷ (256, 320) ∷ []

-- The gaps of 16 and 32 bytes are closed, the one of 64 stays.
abbrev both : List Interval
both = (0, 192) ∷ (256, 320) ∷ []

union_both : union_damage left right 40 ≡ ok both
unfolding union_damage union_loop absorb validate_output check_each check_gaps
union_both = refl

validate_overlap : validate_output ((0, 8) ∷ (4, 12) ∷ []) 2 0 ≡ err overlapping
unfolding validate_output check_each check_gaps
validate_overlap = refl

validate_misaligned : validate_output ((0, 8) ∷ (18, 24) ∷ []) 2 4 ≡ err misaligned
unfolding validate_output check_each check_gaps
validate_misaligned = refl

validate_example : (validate_output both 6 64 ≡ ok tt) ↔ (All (IsProper 6) both × IsApart 64 both)
validate_example = validate_output_lem both 6 64 (ground arith)

union_example :
    (out : List Interval) × (union_damage left right 16 ≡ ok out)
    × All (IsProper 4) out
    × IsApart 16 out
union_example =
    union_damage_valid left right 16 4 (ground arith) (ground arith) (ground arith) (ground arith)

cover_example : Covers 90 both
cover_example =
    union_damage-Covers left right both 40 90 (ground arith) (ground arith) union_both
      (ground arith)

gap_example : IsNear (λ q. Covers q left ⊎ Covers q right) 40 70
gap_example =
    union_damage-IsNear left right both 40 70 (ground arith) (ground arith) union_both
      (ground arith)

-- Two rectangles of a buffer with rows of 16 bytes, and pixels of four
abbrev two_rects : List Rect
two_rects =
    record { x1 = 1; x2 = 3; y1 = 0; y2 = 2 } ∷ record { x1 = 0; x2 = 1; y1 = 9; y2 = 10 } ∷ []

-- The work estimate ends each group early, at the bound of its region.
segments_run :
    compute_damaged_segments 2 8 4 16 4 two_rects ≡ ok ((8, 16) ∷ (24, 48) ∷ (148, 168) ∷ [])
unfolding compute_damaged_segments sort insert first_span group_rects process_spans process_group
    group_loop first_heap entry rows put_back extract align_up aligned_bounding_interval
    bounding_interval all_proper ilog2 absorb checked_next_multiple_of
segments_run = refl

segments_example :
    (out : List Interval) × (compute_damaged_segments 2 8 4 16 4 two_rects ≡ ok out) × Covers 25 out
segments_example =
    compute_damaged_segments-Covers 2 8 4 16 4 (omega arith) two_rects 25 (omega arith)
      (ground arith) (inl (1, omega arith, omega arith, (omega arith, omega arith)))
