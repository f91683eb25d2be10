-- ===== src/Kernel/Tests.antt =====
-- Runs of the diffs of src/kernel.rs, and the theorems at concrete buffers.
use waypipe.Base.{
  ℕ, ◌+◌, ◌≤◌, ◌≡◌, refl, List, [], ◌∷◌, ◌++◌, arith, length, replicate, ok, err, panic, slice,
  copy_at, to_le_bytes, from_le_bytes, read_word,
}
use waypipe.Kernel.Construct.{
  Scanned, ctrl_blocks, construct_diff, construct_diff_segment_two, scan, lines, iterate, eq_bytes,
  construct_diff_segment_two_iter,
}
use waypipe.Kernel.Apply.{apply_one_loop, apply_diff_one, apply_diff, no_fuel, span_loop}
use waypipe.Kernel.Segment.{apply_diff_one-construct_diff_segment_two}
use waypipe.Kernel.RoundTrip.{refreshed, apply_diff-construct_diff}
use waypipe.Kernel.Guards.{apply_diff_one_panics, span_loop_stuck}

-- Three lines, of which the second half of the middle one changes.
abbrev before : List ℕ
before = replicate 192 0

abbrev after : List ℕ
after = replicate 96 0 ++ (replicate 32 1 ++ replicate 64 0)

construct_half :
    construct_diff_segment_two 200 after before 0 16
    ≡ ok (record { diff = ctrl_blocks 24 32 ++ replicate 32 1; reference = after })
unfolding construct_diff_segment_two construct_diff_segment_two_iter iterate lines scan eq_bytes
    ctrl_blocks to_le_bytes
construct_half = refl

apply_half : apply_diff_one (ctrl_blocks 24 32 ++ replicate 32 1) 0 0 before ≡ ok after
unfolding apply_diff_one apply_one_loop read_word slice copy_at from_le_bytes ctrl_blocks
    to_le_bytes
apply_half = refl

segment_example :
    (s : Scanned) × (construct_diff_segment_two 200 after before 64 16 ≡ ok s)
    × (s.reference ≡ after)
    × (length s.diff ≤ 192 + 8)
    × (apply_diff_one s.diff 0 60 (replicate 4 5 ++ (before ++ []))
        ≡ ok (replicate 4 5 ++ (after ++ [])))
segment_example =
    apply_diff_one-construct_diff_segment_two 3 200 64 16 60 after before (replicate 4 5) [] refl
      refl (omega arith) refl refl (omega arith) (omega arith) (omega arith)

-- The last two lines of a mapping, of which the mirror holds all but the first line.
replicate_example :
    (s : Scanned) × (construct_diff 200 after ((64, 128) ∷ []) (replicate 128 0) 64 ≡ ok s)
    × (s.reference ≡ refreshed after ((64, 128) ∷ []) (replicate 128 0) 64)
    × (length s.diff ≤ 72)
    × (apply_diff_one s.diff 0 64 (replicate 128 0) ≡ ok s.reference)
    × (apply_diff s.diff 0 (replicate 64 0 ++ (replicate 128 0 ++ [])) 64 (replicate 128 0)
        ≡ ok (replicate 64 0 ++ (s.reference ++ []), s.reference))
replicate_example =
    apply_diff-construct_diff ((64, 128) ∷ []) 200 64 after (replicate 128 0) (replicate 64 0) []
      (omega arith) (omega arith) (omega arith) refl

-- A mirror of 64 bytes, and a segment for the words 16 to 20
panics_example : apply_diff_one (ctrl_blocks 16 20 ++ replicate 16 1) 0 0 (replicate 64 0) ≡ panic
panics_example =
    apply_diff_one_panics 16 20 0 (replicate 16 1) (replicate 64 0) (omega arith) (omega arith)
      (omega arith) refl (omega arith) (omega arith) (omega arith)

stuck_example : span_loop (ctrl_blocks 2 0 ++ []) 8 1000 0 64 0 ≡ err no_fuel
stuck_example =
    span_loop_stuck (ctrl_blocks 2 0 ++ []) [] [] 8 1000 2 0 0 64 0 refl refl (omega arith)
      (omega arith) (omega arith) (omega arith)
