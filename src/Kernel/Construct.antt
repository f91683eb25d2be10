-- ===== src/Kernel/Construct.antt =====
-- The construction of diffs in src/kernel.rs: the scan by lines of 64 bytes.
use waypipe.Base.{
  ℕ, zero, suc, ◌+◌, ◌-◌, ◌*◌, ◌/◌, ◌%◌, Bool, true, false, not, ◌&&◌, List, [], ◌∷◌, ◌++◌, length,
  take, drop, ltb, leb, ◌==◌, if◌then◌else◌, ok, ◌>>=◌, ◌>>◌, assert, unwrap, slice, copy_at,
  to_le_bytes,
}
use waypipe.Util.{Total, fit}

abbrev pub Bytes : Type 0
Bytes = List ℕ

unfoldable pub eq_bytes : Bytes → Bytes → Bool
eq_bytes [] [] = true
eq_bytes (x ∷ xs) (y ∷ ys) = x == y && eq_bytes xs ys
eq_bytes _ _ = false

-- What `DiffIterator::next` yields, one pair (values, refvals) after the other: the lines of the
-- target and those of the reference.
abbrev pub Lines : Type 0
Lines = List (Bytes × Bytes)

unfoldable pub lines : ℕ → Bytes → Bytes → Lines
lines zero target reference = []
lines (suc n) target reference =
    (take 64 target, take 64 reference) ∷ lines n (drop 64 target) (drop 64 reference)

-- `LocalIterator::new` and `ShmIterator::new`
unfoldable pub iterate : Bytes → Bytes → Total Lines
unfolding lines
iterate target reference = do
  assert (length target == length reference)
  assert (length target % 64 == 0)
  ok (lines (length target / 64) target reference)

-- The place in the scan: in an unchanged region, or in a changed one with its first word, its
-- count of unchanged words at the end, and the bytes copied so far.
pub data Region : Type 0 where
  unchanged : Region
  changed : ℕ → ℕ → Bytes → Region

-- The part of `diff` that is written, and the reference after the writebacks.
pub record Scanned : Type 0 where
  pub diff : Bytes
  pub reference : Bytes

-- `ctrl_blocks`; the words are u32, and `to_le_bytes` keeps the low 32 bits.
unfoldable pub ctrl_blocks : ℕ → ℕ → Bytes
ctrl_blocks start end = to_le_bytes start ++ to_le_bytes end

abbrev pub write_back : Bytes → Total Scanned → Total Scanned
write_back line rest = do s ← rest; ok (record s { reference = line ++ s.reference })

abbrev pub record_run : Bytes → Total Scanned → Total Scanned
record_run run rest = do s ← rest; ok (record s { diff = run ++ s.diff })

module _ (refbase_block skip_gap_len : ℕ) where
  -- Both scanning loops, from the line `line_no` on. `room` is `diff.len()`, what is left of the
  -- output behind the control blocks of the region.
  unfoldable pub scan : Region → ℕ → ℕ → Lines → Total Scanned
  unfolding ctrl_blocks
  scan unchanged line_no room [] = ok (record { diff = []; reference = [] })
  scan unchanged line_no room ((values, refvals) ∷ rest) =
      let leading = if eq_bytes (take 32 values) (take 32 refvals) then 8 else 0 in
      let start = 16 * line_no + leading + refbase_block in
      let opened = scan (changed start 0 (drop (4 * leading) values)) (line_no + 1) room rest in
      let same = scan unchanged (line_no + 1) room rest in
      if eq_bytes values refvals
      then write_back refvals same
      else do assert (leb (4 * (16 - leading)) room); write_back values opened
  scan (changed start trailing run) line_no room [] =
      let end = 16 * line_no - trailing + refbase_block in
      ok (record {
        diff = ctrl_blocks start end ++ take (length run - 4 * trailing) run;
        reference = [];
      })
  scan (changed start trailing run) line_no room ((values, refvals) ∷ rest) =
      let trailing' = if eq_bytes values refvals then trailing + 16 else 0 in
      let run' = run ++ values in
      let end = 16 + 16 * line_no - trailing' + refbase_block in
      let cut = 4 * (end - start) in
      let closed = scan unchanged (line_no + 1) (room - cut - 8) rest in
      let kept = scan (changed start trailing' run') (line_no + 1) room rest in
      do
        assert (leb (length run + 64) room)
        if ltb skip_gap_len trailing'
            then (do
              assert (leb cut room)
              assert (leb 8 (room - cut))
              record_run (ctrl_blocks start end ++ take (length run' - 4 * trailing') run')
                  (write_back values closed))
            else write_back values kept

-- The diff of one segment. Its length is the value that the code returns, as a u32.
unfoldable pub construct_diff_segment_two_iter : ℕ → Lines → ℕ → ℕ → Total Scanned
construct_diff_segment_two_iter room iter reference_base skip_gap_len = do
  assert (reference_base % 4 == 0)
  assert (leb 16 skip_gap_len)
  assert (leb 8 room)
  s ← scan (reference_base / 4) skip_gap_len unchanged 0 (room - 8) iter
  len ← fit 32 (length s.diff)
  ok s

-- What is run where the processor has no AVX2
unfoldable pub construct_diff_segment_two : ℕ → Bytes → Bytes → ℕ → ℕ → Total Scanned
construct_diff_segment_two room target reference reference_base skip_gap_len = do
  assert (leb (length target + 8) room)
  iter ← iterate target reference
  construct_diff_segment_two_iter room iter reference_base skip_gap_len

-- The diffs of all intervals, one behind the other, and the reference after them. A region of
-- `room` bytes is given for the diff.
unfoldable pub construct_diff : ℕ → Bytes → List (ℕ × ℕ) → Bytes → ℕ → Total Scanned
construct_diff room mapping [] reference reference_base =
    ok (record { diff = []; reference = reference })
construct_diff room mapping ((a, b) ∷ intervals) reference reference_base = do
  assert (a % 64 == 0 && b % 64 == 0)
  assert (leb reference_base a && ltb a b)
  target ← unwrap (slice mapping a b)
  old ← unwrap (slice reference (a - reference_base) (b - reference_base))
  iter ← iterate target old
  s ← construct_diff_segment_two_iter room iter a 16
  reference' ← unwrap (copy_at reference (a - reference_base) s.reference)
  let more = construct_diff (room - length s.diff) mapping intervals reference' reference_base
  record_run s.diff more

-- `copy_tail_if_diff`: the last bytes of the mapping, which replace the reference, and whether
-- they differ from it.
unfoldable pub copy_tail_if_diff : Bytes → ℕ → Bytes → Total (Bool × Bytes)
copy_tail_if_diff mapping tail_len reference = do
  assert (length reference == tail_len)
  assert (leb tail_len (length mapping))
  let tail = drop (length mapping - tail_len) mapping
  ok (not (eq_bytes tail reference), tail)
