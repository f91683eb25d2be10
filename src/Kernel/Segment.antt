-- ===== src/Kernel/Segment.antt =====
-- One segment: `construct_diff_segment_two` and `apply_diff_one` of src/kernel.rs together.
use waypipe.Base.{
  ℕ, ◌+◌, ◌-◌, ◌*◌, ◌/◌, ◌%◌, ◌^◌, ◌≤◌, ◌<◌, ◌≡◌, refl, sym, ap, ◌∙◌, [], ◌++◌, append-nil, arith,
  length, true, ◌==◌, ==_iff, le→leb, lt→ltb, ok, ◌>>=◌,
}
use mathlib.Core.Path.{subst}
use waypipe.Util.{Total, fit}
use waypipe.Kernel.Construct.{
  Bytes, Scanned, lines, iterate, construct_diff_segment_two_iter, construct_diff_segment_two,
}
use waypipe.Kernel.Apply.{apply_diff_one}
use waypipe.Kernel.Patch.{Patch}
use waypipe.Kernel.Lines.{lines-Cut}
use waypipe.Kernel.Run.{apply_diff_one-Patch}
use waypipe.Kernel.Front.{Scans}
use waypipe.Kernel.Scan.{scan-Scans}

pub eq→== : (a b : ℕ) → a ≡ b → (a == b) ≡ true
eq→== a b e = (==_iff a b).1 e

-- The length of the diff fits a u32, and is returned.
returned :
    {mir : ℕ} {m m' new : Bytes} (bound : ℕ) (result : Total Scanned)
    → bound < 2 ^ 32
    → Scans mir m m' new bound result
    → Scans mir m m' new bound (do s ← result; len ← fit 32 (length s.diff); ok s)
returned bound result small s = record {
  scanned = s.scanned;
  runs = rw (s.runs, lt→ltb (length s.scanned.diff) (2 ^ 32) (omega (arith, s.short))) refl;
  patch = s.patch;
  copied = s.copied;
  short = s.short;
}

-- One segment: between `pre` and `post` of the mirror, the reference becomes the target.
pub segment_iter :
    (n room base skip mir : ℕ) (target reference pre post : Bytes)
    → length target ≡ 64 * n
    → length reference ≡ 64 * n
    → 64 * n + 8 ≤ room
    → base % 4 ≡ 0
    → base ≡ mir + length pre
    → base + 64 * n < 2 ^ 34
    → 64 * n + 8 < 2 ^ 32
    → 16 ≤ skip
    → Scans mir
        (pre ++ (reference ++ post))
        (pre ++ (target ++ post))
        target
        (64 * n + 8)
        (do iter ← iterate target reference; construct_diff_segment_two_iter room iter base skip)
unfolding iterate construct_diff_segment_two_iter
segment_iter n room base skip mir target reference pre post ht hr fits word place small short gap =
    let cut = lines-Cut n target reference ht hr in
    let s =
      (scan-Scans (base / 4) skip mir post (lines n target reference) gap).0 0 (room - 8) pre
        (omega (arith, cut.count)) (omega arith) (omega (arith, cut.count)) cut.whole in
    rw
      (
        eq→== (length target) (length reference) (omega arith),
        eq→== (length target % 64) 0 (omega arith),
        quotient n (length target) ht,
        eq→== (base % 4) 0 word,
        le→leb 16 skip gap,
        le→leb 8 room (omega arith),
      )
      (returned (64 * n + 8) _ short (rw cut.news_eq at (rw cut.olds_eq at (rw cut.count at s))))
  where
    quotient : (n k : ℕ) → k ≡ 64 * n → k / 64 ≡ n
    quotient n k e = omega arith

-- A diff without trailing bytes.
pub apply_whole :
    {mir : ℕ} {d m m' : Bytes}
    → Patch mir d m m'
    → length d < 2 ^ 64
    → apply_diff_one d 0 mir m ≡ ok m'
apply_whole {mir} {d} {m} {m'} p h =
    ap (λ x. apply_diff_one x 0 mir m) (sym (append-nil d))
    ∙ apply_diff_one-Patch m' [] [] (subst (Patch mir d m) (sym (append-nil m')) p) refl
        (omega arith)
    ∙ ap ok (append-nil m')

-- For buffers `target` and `reference` of the same whole number of lines, at a base of whole
-- words such that they end below 2^34, with a gap of 16 words at least and a room of less than
-- 2^32 - 1 bytes for the target and 8 bytes more: a diff is returned, the reference becomes the
-- target, the diff is at most 8 bytes longer than the target, and `apply_diff_one` with this diff
-- turns the old reference, anywhere inside a mirror, into the target, and leaves the rest alone.
pub apply_diff_one-construct_diff_segment_two :
    (n room base skip mir : ℕ) (target reference pre post : Bytes)
    → length target ≡ 64 * n
    → length reference ≡ 64 * n
    → 64 * n + 8 ≤ room
    → base % 4 ≡ 0
    → base ≡ mir + length pre
    → base + 64 * n < 2 ^ 34
    → room < 2 ^ 32 - 1
    → 16 ≤ skip
    → (s : Scanned) × (construct_diff_segment_two room target reference base skip ≡ ok s)
      × (s.reference ≡ target)
      × (length s.diff ≤ length target + 8)
      × (apply_diff_one s.diff 0 mir (pre ++ (reference ++ post)) ≡ ok (pre ++ (target ++ post)))
unfolding construct_diff_segment_two
apply_diff_one-construct_diff_segment_two n room base skip mir target reference pre post ht hr fits
      word place small slight gap =
    let s =
      segment_iter n room base skip mir target reference pre post ht hr fits word place small
        (omega arith) gap in
    (
      s.scanned,
      rw (le→leb (length target + 8) room (omega arith)) s.runs,
      s.copied,
      omega (arith, s.short),
      apply_whole s.patch (omega (arith, s.short)),
    )
