-- ===== src/Kernel/RoundTrip.antt =====
-- Diffs of several intervals, which one side constructs and the other applies: replication of a
-- buffer.
use waypipe.Base.{
  ℕ, ◌+◌, ◌-◌, ◌*◌, ◌/◌, ◌%◌, ◌^◌, ◌≤◌, ◌<◌, ◌≡◌, refl, sym, ap, ◌∙◌, List, [], ◌∷◌, ◌++◌, arith,
  length, length-append, take, drop, length-take, length-drop, All, le→leb, lt→ltb, ok, ◌>>=◌,
  unwrap, bind_ok, slice, some, copy_at, split_three, slice_in, copy_at_mid,
}
use mathlib.Core.Path.{subst}
use waypipe.Util.{Total}
use waypipe.Kernel.Construct.{
  Bytes, Scanned, iterate, construct_diff_segment_two_iter, construct_diff, record_run,
}
use waypipe.Kernel.Apply.{apply_diff_one, apply_diff}
use waypipe.Kernel.Patch.{Patch, keep, Patch-append, length-append_three}
use waypipe.Kernel.Run.{apply_diff-Patch}
use waypipe.Kernel.Front.{Scans}
use waypipe.Kernel.Segment.{eq→==, segment_iter, apply_whole}

-- What the intervals ask of the mapping and of the reference.
abbrev pub IsInside : ℕ → ℕ → ℕ → ℕ × ℕ → Type 0
IsInside mapping_len reference_len base (a, b) =
    (a % 64 ≡ 0)
    × (b % 64 ≡ 0)
    × (base ≤ a)
    × (a < b)
    × (b ≤ mapping_len)
    × (b ≤ base + reference_len)
    × (b < 2 ^ 34)
    × (b - a + 8 < 2 ^ 32)

-- The room that the diffs of the intervals may take.
abbrev pub room_for : List (ℕ × ℕ) → ℕ
room_for [] = 0
room_for ((a, b) ∷ intervals) = (b - a + 8) + room_for intervals

-- The reference with the intervals copied over from the mapping, one after the other.
unfoldable pub refreshed : Bytes → List (ℕ × ℕ) → Bytes → ℕ → Bytes
refreshed mapping [] reference base = reference
refreshed mapping ((a, b) ∷ intervals) reference base =
    refreshed mapping intervals
      (take (a - base) reference ++ (take (b - a) (drop a mapping) ++ drop (b - base) reference))
      base

record Constructs (mapping reference : Bytes) (intervals : List (ℕ × ℕ)) (base : ℕ)
    (result : Total Scanned) : Type 0 where
  scanned : Scanned
  runs : result ≡ ok scanned
  patch : Patch base scanned.diff reference scanned.reference
  short : length scanned.diff ≤ room_for intervals
  copied : scanned.reference ≡ refreshed mapping intervals reference base

-- The parts of the reference round an interval, and the bytes that the mapping has for it.
module _ (mapping reference : Bytes) (base a b : ℕ) where
  abbrev fresh : Bytes
  fresh = take (b - a) (drop a mapping)

  abbrev front : Bytes
  front = take (a - base) reference

  abbrev stale : Bytes
  stale = take (b - base - (a - base)) (drop (a - base) reference)

  abbrev back : Bytes
  back = drop (b - base) reference

module _ (mapping reference : Bytes) (base a b : ℕ)
    (h : IsInside (length mapping) (length reference) base (a, b)) where
  length-fresh : length (fresh mapping reference base a b) ≡ 64 * ((b - a) / 64)
  length-fresh = omega (arith, length-take (b - a) (drop a mapping), length-drop a mapping)

  length-stale : length (stale mapping reference base a b) ≡ 64 * ((b - a) / 64)
  length-stale = omega (
    arith,
    length-take (b - base - (a - base)) (drop (a - base) reference),
    length-drop (a - base) reference,
  )

  length-front : length (front mapping reference base a b) ≡ a - base
  length-front = omega (arith, length-take (a - base) reference)

  split_reference :
      reference
      ≡ front mapping reference base a b
        ++ (stale mapping reference base a b ++ back mapping reference base a b)
  split_reference = split_three reference (a - base) (b - base) (omega arith)

  length-refreshed :
      length (
        front mapping reference base a b
        ++ (fresh mapping reference base a b ++ back mapping reference base a b))
      ≡ length reference
  length-refreshed = omega (
    arith,
    length-append_three (front mapping reference base a b) (fresh mapping reference base a b)
        (back mapping reference base a b),
    length-front,
    length-fresh,
    length-drop (b - base) reference,
  )

  segment_inside :
      (room : ℕ)
      → b - a + 8 ≤ room
      → Scans base
          (front mapping reference base a b
            ++ (stale mapping reference base a b ++ back mapping reference base a b))
          (front mapping reference base a b
            ++ (fresh mapping reference base a b ++ back mapping reference base a b))
          (fresh mapping reference base a b)
          (64 * ((b - a) / 64) + 8)
          (do
            iter ← iterate (fresh mapping reference base a b) (stale mapping reference base a b)
            construct_diff_segment_two_iter room iter a 16)
  segment_inside room fits =
      segment_iter ((b - a) / 64) room a 16 base (fresh mapping reference base a b)
        (stale mapping reference base a b) (front mapping reference base a b)
        (back mapping reference base a b) length-fresh length-stale (omega arith) (omega arith)
        (omega (arith, length-front)) (omega arith) (omega arith) (omega arith)

-- The first interval and then the others.
module _ (mapping reference t pre old post : Bytes) (base a b room bound : ℕ)
    (intervals : List (ℕ × ℕ)) (h : IsInside (length mapping) (length reference) base (a, b))
    (t_eq : slice mapping a b ≡ some t) (old_eq : slice reference (a - base) (b - base) ≡ some old)
    (split : reference ≡ pre ++ (old ++ post)) (place : length pre ≡ a - base)
    (same : length t ≡ length old)
    (seg : Scans base
      (pre ++ (old ++ post))
      (pre ++ (t ++ post))
      t
      bound
      (do iter ← iterate t old; construct_diff_segment_two_iter room iter a 16)) where
  copied_over : copy_at reference (a - base) seg.scanned.reference ≡ some (pre ++ (t ++ post))
  copied_over =
      ap (λ r. copy_at r (a - base) seg.scanned.reference) split
      ∙ ap (copy_at (pre ++ (old ++ post)) (a - base)) seg.copied
      ∙ copy_at_mid pre old post (a - base) t (sym place) same

  first_interval :
      {s : Scanned}
      → construct_diff (room - length seg.scanned.diff) mapping intervals (pre ++ (t ++ post)) base
        ≡ ok s
      → construct_diff room mapping ((a, b) ∷ intervals) reference base
        ≡ ok (record { diff = seg.scanned.diff ++ s.diff; reference = s.reference })
  unfolding construct_diff
  first_interval {s} more =
      rw
        (
          eq→== (a % 64) 0 h.0,
          eq→== (b % 64) 0 h.1,
          le→leb base a h.2,
          lt→ltb a b h.3,
          t_eq,
          old_eq,
        )
        (bind_ok (iterate t old) (λ iter. construct_diff_segment_two_iter room iter a 16)
            (λ s'. unwrap (copy_at reference (a - base) s'.reference) >>= λ reference'.
              record_run s'.diff
                (construct_diff (room - length s'.diff) mapping intervals reference' base))
            seg.runs
          ∙ rw (copied_over, more))

left_over :
    (a b rest room used : ℕ)
    → (b - a + 8) + rest ≤ room
    → used ≤ 64 * ((b - a) / 64) + 8
    → rest ≤ room - used
left_over a b rest room used h k = omega arith

used_up :
    (a b rest x y z : ℕ)
    → x ≤ 64 * ((b - a) / 64) + 8
    → y ≤ rest
    → z ≡ x + y
    → z ≤ (b - a + 8) + rest
used_up a b rest x y z h k e = omega arith

construct_diff-Constructs :
    (intervals : List (ℕ × ℕ)) (room base : ℕ) (mapping reference : Bytes)
    → All (IsInside (length mapping) (length reference) base) intervals
    → room_for intervals ≤ room
    → Constructs mapping reference intervals base
        (construct_diff room mapping intervals reference base)
unfolding construct_diff refreshed
construct_diff-Constructs [] room base mapping reference h fits = record {
  scanned = record { diff = []; reference = reference };
  runs = refl;
  patch = keep refl refl;
  short = omega arith;
  copied = refl;
}
construct_diff-Constructs ((a, b) ∷ intervals) room base mapping reference h fits =
    let m = mapping in
    let r = reference in
    let seg = segment_inside m r base a b h.0 room (omega arith) in
    let more =
      construct_diff-Constructs intervals (room - length seg.scanned.diff) base mapping
        (front m r base a b ++ (fresh m r base a b ++ back m r base a b))
        (rw (length-refreshed m r base a b h.0) h.1)
        (left_over a b (room_for intervals) room (length seg.scanned.diff) fits seg.short) in
    record {
      scanned = record {
        diff = seg.scanned.diff ++ more.scanned.diff;
        reference = more.scanned.reference;
      };
      runs =
          first_interval m r (fresh m r base a b) (front m r base a b) (stale m r base a b)
            (back m r base a b) base a b room (64 * ((b - a) / 64) + 8) intervals h.0
            (slice_in m a b (omega arith) (omega arith))
            (slice_in r (a - base) (b - base) (omega arith) (omega arith))
            (split_reference m r base a b h.0) (length-front m r base a b h.0)
            (length-fresh m r base a b h.0 ∙ sym (length-stale m r base a b h.0)) seg more.runs;
      patch =
          Patch-append
            (subst
              (λ x.
                Patch base seg.scanned.diff x
                  (front m r base a b ++ (fresh m r base a b ++ back m r base a b)))
              (sym (split_reference m r base a b h.0)) seg.patch)
            more.patch;
      short =
          used_up a b (room_for intervals) (length seg.scanned.diff) (length more.scanned.diff)
            (length (seg.scanned.diff ++ more.scanned.diff)) seg.short more.short
            (length-append seg.scanned.diff more.scanned.diff);
      copied = more.copied;
    }

-- For intervals of whole lines that lie in the mapping and in the reference and end below 2^34,
-- each with a length that with 8 more is a u32, with less than 2^64 bytes of room, enough for
-- each of them and 8 bytes more, `construct_diff` returns; its reference is the old one with the
-- intervals copied over from the mapping, and its diff fits the room of the intervals. A receiver
-- that holds a mirror equal to the old reference then holds the new one: `apply_diff_one` takes
-- the mirror there, and `apply_diff` takes both the mirror and its place in the receiver's
-- mapping there and leaves the rest of the mapping alone.
pub apply_diff-construct_diff :
    (intervals : List (ℕ × ℕ)) (room base : ℕ) (mapping reference lead rest : Bytes)
    → All (IsInside (length mapping) (length reference) base) intervals
    → room_for intervals ≤ room
    → room < 2 ^ 64
    → length lead ≡ base
    → (s : Scanned) × (construct_diff room mapping intervals reference base ≡ ok s)
      × (s.reference ≡ refreshed mapping intervals reference base)
      × (length s.diff ≤ room_for intervals)
      × (apply_diff_one s.diff 0 base reference ≡ ok s.reference)
      × (apply_diff s.diff 0 (lead ++ (reference ++ rest)) base reference
          ≡ ok (lead ++ (s.reference ++ rest), s.reference))
apply_diff-construct_diff intervals room base mapping reference lead rest h fits small led =
    let c = construct_diff-Constructs intervals room base mapping reference h fits in
    (
      c.scanned,
      c.runs,
      c.copied,
      c.short,
      apply_whole c.patch (omega (arith, c.short)),
      apply_diff-Patch lead rest c.patch led (omega (arith, c.short)),
    )
