-- ===== src/Damage/Groups.antt =====
-- `compute_damaged_segments` of src/damage.rs: sorting and grouping lose no rectangle.
use waypipe.Base.{
  ℕ, suc, ◌+◌, ◌-◌, ◌*◌, ◌^◌, ◌≤◌, ◌<◌, ◌≡◌, refl, ap, sym, ◌∙◌, arith, Bool, true, false, ltb, leb,
  if◌then◌else◌, ok, Outcome, usize_max, List, [], ◌∷◌, ◌++◌, none, All, ◌⊎◌, inl, inr, Bool-cases,
  ◌==◌, max, ◌||◌,
}
use waypipe.Damage.{Interval}
use waypipe.Damage.Cover.{Covers}
use waypipe.Damage.Rects.{
  Rect, SegmentError, align_down, merges, entry, first_heap, rows, process_group, process_spans,
  group_rects, bounding_interval, aligned_bounding_interval, saturate,
}
use waypipe.Damage.Heap.{Any, sum_of}
use waypipe.Damage.Rows.{byte_at, byte_at_mono, place_lem, rounded, align_up_lem}
use waypipe.Damage.Entries.{IsInside, InRow, IsEntry, Wants, weight}
use waypipe.Damage.Process.{CoversAll, group_loop-CoversAll, append_front, append_back}

abbrev pub AnyOf {ℓ} : {A : Type ℓ} → (A → Type 0) → List A → Type 0
AnyOf R [] = ⊥
AnyOf R (x ∷ xs) = R x ⊎ AnyOf R xs

first_row :
    (b : Bool) (y1 : ℕ)
    → y1 + (if (if b then usize_max else 0) == usize_max then 0 else (if b then usize_max else 0))
      ≡ y1
first_row true y1 = omega arith
first_row false y1 = omega arith

first_count :
    (b : Bool) (n : ℕ)
    → 0 < n
    → ((if b then usize_max else 0) ≡ usize_max) ⊎ ((if b then usize_max else 0) < n)
first_count true n h = inl refl
first_count false n h = inr h

first_weight :
    (b : Bool) (y1 y2 : ℕ)
    → y1 < y2
    → (if (if b then usize_max else 0) == usize_max
        then 1
        else y2 - y1 - (if b then usize_max else 0))
      ≤ y2 - y1
first_weight true y1 y2 h = omega arith
first_weight false y1 y2 h = omega arith

module _ (k g offset stride bpp : ℕ) (pos : 0 < 2 ^ k) where
  -- A byte of a rectangle
  abbrev pub InRect : ℕ → Rect → Type 0
  InRect p r = (y : ℕ) × (r.y1 ≤ y) × (y < r.y2) × InRow k g offset stride bpp r y p

  -- A rectangle within a region
  abbrev pub IsBelow : ℕ → Rect → Type 0
  IsBelow last r =
      IsInside k g offset stride bpp r
      × (rounded (byte_at offset stride bpp (r.y2) (r.x2)) k ≤ last)

  entry-IsEntry :
      (i last : ℕ) (r : Rect)
      → IsBelow last r
      → IsEntry k g offset stride bpp last (entry k g offset stride bpp i r)
        × (weight k g offset stride bpp (entry k g offset stride bpp i r) ≤ r.y2 - r.y1)
        × ((p : ℕ) → InRect p r → Wants k g offset stride bpp p (entry k g offset stride bpp i r))
  unfolding entry
  entry-IsEntry i last r ((x, y, u, fits), l) =
      let m = merges k g offset stride bpp r in
      let up =
        byte_at_mono offset stride bpp (r.y1) (r.y2) (r.x1) (r.x2) (omega arith) (omega arith) in
      (
        (
          (x, y, u, fits),
          ap (λ b. align_down b k) (place_lem offset stride bpp (r.y1) (r.x1) (omega (arith, up)))
              ∙ ap (λ n. align_down (byte_at offset stride bpp n (r.x1)) k)
                  (sym (first_row m (r.y1))),
          first_count m (r.y2 - r.y1) (omega arith),
          l,
        ),
        first_weight m (r.y1) (r.y2) y,
        λ p h.
            let (row, from, to, in_row) = h in (row, omega (arith, first_row m (r.y1)), to, in_row),
      )

  first_heap-IsEntry :
      (i last : ℕ) (rects : List Rect)
      → All (IsBelow last) rects
      → All (IsEntry k g offset stride bpp last) (first_heap k g offset stride bpp i rects)
        × (sum_of (weight k g offset stride bpp) (first_heap k g offset stride bpp i rects)
            ≤ rows k g offset stride bpp rects)
        × ((p : ℕ)
            → AnyOf (InRect p) rects
            → Any (Wants k g offset stride bpp p) (first_heap k g offset stride bpp i rects))
  unfolding first_heap rows
  first_heap-IsEntry i last [] w = (tt, omega arith, λ p h. h)
  first_heap-IsEntry i last (r ∷ rects) (w, ws) =
      let (a, b, c) = entry-IsEntry i last r w in
      let (more, bs, cs) = first_heap-IsEntry (suc i) last rects ws in
      ((a, more), omega arith, λ p h. elim h [ inl x ↦ inl (c p x) | inr x ↦ inr (cs p x) ])

  -- The output of a group covers its rectangles.
  process_group-Covers :
      (rects : List Rect) (region : Interval)
      → All (IsBelow (region.1)) rects
      → (out : List Interval) × (process_group k g offset stride bpp rects region ≡ ok out)
        × ((p : ℕ) → AnyOf (InRect p) rects → Covers p out)
  unfolding process_group CoversAll
  process_group-Covers rects region w =
      let (ws, sum, wants) = first_heap-IsEntry 0 (region.1) rects w in
      let (out, run, covers) =
        group_loop-CoversAll k g offset stride bpp pos region (rows k g offset stride bpp rects)
          (first_heap k g offset stride bpp 0 rects) none 0 ws sum tt in
      (out, run, λ p h. covers p (inr (wants p h)))

  abbrev pub IsSpan : List Rect × Interval → Type 0
  IsSpan (rects, region) = All (IsBelow (region.1)) rects

  abbrev pub InSpan : ℕ → List Rect × Interval → Type 0
  InSpan p (rects, region) = AnyOf (InRect p) rects

  pub process_spans-Covers :
      (spans : List (List Rect × Interval))
      → All IsSpan spans
      → (out : List Interval) × (process_spans k g offset stride bpp spans ≡ ok out)
        × ((p : ℕ) → AnyOf (InSpan p) spans → Covers p out)
  unfolding process_spans
  process_spans-Covers [] w = ([], refl, λ p h. h)
  process_spans-Covers ((rects, region) ∷ spans) (w, ws) =
      let (out, run, covers) = process_group-Covers rects region w in
      let (more, runs, covered) = process_spans-Covers spans ws in
      (
        out ++ more,
        rw (run, runs) refl,
        λ p h. elim h [
          | inl x ↦ append_front p out more (covers p x)
          | inr x ↦ append_back p out more (covered p x)
        ],
      )

  pub bounding_lem :
      (r : Rect)
      → IsInside k g offset stride bpp r
      → (start : ℕ) × (aligned_bounding_interval k g offset stride bpp r
          ≡ ok (start, rounded (byte_at offset stride bpp (r.y2) (r.x2)) k))
  unfolding aligned_bounding_interval bounding_interval
  bounding_lem r (x, y, u, fits) = (
    align_down ((bounding_interval k g offset stride bpp r).0) k,
    rw
        (
          saturated (r.y2 * stride) (r.x2 * bpp) fits,
          (align_up_lem (byte_at offset stride bpp (r.y2) (r.x2)) k pos fits).0,
        )
        refl,
  )
    where
      saturated :
          (a b : ℕ)
          → offset + a + b + 2 ^ k ≤ 2 ^ 64
          → saturate (saturate (offset + saturate a) + saturate b) ≡ offset + a + b
      saturated a b h = omega arith

  AnyOf-append :
      {A : Type 0} (R : A → Type 0) (xs ys : List A) → AnyOf R xs ⊎ AnyOf R ys → AnyOf R (xs ++ ys)
  AnyOf-append R [] ys (inl h) = absurd h
  AnyOf-append R [] ys (inr h) = h
  AnyOf-append R (x ∷ xs) ys (inl (inl h)) = inl h
  AnyOf-append R (x ∷ xs) ys (inl (inr h)) = inr (AnyOf-append R xs ys (inl h))
  AnyOf-append R (x ∷ xs) ys (inr h) = inr (AnyOf-append R xs ys (inr h))

  -- The current group with a rectangle more
  grown :
      (last last' : ℕ) (rects : List Rect) (r : Rect)
      → last ≤ last'
      → All (IsBelow last) rects
      → IsBelow last' r
      → All (IsBelow last') (rects ++ (r ∷ []))
  grown last last' [] r h a b = (b, tt)
  grown last last' (s ∷ rects) r h ((i, l), a) b =
      ((i, omega arith), grown last last' rects r h a b)

  unfoldable pub Grouped :
      List Rect → List Rect → Outcome SegmentError (List (List Rect × Interval)) → Type 0
  Grouped rects current result =
      (spans : List (List Rect × Interval)) × (result ≡ ok spans)
      × All IsSpan spans
      × ((p : ℕ) → AnyOf (InRect p) current ⊎ AnyOf (InRect p) rects → AnyOf (InSpan p) spans)

  pub group_rects-Grouped :
      (rects current : List Rect) (region : Interval)
      → All (IsInside k g offset stride bpp) rects
      → All (IsBelow (region.1)) current
      → Grouped rects current (group_rects k g offset stride bpp rects current region)
  unfolding Grouped group_rects
  group_rects-Grouped [] current region a w = ((current, region) ∷ [], refl, (w, tt), λ p h. h)
  group_rects-Grouped (r ∷ rects) current region (i, a) w =
      let (start, run) = bounding_lem r i in
      let end = rounded (byte_at offset stride bpp (r.y2) (r.x2)) k in
      let (joined, run', ok', covers) =
        group_rects-Grouped rects (current ++ (r ∷ [])) (region.0, max (region.1) end) a
          (grown (region.1) (max (region.1) end) current r (omega arith) w (i, omega arith)) in
      let (apart, run'', ok'', covers') =
        group_rects-Grouped rects (r ∷ []) (start, end) a ((i, omega arith), tt) in
      elim (Bool-cases (leb start (region.1) || ltb (start - region.1) g)) [
        | inl t ↦ (joined, rw (run, t, run') refl, ok', λ p h. covers p (join p current h))
        | inr t ↦ (
          (current, region) ∷ apart,
          rw (run, t, run'') refl,
          (w, ok''),
          λ p h. elim h [
            | inl x ↦ inl x
            | inr (inl x) ↦ inr (covers' p (inl (inl x)))
            | inr (inr x) ↦ inr (covers' p (inr x))
          ],
        )
      ]
    where
      join :
          (p : ℕ) (current : List Rect)
          → AnyOf (InRect p) current ⊎ (InRect p r ⊎ AnyOf (InRect p) rects)
          → AnyOf (InRect p) (current ++ (r ∷ [])) ⊎ AnyOf (InRect p) rects
      join p current (inl x) = inl (AnyOf-append (InRect p) current (r ∷ []) (inl x))
      join p current (inr (inl x)) = inl (AnyOf-append (InRect p) current (r ∷ []) (inr (inl x)))
      join p current (inr (inr x)) = inr x
