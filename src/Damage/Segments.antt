-- ===== src/Damage/Segments.antt =====
-- `compute_damaged_segments` of src/damage.rs: every byte of the rectangles is covered.
use waypipe.Base.{
  ℕ, ◌^◌, ◌<◌, ◌≡◌, refl, arith, true, leb, ok, List, [], ◌∷◌, All, ◌⊎◌, inl, inr, if_cases, lt→ltb,
}
use waypipe.Damage.{Interval}
use waypipe.Damage.Cover.{Covers}
use waypipe.Damage.Rects.{
  Rect, sort, insert, first_span, all_proper, compute_damaged_segments, bounding_interval,
}
use waypipe.Damage.Rows.{byte_at, rounded}
use waypipe.Damage.Entries.{IsInside}
use waypipe.Damage.Groups.{
  AnyOf, InRect, IsSpan, InSpan, Grouped, group_rects-Grouped, process_spans-Covers, bounding_lem,
}

module _ (k g offset stride bpp : ℕ) where
  insert-All :
      (Q : Rect → Type 0) (r : Rect) (rects : List Rect)
      → Q r
      → All Q rects
      → All Q (insert k g offset stride bpp r rects)
  unfolding insert
  insert-All Q r [] q a = (q, tt)
  insert-All Q r (s ∷ rects) q (b, a) =
      if_cases (All Q)
        (leb ((bounding_interval k g offset stride bpp r).0)
          ((bounding_interval k g offset stride bpp s).0))
        (λ _. (q, (b, a))) (λ _. (b, insert-All Q r rects q a))

  insert-AnyOf :
      (R : Rect → Type 0) (r : Rect) (rects : List Rect)
      → R r ⊎ AnyOf R rects
      → AnyOf R (insert k g offset stride bpp r rects)
  unfolding insert
  insert-AnyOf R r [] h = h
  insert-AnyOf R r (s ∷ rects) h =
      if_cases (AnyOf R)
        (leb ((bounding_interval k g offset stride bpp r).0)
          ((bounding_interval k g offset stride bpp s).0))
        (λ _. h)
        (λ _. elim h [
          | inl x ↦ inr (insert-AnyOf R r rects (inl x))
          | inr (inl x) ↦ inl x
          | inr (inr x) ↦ inr (insert-AnyOf R r rects (inr x))
        ])

  sort-All :
      (Q : Rect → Type 0) (rects : List Rect)
      → All Q rects
      → All Q (sort k g offset stride bpp rects)
  unfolding sort
  sort-All Q [] a = tt
  sort-All Q (r ∷ rects) (q, a) =
      insert-All Q r (sort k g offset stride bpp rects) q (sort-All Q rects a)

  sort-AnyOf :
      (R : Rect → Type 0) (rects : List Rect)
      → AnyOf R rects
      → AnyOf R (sort k g offset stride bpp rects)
  unfolding sort
  sort-AnyOf R (r ∷ rects) (inl x) = insert-AnyOf R r (sort k g offset stride bpp rects) (inl x)
  sort-AnyOf R (r ∷ rects) (inr x) =
      insert-AnyOf R r (sort k g offset stride bpp rects) (inr (sort-AnyOf R rects x))
  sort-AnyOf R [] h = absurd h

  proper :
      (rects : List Rect)
      → All (IsInside k g offset stride bpp) rects
      → all_proper k g offset stride bpp rects ≡ true
  unfolding all_proper
  proper [] a = refl
  proper (r ∷ rects) ((x, y, _, _), a) =
      rw (lt→ltb (r.x1) (r.x2) x, lt→ltb (r.y1) (r.y2) y, proper rects a) refl

module _ (k g offset stride bpp : ℕ) (pos : 0 < 2 ^ k) where
  -- The groups that are found hold every byte.
  first_span-IsSpan :
      (rects : List Rect) (p : ℕ)
      → All (IsInside k g offset stride bpp) rects
      → AnyOf (InRect k g offset stride bpp pos p) rects
      → (spans : List (List Rect × Interval)) × (first_span k g offset stride bpp rects ≡ ok spans)
        × All (IsSpan k g offset stride bpp pos) spans
        × AnyOf (InSpan k g offset stride bpp pos p) spans
  unfolding first_span Grouped
  first_span-IsSpan [] p a h = absurd h
  first_span-IsSpan (r ∷ rects) p (i, a) h =
      let (start, run) = bounding_lem k g offset stride bpp pos r i in
      let end = rounded (byte_at offset stride bpp (r.y2) (r.x2)) k in
      let (spans, run', w, covers) =
        group_rects-Grouped k g offset stride bpp pos rects (r ∷ []) (start, end) a
          ((i, omega arith), tt) in
      (spans, rw (run, run') refl, w, covers p (front h))
    where
      front : {A B : Type 0} → A ⊎ B → (A ⊎ ⊥) ⊎ B
      front (inl x) = inl (inl x)
      front (inr x) = inr x

  -- For rectangles that are not empty, with coordinates and byte positions in range and room for
  -- the alignment, and a pixel of at least one byte: `compute_damaged_segments` returns a list,
  -- and every byte of every row of every rectangle is in one of its intervals.
  pub compute_damaged_segments-Covers :
      (rects : List Rect) (p : ℕ)
      → 0 < bpp
      → All (IsInside k g offset stride bpp) rects
      → AnyOf (InRect k g offset stride bpp pos p) rects
      → (out : List Interval) × (compute_damaged_segments k g offset stride bpp rects ≡ ok out)
        × Covers p out
  unfolding compute_damaged_segments
  compute_damaged_segments-Covers [] p b a h = absurd h
  compute_damaged_segments-Covers (r ∷ rects) p b a h =
      let sorted = sort k g offset stride bpp (r ∷ rects) in
      let (spans, run, w, i) =
        first_span-IsSpan sorted p
          (sort-All k g offset stride bpp (IsInside k g offset stride bpp) (r ∷ rects) a)
          (sort-AnyOf k g offset stride bpp (InRect k g offset stride bpp pos p) (r ∷ rects) h) in
      let (out, run', covers) = process_spans-Covers k g offset stride bpp pos spans w in
      (
        out,
        rw (lt→ltb 0 bpp b, proper k g offset stride bpp (r ∷ rects) a, run, run') refl,
        covers p i,
      )
