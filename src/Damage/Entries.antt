-- ===== src/Damage/Entries.antt =====
-- `process_group` of src/damage.rs: an entry of the heap, and the rows that it has left.
use waypipe.Base.{
  ℕ, suc, ◌+◌, ◌-◌, ◌^◌, ◌≤◌, ◌<◌, ◌≡◌, ap, ◌∙◌, arith, true, false, ltb, if◌then◌else◌, ok,
  usize_max, List, ◌∷◌, All, ◌⊎◌, inl, inr, le_or_lt, if_cases, ◌==◌, IsU32,
}
use waypipe.Damage.Cover.{Within}
use waypipe.Damage.Rects.{Rect, Entry, align_down, align_up, segment_end, put_back, wrap64}
use waypipe.Damage.Heap.{Any, sum_of, IsFirst}
use waypipe.Damage.Rows.{
  align_down_le, align_up_lem, align_down_mono, rounded, rounded_mono, byte_at, byte_at_mono,
  place_lem,
}

rows_between :
    (row y1 y2 : ℕ)
    → y1 < y2
    → IsU32 y2
    → (row ≡ usize_max) ⊎ (row < y2 - y1)
    → (y1 + (if row == usize_max then 0 else row) ≤ (if row == usize_max then y2 - 1 else y1 + row))
      × ((if row == usize_max then y2 - 1 else y1 + row) < y2)
rows_between row y1 y2 h u r = ground arith

no_more :
    (row y1 y2 y : ℕ)
    → y < y2
    → (row == usize_max) ≡ true
    → (if row == usize_max then y2 - 1 else y1 + row) < y
    → ⊥
no_more row y1 y2 y h m l = ground arith

no_less :
    (row y1 y2 y : ℕ)
    → y < y2
    → (row == usize_max) ≡ false
    → y2 - y1 ≤ suc row
    → (if row == usize_max then y2 - 1 else y1 + row) < y
    → ⊥
no_less row y1 y2 y h m k l = ground arith

more :
    (row y1 y2 y : ℕ)
    → IsU32 y2
    → (row == usize_max) ≡ false
    → suc row < y2 - y1
    → (if row == usize_max then y2 - 1 else y1 + row) < y
    → y1 + (if suc row == usize_max then 0 else suc row) ≤ y
more row y1 y2 y u m k l = ground arith

next_count :
    (row y1 y2 : ℕ)
    → IsU32 y2
    → (row == usize_max) ≡ false
    → suc row < y2 - y1
    → suc row ≡ (if suc row == usize_max then 0 else suc row)
next_count row y1 y2 u m l = ground arith

up_to : (row y1 : ℕ) → y1 + (if row == usize_max then 0 else row) ≤ y1 + suc row
up_to row y1 = ground arith

next_weight :
    (row y1 y2 : ℕ)
    → IsU32 y2
    → (row == usize_max) ≡ false
    → suc row < y2 - y1
    → (if suc row == usize_max then 1 else y2 - y1 - suc row)
      < (if row == usize_max then 1 else y2 - y1 - row)
next_weight row y1 y2 u m l = ground arith

pos_weight :
    (row y1 y2 : ℕ)
    → (row ≡ usize_max) ⊎ (row < y2 - y1)
    → 0 < (if row == usize_max then 1 else y2 - y1 - row)
pos_weight row y1 y2 r = ground arith

module _ (k g offset stride bpp : ℕ) where
  -- The rectangle is not empty, and no sum overflows.
  abbrev pub IsInside : Rect → Type 0
  IsInside r =
      (r.x1 < r.x2)
      × (r.y1 < r.y2)
      × IsU32 (r.y2)
      × (byte_at offset stride bpp (r.y2) (r.x2) + 2 ^ k ≤ 2 ^ 64)

  -- A byte of the row `y` of a rectangle
  abbrev pub InRow : Rect → ℕ → ℕ → Type 0
  InRow r y p = (byte_at offset stride bpp y (r.x1) ≤ p) × (p < byte_at offset stride bpp y (r.x2))

  abbrev pub next_row : Entry → ℕ
  next_row e = e.rect.y1 + (if e.row == usize_max then 0 else e.row)

  -- A byte of the rows that an entry has left
  abbrev pub Wants : ℕ → Entry → Type 0
  Wants p e = (y : ℕ) × (next_row e ≤ y) × (y < e.rect.y2) × InRow (e.rect) y p

  abbrev pub weight : Entry → ℕ
  weight e = if e.row == usize_max then 1 else e.rect.y2 - e.rect.y1 - e.row

  abbrev pub last_row : Entry → ℕ
  last_row e = if e.row == usize_max then e.rect.y2 - 1 else e.rect.y1 + e.row

  -- The entry is in step with its row, and all its bytes are before `last`.
  abbrev pub IsEntry : ℕ → Entry → Type 0
  IsEntry last e =
      IsInside (e.rect)
      × (e.start ≡ align_down (byte_at offset stride bpp (next_row e) (e.rect.x1)) k)
      × ((e.row ≡ usize_max) ⊎ (e.row < e.rect.y2 - e.rect.y1))
      × (rounded (byte_at offset stride bpp (e.rect.y2) (e.rect.x2)) k ≤ last)

  abbrev pub next : Entry → Entry
  next e = record e {
    start = align_down (wrap64 (byte_at offset stride bpp (e.rect.y1 + suc (e.row)) (e.rect.x1))) k;
    row = suc (e.row);
  }

  pub put_back_cases :
      (e : Entry) (heap : List Entry) (P : List Entry → Type 0)
      → ((e.row == usize_max) ≡ true → P heap)
      → ((e.row == usize_max) ≡ false → suc (e.row) < e.rect.y2 - e.rect.y1 → P (next e ∷ heap))
      → ((e.row == usize_max) ≡ false → e.rect.y2 - e.rect.y1 ≤ suc (e.row) → P heap)
      → P (put_back k g offset stride bpp e heap)
  unfolding put_back
  put_back_cases e heap P a b c = if_cases P (e.row == usize_max) a (λ m.
      if_cases P (ltb (suc (e.row)) (e.rect.y2 - e.rect.y1)) (λ l. b m (ground arith))
        (λ l. c m (ground arith)))

  module _ (pos : 0 < 2 ^ k) (last : ℕ) (e : Entry) (w : IsEntry last e) where
    rows_in : (next_row e ≤ last_row e) × (last_row e < e.rect.y2)
    rows_in =
        let ((x, y, u, fits), _, r, _) = w in rows_between (e.row) (e.rect.y1) (e.rect.y2) y u r

    pub segment_end_lem :
        (segment_end k g offset stride bpp e
          ≡ ok (rounded (byte_at offset stride bpp (last_row e) (e.rect.x2)) k))
        × (byte_at offset stride bpp (last_row e) (e.rect.x2)
            ≤ rounded (byte_at offset stride bpp (last_row e) (e.rect.x2)) k)
        × (rounded (byte_at offset stride bpp (last_row e) (e.rect.x2)) k ≤ last)
    segment_end_lem =
        let ((x, y, u, fits), _, _, l) = w in
        let mono =
          byte_at_mono offset stride bpp (last_row e) (e.rect.y2) (e.rect.x2) (e.rect.x2)
            (omega (arith, rows_in)) (omega arith) in
        let (u, v) =
          align_up_lem (byte_at offset stride bpp (last_row e) (e.rect.x2)) k pos
            (omega (arith, mono)) in
        (
          ap (λ x. align_up x k)
                (place_lem offset stride bpp (last_row e) (e.rect.x2) (omega (arith, mono)))
              ∙ u,
          v,
          omega (
            arith,
            rounded_mono (byte_at offset stride bpp (last_row e) (e.rect.x2))
                (byte_at offset stride bpp (e.rect.y2) (e.rect.x2)) k pos mono,
          ),
        )

    -- The rows up to the last one of the segment are in it.
    pub in_segment :
        (p y : ℕ)
        → next_row e ≤ y
        → y ≤ last_row e
        → InRow (e.rect) y p
        → Within p (e.start, rounded (byte_at offset stride bpp (last_row e) (e.rect.x2)) k)
    in_segment p y from to (a, b) =
        let (_, st, _, _) = w in
        let (_, v, _) = segment_end_lem in
        (
          omega (
            arith,
            st,
            align_down_le (byte_at offset stride bpp (next_row e) (e.rect.x1)) k pos,
            byte_at_mono offset stride bpp (next_row e) y (e.rect.x1) (e.rect.x1) from
                (omega arith),
          ),
          omega (
            arith,
            v,
            byte_at_mono offset stride bpp y (last_row e) (e.rect.x2) (e.rect.x2) to (omega arith),
          ),
        )

    pub Wants-cases :
        (p : ℕ) (heap : List Entry)
        → Wants p e
        → Within p (e.start, rounded (byte_at offset stride bpp (last_row e) (e.rect.x2)) k)
          ⊎ Any (Wants p) (put_back k g offset stride bpp e heap)
    Wants-cases p heap (y, from, to, row) = elim (le_or_lt y (last_row e)) [
      | inl h ↦ inl (in_segment p y from h row)
      | inr h ↦ inr (
          put_back_cases e heap (Any (Wants p))
            (λ m. absurd (no_more (e.row) (e.rect.y1) (e.rect.y2) y to m h))
            (λ m l. inl (y, more (e.row) (e.rect.y1) (e.rect.y2) y w.0.2 m l h, to, row))
            (λ m l. absurd (no_less (e.row) (e.rect.y1) (e.rect.y2) y to m l h)))
    ]

    next-IsEntry :
        suc (e.row) < e.rect.y2 - e.rect.y1
        → (e.row == usize_max) ≡ false
        → IsEntry last (next e) × (e.start ≤ (next e).start) × (weight (next e) < weight e)
    next-IsEntry l m =
        let ((x, y, u, fits), st, r, z) = w in
        let c = next_count (e.row) (e.rect.y1) (e.rect.y2) u m l in
        let up =
          byte_at_mono offset stride bpp (e.rect.y1 + suc (e.row)) (e.rect.y2) (e.rect.x1)
            (e.rect.x2) (omega arith) (omega arith) in
        let same =
          ap (λ b. align_down b k)
            (place_lem offset stride bpp (e.rect.y1 + suc (e.row)) (e.rect.x1)
              (omega (arith, up))) in
        (
          (
            (x, y, u, fits),
            same ∙ ap (λ n. align_down (byte_at offset stride bpp (e.rect.y1 + n) (e.rect.x1)) k) c,
            inr l,
            z,
          ),
          omega (
            arith,
            st,
            same,
            align_down_mono (byte_at offset stride bpp (next_row e) (e.rect.x1))
                (byte_at offset stride bpp (e.rect.y1 + suc (e.row)) (e.rect.x1)) k pos
                (byte_at_mono offset stride bpp (next_row e) (e.rect.y1 + suc (e.row)) (e.rect.x1)
                  (e.rect.x1) (up_to (e.row) (e.rect.y1)) (omega arith)),
          ),
          next_weight (e.row) (e.rect.y1) (e.rect.y2) u m l,
        )

    pub weight_pos : 0 < weight e
    weight_pos = let (_, _, r, _) = w in pos_weight (e.row) (e.rect.y1) (e.rect.y2) r

    pub put_back-IsEntry :
        (heap : List Entry)
        → All (IsEntry last) heap
        → IsFirst e heap
        → All (IsEntry last) (put_back k g offset stride bpp e heap)
          × IsFirst e (put_back k g offset stride bpp e heap)
          × (sum_of weight (put_back k g offset stride bpp e heap) < weight e + sum_of weight heap)
    put_back-IsEntry heap a f =
        put_back_cases e heap
          (λ l.
            All (IsEntry last) l × IsFirst e l × (sum_of weight l < weight e + sum_of weight heap))
          (λ m. (a, f, omega (arith, weight_pos)))
          (λ m l. let (n, s, lt) = next-IsEntry l m in ((n, a), (s, f), omega (arith, lt)))
          (λ m l. (a, f, omega (arith, weight_pos)))

    -- The bytes of the rows lie between the start of the entry and `last`.
    pub Wants-bound : (p : ℕ) → Wants p e → Within p (e.start, last)
    Wants-bound p (y, from, to, (a, b)) =
        let ((x, _, _, fits), st, _, z) = w in
        let up =
          byte_at_mono offset stride bpp y (e.rect.y2) (e.rect.x2) (e.rect.x2) (omega arith)
            (omega arith) in
        (
          omega (
            arith,
            st,
            align_down_le (byte_at offset stride bpp (next_row e) (e.rect.x1)) k pos,
            byte_at_mono offset stride bpp (next_row e) y (e.rect.x1) (e.rect.x1) from
                (omega arith),
          ),
          omega (
            arith,
            up,
            (align_up_lem (byte_at offset stride bpp (e.rect.y2) (e.rect.x2)) k pos fits).1,
          ),
        )
