-- ===== src/Damage/Process.antt =====
-- `process_group` of src/damage.rs: every row of its rectangles is covered.
use waypipe.Base.{
  ℕ, zero, suc, ◌+◌, ◌-◌, ◌/◌, ◌^◌, ◌≤◌, ◌<◌, ◌≡◌, refl, ◌∙◌, arith, ltb, if◌then◌else◌, ok, ◌>>=◌,
  List, [], ◌∷◌, ◌++◌, Option, none, some, All, ◌⊎◌, inl, inr, Bool-cases, subst, max, length,
}
use waypipe.Damage.{Interval, absorb, flush}
use waypipe.Damage.Cover.{Within, Covers}
use waypipe.Damage.Union.{absorb_cases}
use waypipe.Damage.Rects.{Entry, extract, ilog2, segment_end, put_back, group_loop}
use waypipe.Damage.Heap.{
  Any, sum_of, extract-All, extract-Any, extract-sum_of, IsFirst, extract-IsFirst,
}
use waypipe.Damage.Rows.{byte_at, rounded}
use waypipe.Damage.Entries.{
  IsEntry, Wants, weight, last_row, segment_end_lem, Wants-cases, put_back-IsEntry, weight_pos,
  put_back_cases, Wants-bound,
}

abbrev pub InCurrent : ℕ → Option Interval → Type 0
InCurrent p none = ⊥
InCurrent p (some c) = Within p c

-- The current segment ends up to `last`, and the entries of the heap start from its start on.
abbrev pub IsCurrent : ℕ → List Entry → Option Interval → Type 0
IsCurrent last heap none = Unit
IsCurrent last heap (some c) = (c.1 ≤ last) × All (λ e. c.0 ≤ e.start) heap

-- The current segment after a round
abbrev IsAbsorbed : ℕ → Option Interval → Interval → List Interval × Option Interval → Type 0
IsAbsorbed last cur nxt (out, cur') =
    (c : Interval) × (cur' ≡ some c)
    × (c.0 ≤ nxt.0)
    × (c.1 ≤ last)
    × ((p : ℕ) → Within p nxt → Within p c)
    × ((p : ℕ) → InCurrent p cur → Within p c ⊎ Covers p out)

absorb-IsAbsorbed :
    (g last : ℕ) (cur : Option Interval) (nxt : Interval)
    → ((c : Interval) → cur ≡ some c → (c.0 ≤ nxt.0) × (c.1 ≤ last))
    → nxt.1 ≤ last
    → IsAbsorbed last cur nxt (absorb g cur nxt)
unfolding absorb
absorb-IsAbsorbed g last none nxt w l = (nxt, refl, omega arith, l, λ p h. h, λ p h. absurd h)
absorb-IsAbsorbed g last (some c) nxt w l =
    let (s, t) = w c refl in
    absorb_cases g c nxt (IsAbsorbed last (some c) nxt)
      (λ _. (
        (c.0, max (c.1) (nxt.1)),
        refl,
        s,
        omega arith,
        λ p h. ground arith,
        λ p h. inl (ground arith),
      ))
      (λ _ _. (nxt, refl, omega arith, l, λ p h. h, λ p h. inr (inl h)))

pub append_front : (p : ℕ) (xs ys : List Interval) → Covers p xs → Covers p (xs ++ ys)
append_front p [] ys h = absurd h
append_front p (x ∷ xs) ys (inl h) = inl h
append_front p (x ∷ xs) ys (inr h) = inr (append_front p xs ys h)

pub append_back : (p : ℕ) (xs ys : List Interval) → Covers p ys → Covers p (xs ++ ys)
append_back p [] ys h = h
append_back p (x ∷ xs) ys h = inr (append_back p xs ys h)

module _ (k g offset stride bpp : ℕ) (pos : 0 < 2 ^ k) where
  unfoldable pub CoversAll : Interval → ℕ → List Entry → Option Interval → ℕ → Type 0
  CoversAll bound fuel heap cur work =
      (out : List Interval) × (group_loop k g offset stride bpp bound fuel heap cur work ≡ ok out)
      × ((p : ℕ) → InCurrent p cur ⊎ Any (Wants k g offset stride bpp p) heap → Covers p out)

  round :
      (bound : Interval) (fuel : ℕ) (e : Entry) (heap : List Entry) (cur : Option Interval)
      (work z : ℕ) (c : Interval)
      → let (top, rest) = extract e heap in
        let (out, cur') = absorb g cur (top.start, z) in
        let heap' = put_back k g offset stride bpp top rest in
        let work' = work + ilog2 64 (max 16 (length heap')) in
        (segment_end k g offset stride bpp top ≡ ok z
          → cur' ≡ some c
          → group_loop k g offset stride bpp bound (suc fuel) (e ∷ heap) cur work ≡ (
              if ltb ((bound.1 - bound.0) / 8) work'
              then ok (out ++ ((c.0, bound.1) ∷ []))
              else (group_loop k g offset stride bpp bound fuel heap' (some c) work' >>= λ more.
                  ok (out ++ more))))
  unfolding group_loop
  round bound fuel e heap cur work z c s a = rw (s, a)

  from_start :
      (a : ℕ) (top : Entry) (h : List Entry)
      → a ≤ top.start
      → IsFirst top h
      → All (λ e. a ≤ e.start) h
  from_start a top [] l f = tt
  from_start a top (e ∷ h) l (f, fs) = (omega arith, from_start a top h l fs)

  put_back-Any :
      (R : Entry → Type 0) (e : Entry) (heap : List Entry)
      → Any R heap
      → Any R (put_back k g offset stride bpp e heap)
  put_back-Any R e heap a =
      put_back_cases k g offset stride bpp e heap (Any R) (λ _. a) (λ _ _. inr a) (λ _ _. a)

  -- What is left in the heap lies between the start of the current segment and the bound.
  heap_bound :
      (c bound p : ℕ) (heap : List Entry)
      → All (λ e. c ≤ e.start) heap
      → All (IsEntry k g offset stride bpp bound) heap
      → Any (Wants k g offset stride bpp p) heap
      → Within p (c, bound)
  heap_bound c bound p (e ∷ heap) (s, ss) (w, ws) (inl h) =
      let (a, b) = Wants-bound k g offset stride bpp pos bound e w p h in (omega arith, b)
  heap_bound c bound p (e ∷ heap) (s, ss) (w, ws) (inr h) = heap_bound c bound p heap ss ws h
  heap_bound c bound p [] s w h = absurd h

  -- The bytes that were to be covered before a round are covered by what it pushes or by the current
  -- segment, or are still in the heap.
  round_cases :
      (bound : Interval) (e : Entry) (heap : List Entry) (cur : Option Interval) (c : Interval)
      (out : List Interval) (p : ℕ)
      → let (top, rest) = extract e heap in
        let z =
          rounded
            (byte_at offset stride bpp (last_row k g offset stride bpp top) (top.rect.x2))
            k in
        (IsEntry k g offset stride bpp (bound.1) top
          → ((p : ℕ) → Within p (top.start, z) → Within p c)
          → ((p : ℕ) → InCurrent p cur → Within p c ⊎ Covers p out)
          → InCurrent p cur ⊎ Any (Wants k g offset stride bpp p) (e ∷ heap)
          → Covers p out
            ⊎ (Within p c
                ⊎ Any (Wants k g offset stride bpp p) (put_back k g offset stride bpp top rest)))
  round_cases bound e heap cur c out p w f h (inl i) = elim (h p i) [
    | inl x ↦ inr (inl x)
    | inr x ↦ inl x
  ]
  round_cases bound e heap cur c out p w f h (inr a) =
      elim (extract-Any (Wants k g offset stride bpp p) e heap a) [
        | inl x ↦
            elim (Wants-cases k g offset stride bpp pos (bound.1) ((extract e heap).0) w p
              ((extract e heap).1) x) [ inl y ↦ inr (inl (f p y)) | inr y ↦ inr (inr y) ]
        | inr x ↦ inr (
            inr (
              put_back-Any (Wants k g offset stride bpp p) ((extract e heap).0) ((extract e heap).1)
                x))
      ]

  current_start :
      (last : ℕ) (e : Entry) (heap : List Entry) (cur : Option Interval)
      → IsCurrent last (e ∷ heap) cur
      → (c : Interval) → cur ≡ some c
      → (c.0 ≤ (extract e heap).0.start) × (c.1 ≤ last)
  current_start last e heap none w c eq = absurd (ground arith)
  current_start last e heap (some b) (l, a) c eq =
      subst (λ o. startsBefore o) eq ((extract-All (λ f. b.0 ≤ f.start) e heap a).0, l)
    where
      startsBefore : Option Interval → Type 0
      startsBefore none = Unit
      startsBefore (some c) = (c.0 ≤ (extract e heap).0.start) × (c.1 ≤ last)

  loop_end :
      (bound : Interval) (fuel : ℕ) (cur : Option Interval) (work : ℕ)
      → group_loop k g offset stride bpp bound fuel [] cur work ≡ ok (flush cur)
  unfolding group_loop
  loop_end bound zero cur work = refl
  loop_end bound (suc fuel) cur work = refl

  in_flush : (p : ℕ) (cur : Option Interval) → InCurrent p cur ⊎ ⊥ → Covers p (flush cur)
  in_flush p none h = ground arith
  in_flush p (some c) (inl h) = inl h
  in_flush p (some c) (inr h) = absurd h

  pub group_loop-CoversAll :
      (bound : Interval) (fuel : ℕ) (heap : List Entry) (cur : Option Interval) (work : ℕ)
      → All (IsEntry k g offset stride bpp (bound.1)) heap
      → sum_of (weight k g offset stride bpp) heap ≤ fuel
      → IsCurrent (bound.1) heap cur
      → CoversAll bound fuel heap cur work
  unfolding CoversAll
  group_loop-CoversAll bound fuel [] cur work w n c =
      (flush cur, loop_end bound fuel cur work, λ p h. in_flush p cur h)
  group_loop-CoversAll bound zero (e ∷ heap) cur work (w, _) n c =
      absurd (omega (arith, weight_pos k g offset stride bpp pos (bound.1) e w))
  group_loop-CoversAll bound (suc fuel) (e ∷ heap) cur work w n c =
      let (top, rest) = extract e heap in
      let (wt, wr) = extract-All (IsEntry k g offset stride bpp (bound.1)) e heap w in
      let z =
        rounded (byte_at offset stride bpp (last_row k g offset stride bpp top) (top.rect.x2)) k in
      let (se, v, l) = segment_end_lem k g offset stride bpp pos (bound.1) top wt in
      let (c', eq, lo, hi, f, h) =
        absorb-IsAbsorbed g (bound.1) cur (top.start, z) (current_start (bound.1) e heap cur c) l in
      let (ws, fs, less) =
        put_back-IsEntry k g offset stride bpp pos (bound.1) top wt rest wr
          (extract-IsFirst e heap) in
      let out = (absorb g cur (top.start, z)).0 in
      let heap' = put_back k g offset stride bpp top rest in
      let work' = work + ilog2 64 (max 16 (length heap')) in
      let run = round bound fuel e heap cur work z c' se eq in
      let starts = from_start (c'.0) top heap' lo fs in
      let (more, run', covers) =
        group_loop-CoversAll bound fuel heap' (some c') work' ws
          (omega (arith, extract-sum_of (weight k g offset stride bpp) e heap)) (hi, starts) in
      elim (Bool-cases (ltb ((bound.1 - bound.0) / 8) work')) [
        | inl t ↦ (
          out ++ ((c'.0, bound.1) ∷ []),
          run ∙ rw t refl,
          λ p a. elim (round_cases bound e heap cur c' out p wt f h a) [
            | inl x ↦ append_front p out ((c'.0, bound.1) ∷ []) x
            | inr (inl x) ↦ append_back p out ((c'.0, bound.1) ∷ []) (inl (omega arith))
            | inr (inr x) ↦
                append_back p out ((c'.0, bound.1) ∷ [])
                  (inl (heap_bound (c'.0) (bound.1) p heap' starts ws x))
          ],
        )
        | inr t ↦ (
          out ++ more,
          run ∙ rw (t, run') refl,
          λ p a. elim (round_cases bound e heap cur c' out p wt f h a) [
            | inl x ↦ append_front p out more x
            | inr x ↦ append_back p out more (covers p x)
          ],
        )
      ]
