-- ===== src/Kernel/Run.antt =====
-- The loops of src/kernel.rs that apply a diff, against what the diff means.
use waypipe.Base.{
  ℕ, zero, suc, ◌+◌, ◌-◌, ◌%◌, ◌^◌, ◌<◌, ◌≡◌, refl, sym, ap, ◌∙◌, [], ◌∷◌, ◌++◌, append_assoc,
  append-nil, arith, length, length-append, ltb, lt→ltb, le→leb, le→ltb, ok, slice_end, copy_at_end,
  if◌then◌else◌,
}
use waypipe.Kernel.Construct.{Bytes, ctrl_blocks}
use waypipe.Kernel.Apply.{
  apply_one_loop, apply_loop, apply_diff_one, apply_diff, copy_trailing, sub_usize, block_bytes,
}
use waypipe.Kernel.Patch.{
  Patch, keep, replace, apply_one_step, apply_step, length-ctrl_blocks, length-append_three,
}

-- The rest of a diff stands behind its first segment.
split_next :
    (before ctrl src rest after : Bytes)
    → before ++ ((ctrl ++ (src ++ rest)) ++ after) ≡ (before ++ (ctrl ++ src)) ++ (rest ++ after)
split_next before ctrl src rest after = simp append_assoc

length-first :
    (start end : ℕ) (src rest d : Bytes)
    → d ≡ ctrl_blocks start end ++ (src ++ rest)
    → length d ≡ 8 + length src + length rest
length-first start end src rest d e = omega (
  arith,
  ap length e,
  length-append_three (ctrl_blocks start end) src rest,
  length-ctrl_blocks start end,
)

split_first :
    (before ctrl src rest after : Bytes)
    → before ++ ((ctrl ++ (src ++ rest)) ++ after) ≡ before ++ (ctrl ++ (src ++ (rest ++ after)))
split_first before ctrl src rest after = simp append_assoc

length-segment :
    (start end : ℕ) (src : Bytes) → length (ctrl_blocks start end ++ src) ≡ 8 + length src
length-segment start end src =
    omega (arith, length-append (ctrl_blocks start end) src, length-ctrl_blocks start end)

pub apply_one_loop-Patch :
    {mir_start : ℕ} {d m m' : Bytes}
    → Patch mir_start d m m'
    → (diff before after : Bytes) (limit pos fuel : ℕ) → diff ≡ before ++ (d ++ after)
    → pos ≡ length before
    → limit ≡ pos + length d
    → length d < fuel
    → apply_one_loop diff limit mir_start fuel pos m ≡ ok m'
unfolding apply_one_loop
apply_one_loop-Patch p diff before after limit pos zero split at lim f = absurd (omega arith)
apply_one_loop-Patch {m' = m'} (keep d_nil same) diff before after limit pos (suc fuel) split at lim
      f =
    rw (le→ltb pos limit (omega (arith, ap length d_nil))) (ap ok same)
apply_one_loop-Patch {mir_start} {d} {m} {m'}
      (replace start end front old src back rest d_eq m_eq fs fe lt place ls lo tail) diff before
      after limit pos (suc fuel) split at lim f =
    let ctrl = ctrl_blocks start end in
    let opened = split ∙ ap (λ t. before ++ (t ++ after)) d_eq in
    let total = length-first start end src rest d d_eq in
    ap (λ x. apply_one_loop diff limit mir_start (suc fuel) pos x) m_eq
    ∙ apply_one_step diff limit mir_start before src (rest ++ after) front old back start end pos
        fuel (opened ∙ split_first before ctrl src rest after) at fs fe lt place ls lo
        (omega (arith, total))
    ∙ apply_one_loop-Patch tail diff (before ++ (ctrl ++ src)) after limit (pos + 8 + length src)
        fuel (opened ∙ split_next before ctrl src rest after)
        (omega (arith, length-append before (ctrl ++ src), length-segment start end src))
        (omega (arith, total)) (omega (arith, total))

-- A diff is made of whole words.
Patch-words : {mir_start : ℕ} {d m m' : Bytes} → Patch mir_start d m m' → length d % 4 ≡ 0
Patch-words (keep d_nil same) = omega (arith, ap length d_nil)
Patch-words {d = d}
      (replace start end front old src back rest d_eq m_eq fs fe lt place ls lo tail) =
    omega (arith, length-first start end src rest d d_eq, Patch-words tail)

-- The blocks are what stands in front of the trailing bytes.
block_bytes_lem :
    (d tail : Bytes)
    → length d % 4 ≡ 0
    → length d + length tail < 2 ^ 64
    → (sub_usize (length (d ++ tail)) (length tail) % 4 ≡ 0)
      × (block_bytes (d ++ tail) (length tail) ≡ length d)
block_bytes_lem d tail words fits =
    (omega (arith, length-append d tail), omega (arith, length-append d tail))

-- The trailing bytes replace the last bytes.
copy_trailing_lem :
    (d body old_tail tail : Bytes)
    → length old_tail ≡ length tail
    → (if ltb 0 (length tail)
        then copy_trailing (d ++ tail) (length d) (length tail) (body ++ old_tail)
        else ok (body ++ old_tail))
      ≡ ok (body ++ tail)
copy_trailing_lem d body [] [] same = refl
copy_trailing_lem d body [] (x ∷ tail) same = absurd (omega arith)
copy_trailing_lem d body (y ∷ old_tail) [] same = absurd (omega arith)
copy_trailing_lem d body (y ∷ old_tail) (x ∷ tail) same =
    let n = length (x ∷ tail) in
    let whole = body ++ y ∷ old_tail in
    rw (
      lt→ltb 0 n (omega arith),
      le→leb n (length whole) (omega (arith, length-append body (y ∷ old_tail))),
      slice_end d (x ∷ tail) (length d) (length d + n) refl refl,
      copy_at_end body (y ∷ old_tail) (length whole - n) (x ∷ tail)
          (omega (arith, length-append body (y ∷ old_tail))) (sym same),
    )

-- A diff `d` with trailing bytes takes a mirror where the diff says, and then puts the trailing
-- bytes over the last bytes of the mirror.
pub apply_diff_one-Patch :
    {mir_start : ℕ} {d m : Bytes} (body old_tail tail : Bytes)
    → Patch mir_start d m (body ++ old_tail)
    → length old_tail ≡ length tail
    → length d + length tail < 2 ^ 64
    → apply_diff_one (d ++ tail) (length tail) mir_start m ≡ ok (body ++ tail)
unfolding apply_diff_one
apply_diff_one-Patch {mir_start} {d} {m} body old_tail tail p same h =
    let blocks = block_bytes_lem d tail (Patch-words p) h in
    let ran =
      apply_one_loop-Patch p (d ++ tail) [] tail (length d) 0 (length (d ++ tail) + 1) refl refl
        (omega arith) (omega (arith, length-append d tail)) in
    rw (blocks.0, blocks.1, ran) (copy_trailing_lem d body old_tail tail same)

-- `apply_diff` writes the same to the mapping, which holds `lead` in front of the mirror's part and
-- `rest` behind it.
pub apply_loop-Patch :
    {mir_start : ℕ} {d m m' : Bytes}
    → Patch mir_start d m m'
    → (diff before after lead rest : Bytes) (limit pos fuel : ℕ) → diff ≡ before ++ (d ++ after)
    → pos ≡ length before
    → limit ≡ pos + length d
    → length d < fuel
    → length lead ≡ mir_start
    → apply_loop diff limit mir_start fuel pos (lead ++ (m ++ rest)) m
      ≡ ok (lead ++ (m' ++ rest), m')
unfolding apply_loop
apply_loop-Patch p diff before after lead rest limit pos zero split at lim f led =
    absurd (omega arith)
apply_loop-Patch {m' = m'} (keep d_nil same) diff before after lead rest limit pos (suc fuel) split
      at lim f led =
    rw (le→ltb pos limit (omega (arith, ap length d_nil)))
      (ap (λ x. ok (lead ++ (x ++ rest), x)) same)
apply_loop-Patch {mir_start} {d} {m} {m'}
      (replace start end front old src back more d_eq m_eq fs fe lt place ls lo tail) diff before
      after lead rest limit pos (suc fuel) split at lim f led =
    let ctrl = ctrl_blocks start end in
    let opened = split ∙ ap (λ t. before ++ (t ++ after)) d_eq in
    let total = length-first start end src more d d_eq in
    ap (λ x. apply_loop diff limit mir_start (suc fuel) pos (lead ++ (x ++ rest)) x) m_eq
    ∙ apply_step diff limit mir_start before src (more ++ after) lead front old back rest start end
        pos fuel (opened ∙ split_first before ctrl src more after) at fs fe lt led place ls lo
        (omega (arith, total))
    ∙ apply_loop-Patch tail diff (before ++ (ctrl ++ src)) after lead rest limit
        (pos + 8 + length src) fuel (opened ∙ split_next before ctrl src more after)
        (omega (arith, length-append before (ctrl ++ src), length-segment start end src))
        (omega (arith, total)) (omega (arith, total)) led

-- With no trailing bytes.
pub apply_diff-Patch :
    {mir_start : ℕ} {d m m' : Bytes} (lead rest : Bytes)
    → Patch mir_start d m m'
    → length lead ≡ mir_start
    → length d < 2 ^ 64
    → apply_diff d 0 (lead ++ (m ++ rest)) mir_start m ≡ ok (lead ++ (m' ++ rest), m')
unfolding apply_diff
apply_diff-Patch {mir_start} {d} {m} lead rest p led h =
    let words = Patch-words p in
    let block : block_bytes d 0 ≡ length d = omega (arith, words) in
    rw (
      (let even : sub_usize (length d) 0 % 4 ≡ 0 = omega (arith, words) in even),
      block,
      apply_loop-Patch p d [] [] lead rest (length d) 0 (length d + 1) (sym (append-nil d)) refl
          (omega arith) (omega arith) led,
    )
