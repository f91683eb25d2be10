-- ===== src/Kernel/Patch.antt =====
-- What a diff means: a sequence of segments, each of which replaces an interval of the mirror.
-- It is the specification of the loops of src/kernel.rs that construct and apply diffs.
use waypipe.Base.{
  ℕ, suc, ◌+◌, ◌-◌, ◌*◌, ◌/◌, ◌≤◌, ◌<◌, ◌≡◌, sym, ap, ◌∙◌, [], ◌++◌, append_assoc, arith, length,
  length-append, lt→ltb, le→leb, le→ltb, lt→leb, ok, slice, slice_mid, read_word, read_word_behind,
  copy_at_mid, to_le_bytes, length-to_le_bytes, IsU32, some,
}
use waypipe.Kernel.Construct.{Bytes, ctrl_blocks}
use waypipe.Kernel.Apply.{apply_one_loop, apply_loop}

-- The diff `d` takes the mirror, which starts at `mir_start`, from `m` to `m'`.
pub data Patch (mir_start : ℕ) : Bytes → Bytes → Bytes → Type 0 where
  keep : {d m m' : Bytes} → d ≡ [] → m ≡ m' → Patch mir_start d m m'
  replace :
      {d m m' : Bytes} (start end : ℕ) (front old src back rest : Bytes)
      → d ≡ ctrl_blocks start end ++ (src ++ rest)
      → m ≡ front ++ (old ++ back)
      → IsU32 start
      → IsU32 end
      → start < end
      → start * 4 ≡ mir_start + length front
      → length src ≡ 4 * (end - start)
      → length old ≡ length src
      → Patch mir_start rest (front ++ (src ++ back)) m'
      → Patch mir_start d m m'

-- Diffs one behind the other.
pub Patch-append :
    {mir_start : ℕ} {d e m m' m'' : Bytes}
    → Patch mir_start d m m'
    → Patch mir_start e m' m''
    → Patch mir_start (d ++ e) m m''
Patch-append (keep d_nil same) q = rw (d_nil, same) q
Patch-append {e = e} (replace start end front old src back rest d_eq m_eq fs fe lt at ls lo tail)
      q =
    replace start end front old src back (rest ++ e) (ap (λ t. t ++ e) d_eq ∙ simp append_assoc)
      m_eq fs fe lt at ls lo (Patch-append tail q)

pub length-ctrl_blocks : (start end : ℕ) → length (ctrl_blocks start end) ≡ 8
unfolding ctrl_blocks
length-ctrl_blocks start end = omega (
  arith,
  length-append (to_le_bytes start) (to_le_bytes end),
  length-to_le_bytes start,
  length-to_le_bytes end,
)

pub length-append_three :
    (xs ys zs : Bytes) → length (xs ++ (ys ++ zs)) ≡ length xs + (length ys + length zs)
length-append_three xs ys zs = omega (arith, length-append xs (ys ++ zs), length-append ys zs)

-- What the loop's reads give on the control words of a segment that stands at `pos`.
module _ (diff before src after : Bytes) (start end pos : ℕ)
    (split : diff ≡ before ++ (ctrl_blocks start end ++ (src ++ after)))
    (at : pos ≡ length before) where
  pub read-start : {E : Type 0} → IsU32 start → read_word {E = E} diff pos ≡ ok start
  unfolding ctrl_blocks
  read-start {E} h =
      ap (λ d. read_word {E = E} d pos)
        (split
          ∙ ap (λ t. before ++ t)
              (append_assoc (to_le_bytes start) (to_le_bytes end) (src ++ after)))
      ∙ read_word_behind before (to_le_bytes end ++ (src ++ after)) start pos h at

  pub read-end : {E : Type 0} → IsU32 end → read_word {E = E} diff (pos + 4) ≡ ok end
  unfolding ctrl_blocks
  read-end {E} h =
      ap (λ d. read_word {E = E} d (pos + 4))
        (split
          ∙ ap (λ t. before ++ t)
              (append_assoc (to_le_bytes start) (to_le_bytes end) (src ++ after))
          ∙ sym (append_assoc before (to_le_bytes start) (to_le_bytes end ++ (src ++ after))))
      ∙ read_word_behind (before ++ to_le_bytes start) (src ++ after) end (pos + 4) h
          (omega (arith, length-append before (to_le_bytes start), length-to_le_bytes start))

  pub slice-src : (b : ℕ) → b ≡ pos + 8 + length src → slice diff (pos + 8) b ≡ some src
  slice-src b e =
      ap (λ d. slice d (pos + 8) b)
        (split ∙ sym (append_assoc before (ctrl_blocks start end) (src ++ after)))
      ∙ slice_mid (before ++ ctrl_blocks start end) src after (pos + 8) b
          (omega
            (arith, length-append before (ctrl_blocks start end), length-ctrl_blocks start end))
          e

nested :
    (lead front old back rest : Bytes)
    → lead ++ ((front ++ (old ++ back)) ++ rest) ≡ (lead ++ front) ++ (old ++ (back ++ rest))
nested lead front old back rest = simp append_assoc

length-mapping :
    (lead front old back rest : Bytes)
    → length (lead ++ ((front ++ (old ++ back)) ++ rest))
      ≡ length lead + length front + length old + length back + length rest
length-mapping lead front old back rest = omega (
  arith,
  length-append lead ((front ++ (old ++ back)) ++ rest),
  length-append (front ++ (old ++ back)) rest,
  length-append_three front old back,
)

-- One round of the loop of `apply_diff_one` on such a segment.
module _ (diff : Bytes) (limit mir_start : ℕ) where
  pub apply_one_step :
      (before src after front old back : Bytes) (start end pos fuel : ℕ)
      → diff ≡ before ++ (ctrl_blocks start end ++ (src ++ after))
      → pos ≡ length before
      → IsU32 start
      → IsU32 end
      → start < end
      → start * 4 ≡ mir_start + length front
      → length src ≡ 4 * (end - start)
      → length old ≡ length src
      → pos + 8 + length src ≤ limit
      → apply_one_loop diff limit mir_start (suc fuel) pos (front ++ (old ++ back))
        ≡ apply_one_loop diff limit mir_start fuel (pos + 8 + length src) (front ++ (src ++ back))
  unfolding apply_one_loop
  apply_one_step before src after front old back start end pos fuel split at fs fe lt place ls lo
        room =
      let m = front ++ (old ++ back) in
      let long = length-append_three front old back in
      rw
        (
          lt→ltb pos limit (omega arith),
          read-start diff before src after start end pos split at fs,
          read-end diff before src after start end pos split at fe,
          lt→leb end start lt,
          le→ltb (mir_start + length m) end (omega (arith, long)),
          le→ltb limit (pos + 4 * (end - start)) (omega arith),
          slice-src diff before src after start end pos split at (pos + 8 + 4 * (end - start))
              (omega arith),
          le→leb mir_start (start * 4) (omega arith),
          copy_at_mid front old back (start * 4 - mir_start) src (omega arith) (sym lo),
        )
        (ap (λ k. apply_one_loop diff limit mir_start fuel k (front ++ (src ++ back)))
          (omega arith))

  -- One round of the loop of `apply_diff`: the mapping holds `lead` in front of the mirror's part,
  -- and `rest` behind it.
  pub apply_step :
      (before src after lead front old back rest : Bytes) (start end pos fuel : ℕ)
      → diff ≡ before ++ (ctrl_blocks start end ++ (src ++ after))
      → pos ≡ length before
      → IsU32 start
      → IsU32 end
      → start < end
      → length lead ≡ mir_start
      → start * 4 ≡ mir_start + length front
      → length src ≡ 4 * (end - start)
      → length old ≡ length src
      → pos + 8 + length src ≤ limit
      → apply_loop diff limit mir_start
          (suc fuel)
          pos
          (lead ++ ((front ++ (old ++ back)) ++ rest))
          (front ++ (old ++ back))
        ≡ apply_loop diff limit mir_start fuel
            (pos + 8 + length src)
            (lead ++ ((front ++ (src ++ back)) ++ rest))
            (front ++ (src ++ back))
  unfolding apply_loop
  apply_step before src after lead front old back rest start end pos fuel split at fs fe lt led
        place ls lo room =
      let t = lead ++ ((front ++ (old ++ back)) ++ rest) in
      rw
        (
          lt→ltb pos limit (omega arith),
          read-start diff before src after start end pos split at fs,
          read-end diff before src after start end pos split at fe,
          lt→leb end start lt,
          le→ltb (length t / 4) end (omega (arith, length-mapping lead front old back rest)),
          le→ltb limit (pos + 8 + 4 * (end - start)) (omega arith),
          slice-src diff before src after start end pos split at (pos + 8 + 4 * (end - start))
              (omega arith),
          le→leb mir_start (start * 4) (omega arith),
          copy_at_mid front old back (start * 4 - mir_start) src (omega arith) (sym lo),
          nested lead front old back rest,
          copy_at_mid (lead ++ front) old (back ++ rest) (start * 4) src
              (omega (arith, length-append lead front)) (sym lo),
          ← nested lead front src back rest,
        )
        (ap
          (λ k.
            apply_loop diff limit mir_start fuel k (lead ++ ((front ++ (src ++ back)) ++ rest))
              (front ++ (src ++ back)))
          (omega arith))
