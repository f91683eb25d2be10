-- ===== src/Kernel/Guards.antt =====
-- Malformed diffs, and the checks on them in the loops of src/kernel.rs.
use waypipe.Base.{
  ℕ, zero, suc, ◌+◌, ◌-◌, ◌*◌, ◌%◌, ◌^◌, ◌≤◌, ◌<◌, ◌≡◌, refl, sym, ap, [], ◌++◌, append-nil, arith,
  length, length-append, lt→ltb, le→leb, le→ltb, lt→leb, err, panic, IsU32, copy_at, none, min, max,
}
use waypipe.Kernel.Construct.{Bytes, ctrl_blocks}
use waypipe.Kernel.Apply.{
  apply_one_loop, apply_diff_one, sub_usize, block_bytes, no_fuel, span_loop,
}
use waypipe.Kernel.Patch.{length-ctrl_blocks, read-start, read-end, slice-src}

-- A write that does not fit.
copy_at_out :
    (xs : Bytes) (pos : ℕ) (src : Bytes) → length xs < pos + length src → copy_at xs pos src ≡ none
unfolding copy_at
copy_at_out xs pos src h = rw (lt→leb (pos + length src) (length xs) h)

-- The size of a diff of one segment.
length-single :
    (start end : ℕ) (src : Bytes) → length (ctrl_blocks start end ++ src) ≡ 8 + length src
length-single start end src =
    omega (arith, length-append (ctrl_blocks start end) src, length-ctrl_blocks start end)

single_blocks :
    (start end : ℕ) (src : Bytes)
    → IsU32 end
    → length src ≡ 4 * (end - start)
    → (sub_usize (length (ctrl_blocks start end ++ src)) 0 % 4 ≡ 0)
      × (block_bytes (ctrl_blocks start end ++ src) 0 ≡ 8 + 4 * (end - start))
single_blocks start end src fe h =
    (omega (arith, length-single start end src), omega (arith, length-single start end src))

add_one : (n : ℕ) → n + 1 ≡ suc n
add_one n = omega arith

-- For a diff of one segment with all its bytes and no trailing bytes, which starts within or
-- behind the mirror's start: if it ends past the mirror, but its last word index is at most the
-- number of bytes up to the mirror's end, `apply_diff_one` does not answer with the error but
-- panics.
pub apply_diff_one_panics :
    (start end mir : ℕ) (src mirror : Bytes)
    → IsU32 start
    → IsU32 end
    → start < end
    → length src ≡ 4 * (end - start)
    → mir ≤ start * 4
    → end ≤ mir + length mirror
    → mir + length mirror < end * 4
    → apply_diff_one (ctrl_blocks start end ++ src) 0 mir mirror ≡ panic
unfolding apply_diff_one apply_one_loop
apply_diff_one_panics start end mir src mirror fs fe lt ls above checked past =
    let d = ctrl_blocks start end ++ src in
    let split = ap (λ l. ctrl_blocks start end ++ l) (sym (append-nil src)) in
    let blocks = single_blocks start end src fe ls in
    rw (
      blocks.0,
      blocks.1,
      add_one (length d),
      lt→ltb 0 (8 + 4 * (end - start)) (omega arith),
      read-start d [] src [] start end 0 split refl fs,
      read-end d [] src [] start end 0 split refl fe,
      lt→leb end start lt,
      le→ltb (mir + length mirror) end checked,
      le→ltb (8 + 4 * (end - start)) (0 + 4 * (end - start)) (omega arith),
      slice-src d [] src [] start end 0 split refl (0 + 8 + 4 * (end - start)) (omega arith),
      le→leb mir (start * 4) above,
      copy_at_out mirror (start * 4 - mir) src (omega arith),
    )

comes_back :
    (pos start end : ℕ)
    → start ≡ end + 2
    → pos < 2 ^ 64
    → (pos + 8 + sub_usize end start * 4) % 2 ^ 64 ≡ pos
comes_back pos start end two small =
    let wrapped : sub_usize end start ≡ 2 ^ 64 - 2 = omega arith in omega (arith, wrapped)

-- `compute_diff_span` in a release build, where `span_end - span_start` wraps: once the loop is
-- at a segment with an end two words before its start, `pos` comes back to itself, and no number
-- of rounds ends the loop.
pub span_loop_stuck :
    (diff before after : Bytes) (limit fuel start end pos lo hi : ℕ)
    → diff ≡ before ++ (ctrl_blocks start end ++ after)
    → pos ≡ length before
    → IsU32 start
    → start ≡ end + 2
    → pos < limit
    → pos < 2 ^ 64
    → span_loop diff limit fuel pos lo hi ≡ err no_fuel
unfolding span_loop
span_loop_stuck diff before after limit zero start end pos lo hi split at fs two more small = refl
span_loop_stuck diff before after limit (suc fuel) start end pos lo hi split at fs two more small =
    rw
      (
        lt→ltb pos limit more,
        read-start diff before [] after start end pos split at fs,
        read-end diff before [] after start end pos split at (omega arith),
        comes_back pos start end two small,
      )
      (span_loop_stuck diff before after limit fuel start end pos (min lo start) (max hi end) split
        at fs two more small)
