-- ===== src/Kernel/Apply.antt =====
-- The application of diffs in src/kernel.rs.
use waypipe.Base.{
  ℕ, zero, suc, ◌+◌, ◌-◌, ◌*◌, ◌/◌, ◌%◌, ◌^◌, not, ◌||◌, length, ltb, leb, ◌==◌, min, max,
  if◌then◌else◌, Outcome, ok, err, ◌>>=◌, ◌>>◌, assert, ensure, unwrap, slice, copy_at, read_word,
}
use waypipe.Kernel.Construct.{Bytes}

-- `no_fuel` is no error of the code: the loop of the model ran out of rounds.
pub data DiffError : Type 0 where
  copy_interval_invalid empty_diff no_fuel : DiffError

abbrev pub Applied : Type 0 → Type 0
Applied A = Outcome DiffError A

-- `a - b` on usize, in a release build
abbrev pub sub_usize : ℕ → ℕ → ℕ
sub_usize a b = (a + 2 ^ 64 - b) % 2 ^ 64

-- The blocks of a diff, in bytes: `4 * nblocks`
abbrev pub block_bytes : Bytes → ℕ → ℕ
block_bytes diff ntrailing = 4 * (sub_usize (length diff) ntrailing / 4)

module _ (diff : Bytes) (limit mir_start : ℕ) where
  -- The loop of `apply_diff_one`, from `pos` on; `limit` is `4 * nblocks`. Each round moves `pos`
  -- on by 12 bytes at least.
  unfoldable pub apply_one_loop : ℕ → ℕ → Bytes → Applied Bytes
  apply_one_loop zero pos mirror = err no_fuel
  apply_one_loop (suc fuel) pos mirror =
      let round : Applied Bytes = do
        start ← read_word diff pos
        end ← read_word diff (pos + 4)
        ensure
            (not (
              leb end start
              || ltb (mir_start + length mirror) end
              || ltb limit (pos + 4 * (end - start))))
            copy_interval_invalid
        src ← unwrap (slice diff (pos + 8) (pos + 8 + 4 * (end - start)))
        assert (leb mir_start (start * 4))
        mirror' ← unwrap (copy_at mirror (start * 4 - mir_start) src)
        apply_one_loop fuel (pos + 8 + (end - start) * 4) mirror'
      in if ltb pos limit then round else ok mirror

-- `mirror[mlen - n..].copy_from_slice(&diff[at..at + n])`
abbrev pub copy_trailing : Bytes → ℕ → ℕ → Bytes → Applied Bytes
copy_trailing diff at n mirror = do
  assert (leb n (length mirror))
  src ← unwrap (slice diff at (at + n))
  unwrap (copy_at mirror (length mirror - n) src)

unfoldable pub apply_diff_one : Bytes → ℕ → ℕ → Bytes → Applied Bytes
apply_diff_one diff ntrailing mir_start mirror = do
  assert (sub_usize (length diff) ntrailing % 4 == 0)
  let limit = block_bytes diff ntrailing
  mirror' ← apply_one_loop diff limit mir_start (length diff + 1) 0 mirror
  if ltb 0 ntrailing then copy_trailing diff limit ntrailing mirror' else ok mirror'

module _ (diff : Bytes) (limit mir_start : ℕ) where
  -- The loop of `apply_diff`, which writes the mapping too.
  unfoldable pub apply_loop : ℕ → ℕ → Bytes → Bytes → Applied (Bytes × Bytes)
  apply_loop zero pos target mirror = err no_fuel
  apply_loop (suc fuel) pos target mirror =
      let round : Applied (Bytes × Bytes) = do
        start ← read_word diff pos
        end ← read_word diff (pos + 4)
        ensure
            (not (
              leb end start
              || ltb (length target / 4) end
              || ltb limit (pos + 8 + 4 * (end - start))))
            copy_interval_invalid
        src ← unwrap (slice diff (pos + 8) (pos + 8 + 4 * (end - start)))
        assert (leb mir_start (start * 4))
        mirror' ← unwrap (copy_at mirror (start * 4 - mir_start) src)
        target' ← unwrap (copy_at target (start * 4) src)
        apply_loop fuel (pos + 8 + (end - start) * 4) target' mirror'
      in if ltb pos limit then round else ok (target, mirror)

-- The mapping and the mirror of its part from `mir_start` on
unfoldable pub apply_diff : Bytes → ℕ → Bytes → ℕ → Bytes → Applied (Bytes × Bytes)
apply_diff diff ntrailing target mir_start mirror = do
  assert (sub_usize (length diff) ntrailing % 4 == 0)
  let limit = block_bytes diff ntrailing
  (target', mirror') ← apply_loop diff limit mir_start (length diff + 1) 0 target mirror
  if ltb 0 ntrailing
      then (do
        assert (leb ntrailing (length target'))
        src ← unwrap (slice diff limit (limit + ntrailing))
        let offset = length target' - ntrailing
        target'' ← unwrap (copy_at target' offset src)
        assert (leb mir_start offset)
        mirror'' ← unwrap (copy_at mirror' (offset - mir_start) src)
        ok (target'', mirror''))
      else ok (target', mirror')

-- The loop of `compute_diff_span`: the least start and the greatest end, in words. The arithmetic
-- on `pos` wraps, as in a release build.
unfoldable pub span_loop : Bytes → ℕ → ℕ → ℕ → ℕ → ℕ → Applied (ℕ × ℕ)
span_loop diff limit zero pos start end = err no_fuel
span_loop diff limit (suc fuel) pos start end =
    let round : Applied (ℕ × ℕ) = do
      span_start ← read_word diff pos
      span_end ← read_word diff (pos + 4)
      span_loop diff limit fuel ((pos + 8 + sub_usize span_end span_start * 4) % 2 ^ 64)
          (min start span_start) (max end span_end)
    in if ltb pos limit then round else ok (start, end)

unfoldable pub compute_diff_span : Bytes → ℕ → ℕ → Applied (ℕ × ℕ)
compute_diff_span diff ntrailing buf_len = do
  assert (sub_usize (length diff) ntrailing % 4 == 0)
  let limit = block_bytes diff ntrailing
  if limit == 0
      then (if ntrailing == 0 then err empty_diff else ok (sub_usize buf_len ntrailing, buf_len))
      else (do
        (start, end) ← span_loop diff limit (length diff + 1) 0 buf_len 0
        assert (ltb start end)
        if ltb 0 ntrailing then ok (start * 4, buf_len) else ok (start * 4, end * 4))
