-- ===== src/Tracking.antt =====
-- src/tracking.rs: the part of a shared memory pool that a buffer occupies; damage; time stamps.
mod Clock
mod Stamps
mod Extent
mod Bytes
mod Transform
mod Clipped
mod Reaches
mod Turned
mod Inverse
mod Returns
mod Back
mod Tests
use waypipe.Base.{
  ℕ, zero, suc, ◌+◌, ◌-◌, ◌*◌, ◌/◌, ◌%◌, ◌^◌, min, max, Bool, true, false, ◌&&◌, Option, none, some,
  List, [], ◌∷◌, ltb, leb, if◌then◌else◌, Outcome, ok, err, panic, ◌>>=◌, ◌>>◌, assert, unwrap,
  ok_or, usize_max,
}
use waypipe.Util.{Total, align, fit}
use waypipe.Formats.{PlaneLayout, FormatLayout, get_shm_format_layout}
use waypipe.Damage.{Interval}

-- An i32: `negsuc n` is `-1 - n`.
pub data ℤ : Type 0 where
  pos negsuc : ℕ → ℤ

-- `try_into` and `as`, from i32 to usize
abbrev pub to_usize : ℤ → Option ℕ
to_usize (pos n) = some n
to_usize (negsuc n) = none

abbrev pub as_usize : ℤ → ℕ
as_usize (pos n) = n
as_usize (negsuc n) = 2 ^ 64 - 1 - n

abbrev pub is_positive : ℤ → Bool
is_positive (pos n) = ltb 0 n
is_positive (negsuc n) = false

abbrev pub is_natural : ℤ → Bool
is_natural (pos n) = true
is_natural (negsuc n) = false

pub record ObjWlBufferShm : Type 0 where
  pub width : ℤ
  pub height : ℤ
  pub stride : ℤ
  pub offset : ℤ
  pub format : ℕ

-- `None` of `extent_for_linear_buffer`
pub data ExtentError : Type 0 where
  overflow : ExtentError

abbrev pub checked : ℕ → Outcome ExtentError ℕ
checked x = if ltb x (2 ^ 64) then ok x else err overflow

abbrev pub div_ceil : ℕ → ℕ → ℕ
div_ceil x y = (x + (y - 1)) / y

module _ (p0 : PlaneLayout) (width height ext_stride : ℕ) where
  -- The loop over the planes: the end, and the longest row.
  unfoldable pub plane_loop : List PlaneLayout → ℕ → ℕ → Outcome ExtentError (ℕ × ℕ)
  plane_loop [] end max_row_len = ok (end, max_row_len)
  plane_loop (plane ∷ planes) end max_row_len = do
    bytes ← checked (ext_stride * plane.bpt)
    factor ←
        unwrap (if ltb (p0.bpt * plane.hsub) (2 ^ 32) then some (p0.bpt * plane.hsub) else none)
    row ← checked (width * plane.bpt)
    size ← checked (div_ceil height (plane.vsub) * div_ceil bytes factor)
    end' ← checked (end + size)
    plane_loop planes end' (max max_row_len (div_ceil row (plane.hsub)))

unfoldable pub extent_for_linear_buffer :
    ObjWlBufferShm → FormatLayout → Outcome ExtentError Interval
extent_for_linear_buffer buffer layout = do
  start ← unwrap (to_usize (buffer.offset))
  assert (is_natural (buffer.stride) && (is_positive (buffer.width) && is_positive (buffer.height)))
  p0 ← elim (layout.planes) [ [] ↦ panic | p ∷ ps ↦ ok p ]
  ext_stride ← checked (as_usize (buffer.stride) * p0.hsub)
  (end, max_row_len) ←
      plane_loop p0 (as_usize (buffer.width)) (as_usize (buffer.height)) ext_stride (layout.planes)
        start 0
  last ← checked (start + max_row_len)
  ok (start, max end last)

abbrev pub max_endpoint : ℕ
max_endpoint = 64 * (usize_max / 64)

-- The three cases of `damage_for_entire_buffer`
abbrev damage_of : ObjWlBufferShm → Outcome ExtentError Interval → Total Interval
damage_of buffer (ok (start, end)) = do
  e ← align (min end max_endpoint) 64
  ok (64 * (start / 64), e)
damage_of buffer (err e) = ok (64 * (as_usize (buffer.offset) / 64), max_endpoint)
damage_of buffer panic = panic

unfoldable pub damage_for_entire_buffer : ObjWlBufferShm → Total Interval
damage_for_entire_buffer buffer = elim (get_shm_format_layout (buffer.format)) [
  | some layout ↦ damage_of buffer (extent_for_linear_buffer buffer layout)
  | none ↦ ok (64 * (as_usize (buffer.offset) / 64), max_endpoint)
]
