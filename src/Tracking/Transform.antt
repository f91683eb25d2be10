-- ===== src/Tracking/Transform.antt =====
-- src/tracking.rs: from a damaged rectangle of a surface to one of its buffer. The sizes, the scale
-- and the viewport are i32s that are not negative, as the handlers of the requests check; a
-- coordinate of a damaged rectangle is any i32.
use waypipe.Base.{
  ℕ, ◌+◌, ◌-◌, ◌*◌, ◌/◌, ◌%◌, ◌^◌, min, Bool, true, false, ◌&&◌, ◌||◌, Option, none, some, ltb, leb,
  if◌then◌else◌, ok, ◌>>=◌, ◌>>◌, assert,
}
use waypipe.Util.{Total, fit}
use waypipe.Damage.Rects.{Rect}
use waypipe.Tracking.{ℤ, pos, negsuc, is_natural, div_ceil}

pub record WlRect : Type 0 where
  pub x : ℤ
  pub y : ℤ
  pub width : ℤ
  pub height : ℤ

-- `saturating_add` of i32
abbrev pub saturating_add : ℤ → ℤ → ℤ
saturating_add (pos m) (pos n) = pos (min (m + n) (2 ^ 31 - 1))
saturating_add (negsuc m) (negsuc n) = negsuc (min (m + n + 1) (2 ^ 31 - 1))
saturating_add (pos m) (negsuc n) = if ltb n m then pos (m - n - 1) else negsuc (n - m)
saturating_add (negsuc m) (pos n) = if ltb m n then pos (n - m - 1) else negsuc (m - n)

-- `clamp(0, w)`
abbrev pub clamp : ℤ → ℕ → ℕ
clamp (pos n) w = min n w
clamp (negsuc n) w = 0

-- The two ends of one axis of a rectangle, in `0..w`
abbrev pub clamped : ℤ → ℤ → ℕ → ℕ × ℕ
clamped x width w = (clamp x w, clamp (saturating_add x width) w)

unfoldable pub clip_wlrect_to_buffer : WlRect → ℕ → ℕ → Option Rect
clip_wlrect_to_buffer a w h =
    let (nx1, nx2) = clamped (a.x) (a.width) w in
    let (ny1, ny2) = clamped (a.y) (a.height) h in
    if ltb nx1 nx2 && ltb ny1 ny2
    then some (record { x1 = nx1; x2 = nx2; y1 = ny1; y2 = ny2 })
    else none

-- The crop rectangle of a viewport: x, y, width and height in 24.8 fixed point
abbrev pub ViewSrc : Type 0
ViewSrc = ℕ × ℕ × ℕ × ℕ

abbrev pub viewport_dst : ℕ × ℕ → Option ViewSrc → Option (ℕ × ℕ) → ℕ × ℕ
viewport_dst buffer_size view_src (some dst) = dst
viewport_dst buffer_size (some (sx, sy, sw, sh)) none = (div_ceil sw 256, div_ceil sh 256)
viewport_dst buffer_size none none = buffer_size

unfoldable pub source_floor : ℕ → ℕ → ℕ → ℕ → ℕ
source_floor v dst src_sz_fixed src_offset_fixed =
    (v * src_sz_fixed / dst + src_offset_fixed) / 256 % 2 ^ 32

unfoldable pub source_ceil : ℕ → ℕ → ℕ → ℕ → ℕ
source_ceil v dst src_sz_fixed src_offset_fixed =
    div_ceil (div_ceil (v * src_sz_fixed) dst + src_offset_fixed) 256 % 2 ^ 32

-- The ends of one axis, through the crop rectangle
abbrev pub cropped : ℕ → ℕ → ℕ → ℕ → ℕ × ℕ → ℕ × ℕ
cropped size dst src_sz src_offset (l, h) = (
  min (source_floor l dst src_sz src_offset) size,
  min (source_ceil h dst src_sz src_offset) size,
)

-- The ends of one axis, through the scale to the whole buffer
abbrev pub stretched : ℕ → ℕ → ℕ × ℕ → ℕ × ℕ
stretched size dst (l, h) = (l * size / dst % 2 ^ 32, div_ceil (h * size) dst % 2 ^ 32)

abbrev pub is_empty_range : ℕ × ℕ → Bool
is_empty_range (l, h) = leb h l

abbrev pub rect_of : ℕ × ℕ → ℕ × ℕ → Rect
rect_of (xl, xh) (yl, yh) = record { x1 = xl; x2 = xh; y1 = yl; y2 = yh }

-- The scaling of a rectangle that is clipped to `dst`
unfoldable pub viewport_scale : ℕ × ℕ → ℕ × ℕ → Option ViewSrc → ℕ × ℕ → ℕ × ℕ → Total (Option Rect)
viewport_scale (w, h) (dw, dh) (some (sx, sy, sw, sh)) xs ys = do
  assert (ltb 0 sw && ltb 0 sh)
  let sxs = cropped w dw sw sx xs
  let sys = cropped h dh sh sy ys
  ok (if is_empty_range sxs || is_empty_range sys then none else some (rect_of sxs sys))
viewport_scale (w, h) (dw, dh) none xs ys =
    ok (some (rect_of (stretched w dw xs) (stretched h dh ys)))

unfoldable pub apply_viewport_transform :
    WlRect → ℕ × ℕ → Option ViewSrc → Option (ℕ × ℕ) → Total (Option Rect)
apply_viewport_transform a buffer_size view_src view_dst = do
  assert (is_natural (a.width) && is_natural (a.height))
  let (dw, dh) = viewport_dst buffer_size view_src view_dst
  let xs = clamped (a.x) (a.width) dw
  let ys = clamped (a.y) (a.height) dh
  if is_empty_range xs || is_empty_range ys
      then ok none
      else viewport_scale buffer_size (dw, dh) view_src xs ys

pub data WlOutputTransform : Type 0 where
  normal item90 item180 item270 flipped flipped90 flipped180 flipped270 : WlOutputTransform

-- The bits of `code`: swap_xy, flip_x and flip_y
unfoldable pub seq : WlOutputTransform → Bool × Bool × Bool
seq normal = (false, false, false)
seq item90 = (true, true, false)
seq item180 = (false, true, true)
seq item270 = (true, false, true)
seq flipped = (false, true, false)
seq flipped90 = (true, false, false)
seq flipped180 = (false, false, true)
seq flipped270 = (true, true, true)

-- A u32 difference, with its wrap-around
abbrev pub minus32 : ℕ → ℕ → ℕ
minus32 a b = (2 ^ 32 + a - b) % 2 ^ 32

abbrev pub flip : Bool → ℕ → ℕ × ℕ → ℕ × ℕ
flip true end (l, h) = (minus32 end h, minus32 end l)
flip false end r = r

abbrev pub swap : Bool → ℕ × ℕ → ℕ × ℕ
swap true (x, y) = (y, x)
swap false p = p

-- The ends of one axis, times the scale
abbrev pub scaled : ℕ → ℕ × ℕ → Total (ℕ × ℕ)
scaled scale (l, h) = do l' ← fit 32 (l * scale); h' ← fit 32 (h * scale); ok (l', h')

-- The rectangle `b`, in the buffer
abbrev pub placed : Bool × Bool × Bool → ℕ → ℕ × ℕ → Option Rect → Total (Option Rect)
placed code scale ends none = ok none
placed (swap_xy, flip_x, flip_y) scale (end_w, end_h) (some b) = do
  xs ← scaled scale (b.x1, b.x2)
  ys ← scaled scale (b.y1, b.y2)
  let xs' = flip flip_x end_w xs
  let ys' = flip flip_y end_h ys
  ok (some (if swap_xy then rect_of ys' xs' else rect_of xs' ys'))

unfoldable pub apply_damage_rect_transform :
    WlRect → ℕ → WlOutputTransform → Option ViewSrc → Option (ℕ × ℕ) → ℕ → ℕ → Total (Option Rect)
apply_damage_rect_transform a scale transform view_src view_dst width height = do
  let (swap_xy, flip_x, flip_y) = seq transform
  let (end_w, end_h) = swap swap_xy (width, height)
  assert (ltb 0 scale)
  b ← apply_viewport_transform a (end_w / scale, end_h / scale) view_src view_dst
  placed (swap_xy, flip_x, flip_y) scale (end_w, end_h) b
