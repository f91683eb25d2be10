-- ===== src/Tracking/Inverse.antt =====
-- src/tracking.rs: from a damaged rectangle of a buffer to one of its surface. What is said of the
-- arguments of the other direction (Tracking/Transform) holds here too.
use waypipe.Base.{
  ℕ, ◌+◌, ◌-◌, ◌*◌, ◌/◌, ◌^◌, min, max, Bool, true, ◌&&◌, ◌||◌, Option, none, some, ltb, leb,
  if◌then◌else◌, ok, ◌>>◌, assert,
}
use waypipe.Util.{Total}
use waypipe.Damage.Rects.{Rect}
use waypipe.Tracking.{pos, is_positive, div_ceil}
use waypipe.Tracking.Transform.{
  WlRect, ViewSrc, WlOutputTransform, clamped, is_empty_range, viewport_dst, seq, swap, flip,
  rect_of,
}

-- The ends of one axis in .8 fixed point, clipped to the crop rectangle and seen from its start
abbrev pub crop : ℕ → ℕ → ℕ × ℕ → ℕ × ℕ
crop offset sz (l, h) =
    (min (max l offset) (offset + sz) - offset, min (max h offset) (offset + sz) - offset)

abbrev pub fixed : ℕ × ℕ → ℕ × ℕ
fixed (l, h) = (l * 256, h * 256)

-- The ends of one axis, scaled from `src` to `dst` and rounded outwards
abbrev pub rounded : ℕ → ℕ → ℕ × ℕ → ℕ × ℕ
rounded src dst (l, h) = (l * dst / src, div_ceil (h * dst) src)

abbrev pub is_positive_dst : Option (ℕ × ℕ) → Bool
is_positive_dst none = true
is_positive_dst (some (dw, dh)) = ltb 0 dw && ltb 0 dh

-- The assertions on `view_dst` and on the results, and the rectangle
abbrev pub wl_rect_of : Option (ℕ × ℕ) → ℕ × ℕ → ℕ × ℕ → Total (Option WlRect)
wl_rect_of view_dst (xl, xh) (yl, yh) = do
  assert (is_positive_dst view_dst)
  assert (ltb xl xh && ltb yl yh)
  assert (leb xh (2 ^ 31 - 1) && leb yh (2 ^ 31 - 1))
  ok (some (record { x = pos xl; y = pos yl; width = pos (xh - xl); height = pos (yh - yl) }))

-- The clipping to the crop rectangle, and the scaling to `dst`
unfoldable pub viewport_unscale :
    ℕ × ℕ → Option ViewSrc → Option (ℕ × ℕ) → ℕ × ℕ → ℕ × ℕ → Total (Option WlRect)
viewport_unscale (w, h) (some (sx, sy, sw, sh)) view_dst xs ys = do
  assert (ltb 0 sw && ltb 0 sh)
  let (dw, dh) = viewport_dst (w, h) (some (sx, sy, sw, sh)) view_dst
  let xs' = crop sx sw (fixed xs)
  let ys' = crop sy sh (fixed ys)
  if is_empty_range xs' || is_empty_range ys'
      then ok none
      else wl_rect_of view_dst (rounded sw dw xs') (rounded sh dh ys')
viewport_unscale (w, h) none view_dst xs ys =
    let (dw, dh) = viewport_dst (w, h) none view_dst in
    wl_rect_of view_dst (rounded (w * 256) dw (fixed xs)) (rounded (h * 256) dh (fixed ys))

unfoldable pub inverse_viewport_transform :
    Rect → ℕ × ℕ → Option ViewSrc → Option (ℕ × ℕ) → Total (Option WlRect)
inverse_viewport_transform a (w, h) view_src view_dst = do
  assert (ltb 0 w && ltb 0 h)
  assert ((ltb (a.x1) (a.x2) && ltb (a.y1) (a.y2)) && (leb (a.x2) w && leb (a.y2) h))
  viewport_unscale (w, h) view_src view_dst (a.x1, a.x2) (a.y1, a.y2)

-- The ends of one axis, divided by the scale and rounded outwards
abbrev pub unscaled : ℕ → ℕ × ℕ → ℕ × ℕ
unscaled scale (l, h) = (l / scale, div_ceil h scale)

unfoldable pub inverse_damage_rect_transform :
    WlRect → ℕ → WlOutputTransform → Option ViewSrc → Option (ℕ × ℕ) → ℕ → ℕ → Total (Option WlRect)
inverse_damage_rect_transform a scale transform view_src view_dst buf_width buf_height = do
  assert ((ltb 0 buf_width && ltb 0 buf_height) && ltb 0 scale)
  assert (is_positive (a.width) && is_positive (a.height))
  let (swap_xy, flip_x, flip_y) = seq transform
  let xs = clamped (a.x) (a.width) buf_width
  let ys = clamped (a.y) (a.height) buf_height
  let (end_w, end_h) = swap swap_xy (buf_width, buf_height)
  let xs' = unscaled scale (flip flip_x end_w (if swap_xy then ys else xs))
  let ys' = unscaled scale (flip flip_y end_h (if swap_xy then xs else ys))
  if is_empty_range xs || is_empty_range ys
      then ok none
      else inverse_viewport_transform (rect_of xs' ys') (div_ceil end_w scale, div_ceil end_h scale)
          view_src view_dst
