-- ===== src/Tracking/Turned.antt =====
-- src/tracking.rs: `apply_damage_rect_transform` with the scale, the flips and the exchange of the
-- axes, against the eight transformations of a pixel.
use waypipe.Base.{
  ℕ, suc, ◌-◌, ◌*◌, ◌/◌, ◌^◌, ◌<◌, ◌≡◌, refl, arith, Bool, true, false, Option, some, if◌then◌else◌,
  ok, lt→ltb, subst, sym,
}
use waypipe.Util.{Total}
use waypipe.Util.Interval.{div_bounds, mul_mono}
use waypipe.Damage.Rects.{Rect}
use waypipe.Tracking.Transform.{
  WlRect, ViewSrc, WlOutputTransform, normal, item90, item180, item270, flipped, flipped90,
  flipped180, flipped270, flip, rect_of, apply_viewport_transform, placed,
  apply_damage_rect_transform, swap, viewport_dst, seq,
}
use waypipe.Tracking.Clipped.{
  apply_damage_rect_transform-Clipped, IsInside, IsRange, IsDim, IsSize, Clipped,
  apply_viewport_transform-Clipped, scaled-IsRange, quotient_lem, swap_All,
}
use waypipe.Tracking.Reaches.{
  Within, Contains, Meets, IsDamaged, IsCrop, IsDst, IsCrop-valid, Reached,
  apply_viewport_transform-Reached,
}

-- Where the pixel of a surface at scale 1 is in a buffer of a width and a height
abbrev pub buffer_pixel : WlOutputTransform → ℕ → ℕ → ℕ × ℕ → ℕ × ℕ
buffer_pixel normal w h (x, y) = (x, y)
buffer_pixel item90 w h (x, y) = (y, h - 1 - x)
buffer_pixel item180 w h (x, y) = (w - 1 - x, h - 1 - y)
buffer_pixel item270 w h (x, y) = (w - 1 - y, x)
buffer_pixel flipped w h (x, y) = (w - 1 - x, y)
buffer_pixel flipped90 w h (x, y) = (y, x)
buffer_pixel flipped180 w h (x, y) = (x, h - 1 - y)
buffer_pixel flipped270 w h (x, y) = (w - 1 - y, h - 1 - x)

-- The sides of the surface, at the scale of the buffer
abbrev pub surface_size : WlOutputTransform → ℕ → ℕ → ℕ × ℕ
surface_size transform w h = swap ((seq transform).0) (w, h)

abbrev pub mirror : Bool → ℕ → ℕ → ℕ
mirror true end u = end - 1 - u
mirror false end u = u

pub flip-Within :
    (b : Bool) (end : ℕ) (r : ℕ × ℕ) (u : ℕ)
    → end < 2 ^ 31
    → IsRange end r
    → Within r u
    → Within (flip b end r) (mirror b end u)
flip-Within true end (l, h) u fits (less, top) (low, high) = (omega arith, omega arith)
flip-Within false end r u fits is within = within

scaled-Within :
    (scale : ℕ) (r : ℕ × ℕ) (u : ℕ)
    → 0 < scale
    → Within r (u / scale)
    → Within (r.0 * scale, r.1 * scale) u
scaled-Within scale (l, h) u more (low, high) =
    let d = div_bounds u scale more in
    let m = mul_mono l (u / scale) scale scale low (omega arith) in
    let m' = mul_mono (suc (u / scale)) h scale scale high (omega arith) in
    (omega (arith, d, m), omega (arith, d, m'))

module _ (scale end_w end_h : ℕ) (b : Rect) (u : ℕ × ℕ) (more : 0 < scale) (fw : end_w < 2 ^ 31)
    (fh : end_h < 2 ^ 31) (is : Clipped (end_w / scale) (end_h / scale) (some b))
    (has : Contains b (u.0 / scale, u.1 / scale)) where
  placed-Contains :
      (swap_xy flip_x flip_y : Bool)
      → (r : Rect) × (placed (swap_xy, flip_x, flip_y) scale (end_w, end_h) (some b) ≡ ok (some r))
        × Contains r (swap swap_xy (mirror flip_x end_w (u.0), mirror flip_y end_h (u.1)))
  placed-Contains swap_xy flip_x flip_y =
      let (runx, jx) = scaled-IsRange scale end_w (b.x1, b.x2) more fw (is.0) in
      let (runy, jy) = scaled-IsRange scale end_h (b.y1, b.y2) more fh (is.1) in
      let wx =
        flip-Within flip_x end_w (b.x1 * scale, b.x2 * scale) (u.0) fw jx
          (scaled-Within scale (b.x1, b.x2) (u.0) more (has.0)) in
      let wy =
        flip-Within flip_y end_h (b.y1 * scale, b.y2 * scale) (u.1) fh jy
          (scaled-Within scale (b.y1, b.y2) (u.1) more (has.1)) in
      rw (runx, runy) (turned swap_xy wx wy)
    where
      turned :
          (swap_xy : Bool) {xs ys : ℕ × ℕ} {p q : ℕ}
          → Within xs p
          → Within ys q
          → (r : Rect) × (◌≡◌ {A = Total (Option Rect)}
              (ok (some (if swap_xy then rect_of ys xs else rect_of xs ys)))
              (ok (some r)))
            × Contains r (swap swap_xy (p, q))
      turned true wx wy = (_, refl, (wy, wx))
      turned false wx wy = (_, refl, (wx, wy))

pub pixel_lem :
    (t : WlOutputTransform) (w h : ℕ) (u : ℕ × ℕ)
    → swap ((seq t).0) (
      mirror ((seq t).1) ((surface_size t w h).0) (u.0),
      mirror ((seq t).2) ((surface_size t w h).1) (u.1),
    )
      ≡ buffer_pixel t w h u
unfolding seq
pixel_lem normal w h u = refl
pixel_lem item90 w h u = refl
pixel_lem item180 w h u = refl
pixel_lem item270 w h u = refl
pixel_lem flipped w h u = refl
pixel_lem flipped90 w h u = refl
pixel_lem flipped180 w h u = refl
pixel_lem flipped270 w h u = refl

-- Two results of one computation
Clipped-result :
    (w h : ℕ) (t : Total (Option Rect)) (b : Option Rect) (r : Rect)
    → t ≡ ok b
    → t ≡ ok (some r)
    → Clipped w h b
    → IsInside w h r
Clipped-result w h t b r e e' is = subst (Clipped w h) (same e e') is
  where
    same :
        {t : Total (Option Rect)} {b : Option Rect} {r : Rect}
        → t ≡ ok b
        → t ≡ ok (some r)
        → b ≡ some r
    same e e' = cc

-- For a rectangle of damage of any place and a size that is not negative, a positive scale that
-- is at most either side of the buffer, and a viewport with a crop rectangle that is not empty,
-- where sides and viewport are i32s: take a pixel of the surface that is damaged and not cut off,
-- and a pixel of the unscaled buffer, within the sides of the surface, that the image of that
-- pixel under the viewport meets. `apply_damage_rect_transform` then returns a rectangle, it is
-- not empty and inside the buffer, and it has the place in the buffer, under any of the eight
-- transformations, of every pixel at the scale of the buffer that the unscaled pixel consists of.
pub apply_damage_rect_transform-Contains :
    (a : WlRect) (scale : ℕ) (t : WlOutputTransform) (src : Option ViewSrc) (dst : Option (ℕ × ℕ))
    (width height : ℕ) (size p u : ℕ × ℕ)
    → size ≡ ((surface_size t width height).0 / scale, (surface_size t width height).1 / scale)
    → IsSize a
    → 0 < scale
    → IsCrop src
    → IsDst dst
    → IsDim scale width
    → IsDim scale height
    → IsDamaged a (viewport_dst size src dst) p
    → Meets src size (viewport_dst size src dst) p (u.0 / scale, u.1 / scale)
    → u.0 / scale < size.0
    → u.1 / scale < size.1
    → (r : Rect) × (apply_damage_rect_transform a scale t src dst width height ≡ ok (some r))
      × IsInside width height r
      × Contains r (buffer_pixel t width height u)
unfolding apply_damage_rect_transform
apply_damage_rect_transform-Contains a scale t src dst width height size p u e is more crop fits iw
      ih damaged meets lx ly =
    let end : ℕ × ℕ = surface_size t width height in
    let code : Bool × Bool × Bool = seq t in
    let (dw, dh) = swap_All (IsDim scale) (code.0) width height iw ih in
    let small : (size.0 < 2 ^ 31) × (size.1 < 2 ^ 31) =
      subst (λ s. (s.0 < 2 ^ 31) × (s.1 < 2 ^ 31)) (sym e)
        ((quotient_lem scale (end.0) more dw).1, (quotient_lem scale (end.1) more dh).1) in
    let (b, run, has) =
      subst (λ s. Reached (apply_viewport_transform a s src dst) (u.0 / scale, u.1 / scale)) e
        (apply_viewport_transform-Reached a (size.0) (size.1) src dst p (u.0 / scale, u.1 / scale)
          is (small.0) (small.1) crop fits damaged meets lx ly) in
    let (b', run', within) =
      apply_viewport_transform-Clipped a (end.0 / scale) (end.1 / scale) src dst is
        ((quotient_lem scale (end.0) more dw).0) ((quotient_lem scale (end.1) more dh).0)
        ((quotient_lem scale (end.0) more dw).1) ((quotient_lem scale (end.1) more dh).1)
        (IsCrop-valid src crop) in
    let inner = Clipped-result (end.0 / scale) (end.1 / scale) _ b' b run' run within in
    let (r, runs, contains) =
      placed-Contains scale (end.0) (end.1) b u more (dw.1) (dh.1) inner has (code.0) (code.1)
        (code.2) in
    let whole : apply_damage_rect_transform a scale t src dst width height ≡ ok (some r) =
      rw (lt→ltb 0 scale more, run) runs in
    let (b'', run'', outer) =
      apply_damage_rect_transform-Clipped a scale t src dst width height is more
        (IsCrop-valid src crop) iw ih in
    (
      r,
      whole,
      Clipped-result width height _ b'' r run'' whole outer,
      subst (Contains r) (pixel_lem t width height u) contains,
    )
