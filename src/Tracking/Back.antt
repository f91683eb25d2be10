-- ===== src/Tracking/Back.antt =====
-- src/tracking.rs: `inverse_damage_rect_transform` with the scale, the flips and the exchange of the
-- axes.
use waypipe.Base.{
  ℕ, suc, ◌+◌, ◌-◌, ◌/◌, ◌^◌, ◌≤◌, ◌<◌, ◌≡◌, arith, Bool, true, false, Option, if◌then◌else◌,
  lt→ltb, le→leb, subst, sym,
}
use waypipe.Util.Interval.{div_bounds, le_of_mul-lt, mul_mono}
use waypipe.Tracking.{is_positive, div_ceil}
use waypipe.Tracking.Transform.{
  WlRect, ViewSrc, WlOutputTransform, clamped, saturating_add, viewport_dst, seq, swap, flip,
  rect_of,
}
use waypipe.Tracking.Clipped.{swap_All}
use waypipe.Tracking.Reaches.{
  Within, Meets, IsDamaged, IsCrop, IsDst, Within-nonempty, clamped-Within, clamp_le,
}
use waypipe.Tracking.Turned.{mirror, surface_size, buffer_pixel, pixel_lem}
use waypipe.Tracking.Inverse.{inverse_viewport_transform, unscaled, inverse_damage_rect_transform}
use waypipe.Tracking.Returns.{Returned, IsSurface, viewport_unscale-Returned}

unscaled-Within :
    (scale end : ℕ) (r : ℕ × ℕ) (v : ℕ)
    → 0 < scale
    → Within r v
    → r.1 ≤ end
    → Within (unscaled scale r) (v / scale) × ((unscaled scale r).1 ≤ div_ceil end scale)
unscaled-Within scale end (l, h) v more (low, high) top =
    let a = div_bounds l scale more in
    let b = div_bounds v scale more in
    let c = div_bounds (h + (scale - 1)) scale more in
    let d = div_bounds (end + (scale - 1)) scale more in
    (
      (
        le_of_mul-lt scale (l / scale) (v / scale) (omega (arith, a, b)),
        le_of_mul-lt scale (suc (v / scale)) ((h + (scale - 1)) / scale) (omega (arith, b, c)),
      ),
      le_of_mul-lt scale ((h + (scale - 1)) / scale) ((end + (scale - 1)) / scale)
          (omega (arith, c, d)),
    )

div_ceil_le : (end scale : ℕ) → 0 < scale → 0 < end → div_ceil end scale ≤ end
div_ceil_le end scale more some_end = le_of_mul-lt scale (div_ceil end scale) end (
    omega (
      arith,
      div_bounds (end + (scale - 1)) scale more,
      mul_mono 1 scale end end more (omega arith),
    ))

-- An axis of the buffer, seen as the axis of the surface that it is
axis-Within :
    (b : Bool) (end : ℕ) (r : ℕ × ℕ) (v : ℕ)
    → end < 2 ^ 31
    → v < end
    → r.1 ≤ end
    → Within r (mirror b end v)
    → Within (flip b end r) v × ((flip b end r).1 ≤ end)
axis-Within true end (l, h) v fits less top (low, high) = ((omega arith, omega arith), omega arith)
axis-Within false end r v fits less top within = (within, top)

-- The ends of both axes, after the exchange
swapped :
    (b : Bool) {xs ys : ℕ × ℕ} {w h : ℕ} {u u' : ℕ}
    → Within xs ((swap b (u, u')).0) × (xs.1 ≤ w)
    → Within ys ((swap b (u, u')).1) × (ys.1 ≤ h)
    → (Within (if b then ys else xs) u × ((if b then ys else xs).1 ≤ (swap b (w, h)).0))
      × (Within (if b then xs else ys) u' × ((if b then xs else ys).1 ≤ (swap b (w, h)).1))
swapped true ix iy = (iy, ix)
swapped false ix iy = (ix, iy)

inverse_viewport_transform-Returned :
    (w h : ℕ) (src : Option ViewSrc) (dst : Option (ℕ × ℕ)) (xs ys p q : ℕ × ℕ)
    → w < 2 ^ 31
    → h < 2 ^ 31
    → IsCrop src
    → IsDst dst
    → IsSurface dst
    → Within xs (q.0) × (xs.1 ≤ w)
    → Within ys (q.1) × (ys.1 ≤ h)
    → p.0 < (viewport_dst (w, h) src dst).0
    → p.1 < (viewport_dst (w, h) src dst).1
    → Meets src (w, h) (viewport_dst (w, h) src dst) p q
    → Returned (inverse_viewport_transform (rect_of xs ys) (w, h) src dst) p
unfolding inverse_viewport_transform
inverse_viewport_transform-Returned w h src dst (xl, xh) (yl, yh) p q fw fh crops fits is
      ((ax, bx), tx) ((ay, by), ty) lx ly meets =
    rw
      (
        lt→ltb 0 w (omega arith),
        lt→ltb 0 h (omega arith),
        lt→ltb xl xh (omega arith),
        lt→ltb yl yh (omega arith),
        le→leb xh w tx,
        le→leb yh h ty,
      )
      (viewport_unscale-Returned w h src dst (xl, xh) (yl, yh) p q (omega arith) (omega arith) fw fh
        crops fits is (ax, bx) (ay, by) tx ty lx ly meets)

-- For a rectangle of damage of any place and a positive size, a positive scale, a buffer and a
-- viewport that are not empty, all of them i32s: take a damaged pixel of the buffer, and a pixel
-- of the surface, within its sides, whose image under the viewport meets it, after any of the
-- eight transformations and the scale. `inverse_damage_rect_transform` then passes its assertions
-- and returns a rectangle, which has this pixel of the surface.
pub inverse_damage_rect_transform-Returned :
    (a : WlRect) (scale : ℕ) (t : WlOutputTransform) (src : Option ViewSrc) (dst : Option (ℕ × ℕ))
    (width height : ℕ) (size p v : ℕ × ℕ)
    → size ≡ (
      div_ceil ((surface_size t width height).0) scale,
      div_ceil ((surface_size t width height).1) scale,
    )
    → (is_positive (a.width) ≡ true) × (is_positive (a.height) ≡ true)
    → 0 < scale
    → IsCrop src
    → IsDst dst
    → IsSurface dst
    → (0 < width) × (width < 2 ^ 31)
    → (0 < height) × (height < 2 ^ 31)
    → v.0 < (surface_size t width height).0
    → v.1 < (surface_size t width height).1
    → IsDamaged a (width, height) (buffer_pixel t width height v)
    → p.0 < (viewport_dst size src dst).0
    → p.1 < (viewport_dst size src dst).1
    → Meets src size (viewport_dst size src dst) p (v.0 / scale, v.1 / scale)
    → Returned (inverse_damage_rect_transform a scale t src dst width height) p
unfolding inverse_damage_rect_transform
inverse_damage_rect_transform-Returned a scale t src dst width height size p v e (e1, e2) more crops
      fits is (pw, fw) (ph, fh) lv lv' (lu, lu', ix, iy) lp lp' meets =
    let end : ℕ × ℕ = surface_size t width height in
    let code : Bool × Bool × Bool = seq t in
    let (gw, gh) = swap_All (λ n. (0 < n) × (n < 2 ^ 31)) (code.0) width height (pw, fw) (ph, fh) in
    let xs : ℕ × ℕ = clamped (a.x) (a.width) width in
    let ys : ℕ × ℕ = clamped (a.y) (a.height) height in
    let wx = clamped-Within (a.x) (a.width) width ((buffer_pixel t width height v).0) fw ix lu in
    let wy = clamped-Within (a.y) (a.height) height ((buffer_pixel t width height v).1) fh iy lu' in
    let (inx, iny) =
      swapped (code.0) {xs = xs} {ys = ys} {w = width} {h = height}
        {u = mirror (code.1) (end.0) (v.0)} {u' = mirror (code.2) (end.1) (v.1)}
        (
          subst (λ u. Within xs (u.0)) (sym (pixel_lem t width height v)) wx,
          clamp_le (saturating_add (a.x) (a.width)) width,
        )
        (
          subst (λ u. Within ys (u.1)) (sym (pixel_lem t width height v)) wy,
          clamp_le (saturating_add (a.y) (a.height)) height,
        ) in
    let xs' : ℕ × ℕ = if code.0 then ys else xs in
    let ys' : ℕ × ℕ = if code.0 then xs else ys in
    let (jx, kx) = axis-Within (code.1) (end.0) xs' (v.0) (gw.1) lv (inx.1) (inx.0) in
    let (jy, ky) = axis-Within (code.2) (end.1) ys' (v.1) (gh.1) lv' (iny.1) (iny.0) in
    let fits_w : div_ceil (end.0) scale < 2 ^ 31 =
      omega (arith, div_ceil_le (end.0) scale more (gw.0), gw.1) in
    let fits_h : div_ceil (end.1) scale < 2 ^ 31 =
      omega (arith, div_ceil_le (end.1) scale more (gh.0), gh.1) in
    rw
      (
        lt→ltb 0 width pw,
        lt→ltb 0 height ph,
        lt→ltb 0 scale more,
        e1,
        e2,
        Within-nonempty xs ((buffer_pixel t width height v).0) wx,
        Within-nonempty ys ((buffer_pixel t width height v).1) wy,
      )
      (inverse_viewport_transform-Returned (div_ceil (end.0) scale) (div_ceil (end.1) scale) src dst
        (unscaled scale (flip (code.1) (end.0) xs')) (unscaled scale (flip (code.2) (end.1) ys')) p
        (v.0 / scale, v.1 / scale) fits_w fits_h crops fits is
        (unscaled-Within scale (end.0) (flip (code.1) (end.0) xs') (v.0) more jx kx)
        (unscaled-Within scale (end.1) (flip (code.2) (end.1) ys') (v.1) more jy ky)
        (subst (λ s. p.0 < (viewport_dst s src dst).0) e lp)
        (subst (λ s. p.1 < (viewport_dst s src dst).1) e lp')
        (subst (λ s. Meets src s (viewport_dst s src dst) p (v.0 / scale, v.1 / scale)) e meets))
