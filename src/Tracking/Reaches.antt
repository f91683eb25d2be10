-- ===== src/Tracking/Reaches.antt =====
-- src/tracking.rs: the rectangle that `apply_damage_rect_transform` returns has every pixel of the
-- buffer that a damaged pixel of the surface touches.
use waypipe.Base.{
  ℕ, suc, ◌+◌, ◌-◌, ◌*◌, ◌/◌, ◌^◌, ◌≤◌, ◌<◌, ◌≡◌, refl, arith, false, Option, none, some, leb, ok,
  lt→ltb, lt→leb,
}
use waypipe.Util.{Total}
use waypipe.Util.Interval.{div_bounds, le_of_mul-lt, mul_mono}
use waypipe.Damage.Rects.{Rect}
use waypipe.Tracking.{ℤ, pos, negsuc}
use waypipe.Tracking.Transform.{
  WlRect, ViewSrc, clamp, clamped, saturating_add, stretched, cropped, source_floor, source_ceil,
  viewport_scale, apply_viewport_transform, viewport_dst,
}
use waypipe.Tracking.Clipped.{IsSize, IsValidSrc}

-- `p` is in the interval that starts at `x` and is `width` long.
abbrev pub IsIn : ℤ → ℤ → ℕ → Type 0
IsIn (pos x) (pos width) p = (x ≤ p) × (p < x + width)
IsIn (negsuc x) (pos width) p = p + suc x < width
IsIn x (negsuc width) p = ⊥

abbrev pub Within : ℕ × ℕ → ℕ → Type 0
Within r q = (r.0 ≤ q) × (q < r.1)

-- On one axis, the pixel `q` of the buffer meets the image of the pixel `p` of the surface.
abbrev pub Touches : ℕ → ℕ → ℕ → ℕ → Type 0
Touches size dst p q = (q * dst < suc p * size) × (p * size < suc q * dst)

-- The same through a crop rectangle, in 24.8 fixed point
abbrev pub CropTouches : ℕ → ℕ → ℕ → ℕ → ℕ → Type 0
CropTouches sz offset dst p q =
    (256 * q * dst < suc p * sz + offset * dst) × (p * sz + offset * dst < 256 * suc q * dst)

pub clamped-Within :
    (x width : ℤ) (dst p : ℕ)
    → dst < 2 ^ 31
    → IsIn x width p
    → p < dst
    → Within (clamped x width dst) p
clamped-Within (pos x) (pos w) dst p fits is less = (omega arith, omega arith)
clamped-Within (negsuc x) (pos w) dst p fits is less =
    rw (lt→ltb x w (omega arith)) (omega arith, omega arith)
clamped-Within (pos x) (negsuc w) dst p fits is less = absurd is
clamped-Within (negsuc x) (negsuc w) dst p fits is less = absurd is

stretched-Within :
    (size dst l h p q : ℕ)
    → Within (l, h) p
    → h ≤ dst
    → size < 2 ^ 31
    → Touches size dst p q
    → q < size
    → Within (stretched size dst (l, h)) q
stretched-Within size dst l h p q (low, high) top fits (t1, t2) less =
    let a = div_bounds (l * size) dst (omega arith) in
    let b = div_bounds (h * size + (dst - 1)) dst (omega arith) in
    let m1 = mul_mono l p size size low (omega arith) in
    let m2 = mul_mono (suc p) h size size high (omega arith) in
    let m3 = mul_mono h dst size size top (omega arith) in
    let c : ℕ = (h * size + (dst - 1)) / dst in
    let l_le : l * size / dst ≤ q =
      le_of_mul-lt dst (l * size / dst) q (omega (arith, a, m1, t2)) in
    let c_le : c ≤ size = le_of_mul-lt dst c size (omega (arith, b, m3)) in
    let c_gt : suc q ≤ c = le_of_mul-lt dst (suc q) c (omega (arith, b, m2, t1)) in
    (omega (arith, l_le, c_le), omega (arith, c_gt, c_le))

cropped-Within :
    (size dst sz offset l h p q : ℕ)
    → Within (l, h) p
    → h ≤ dst
    → sz < 2 ^ 31
    → offset < 2 ^ 31
    → CropTouches sz offset dst p q
    → q < size
    → Within (cropped size dst sz offset (l, h)) q
unfolding source_floor source_ceil
cropped-Within size dst sz offset l h p q (low, high) top fits fits' (t1, t2) less =
    let a = div_bounds (l * sz) dst (omega arith) in
    let b = div_bounds (h * sz + (dst - 1)) dst (omega arith) in
    let m1 = mul_mono l p sz sz low (omega arith) in
    let m2 = mul_mono (suc p) h sz sz high (omega arith) in
    let m3 = mul_mono h dst sz sz top (omega arith) in
    let k : ℕ = l * sz / dst in
    let c : ℕ = (h * sz + (dst - 1)) / dst in
    let k_lt : suc (k + offset) ≤ 256 * suc q =
      le_of_mul-lt dst (suc (k + offset)) (256 * suc q) (omega (arith, a, m1, t2)) in
    let c_le : c ≤ sz = le_of_mul-lt dst c sz (omega (arith, b, m3)) in
    let c_gt : suc (256 * q) ≤ c + offset =
      le_of_mul-lt dst (suc (256 * q)) (c + offset) (omega (arith, b, m2, t1)) in
    (omega (arith, k_lt), omega (arith, c_gt, c_le, less))

abbrev pub Contains : Rect → ℕ × ℕ → Type 0
Contains r q = Within (r.x1, r.x2) (q.0) × Within (r.y1, r.y2) (q.1)

abbrev pub Meets : Option ViewSrc → ℕ × ℕ → ℕ × ℕ → ℕ × ℕ → ℕ × ℕ → Type 0
Meets none size dst p q =
    Touches (size.0) (dst.0) (p.0) (q.0) × Touches (size.1) (dst.1) (p.1) (q.1)
Meets (some (sx, sy, sw, sh)) size dst p q =
    CropTouches sw sx (dst.0) (p.0) (q.0) × CropTouches sh sy (dst.1) (p.1) (q.1)

-- A pixel of the surface that is damaged, and not cut off
abbrev pub IsDamaged : WlRect → ℕ × ℕ → ℕ × ℕ → Type 0
IsDamaged a dst p =
    (p.0 < dst.0) × (p.1 < dst.1) × IsIn (a.x) (a.width) (p.0) × IsIn (a.y) (a.height) (p.1)

-- A viewport: i32s, and a crop rectangle that is not empty
abbrev pub IsCrop : Option ViewSrc → Type 0
IsCrop none = Unit
IsCrop (some (sx, sy, sw, sh)) =
    ((0 < sw) × (0 < sh)) × (sx < 2 ^ 31) × (sy < 2 ^ 31) × (sw < 2 ^ 31) × (sh < 2 ^ 31)

abbrev pub IsDst : Option (ℕ × ℕ) → Type 0
IsDst none = Unit
IsDst (some (w, h)) = (w < 2 ^ 31) × (h < 2 ^ 31)

pub IsCrop-valid : (src : Option ViewSrc) → IsCrop src → IsValidSrc src
IsCrop-valid none is = tt
IsCrop-valid (some (sx, sy, sw, sh)) is = is.0

pub dst_fits :
    (w h : ℕ) (src : Option ViewSrc) (dst : Option (ℕ × ℕ))
    → w < 2 ^ 31
    → h < 2 ^ 31
    → IsCrop src
    → IsDst dst
    → ((viewport_dst (w, h) src dst).0 < 2 ^ 31) × ((viewport_dst (w, h) src dst).1 < 2 ^ 31)
dst_fits w h src (some (dw, dh)) fw fh is fits = fits
dst_fits w h (some (sx, sy, sw, sh)) none fw fh (_, _, _, lw, lh) fits = (omega arith, omega arith)
dst_fits w h none none fw fh is fits = (fw, fh)

pub Within-nonempty : (r : ℕ × ℕ) (p : ℕ) → Within r p → leb (r.1) (r.0) ≡ false
Within-nonempty r p (low, high) = lt→leb (r.1) (r.0) (omega arith)

pub clamp_le : (x : ℤ) (w : ℕ) → clamp x w ≤ w
clamp_le (pos n) w = omega arith
clamp_le (negsuc n) w = omega arith

abbrev pub Reached : Total (Option Rect) → ℕ × ℕ → Type 0
Reached t q = (r : Rect) × (t ≡ ok (some r)) × Contains r q

viewport_scale-Reached :
    (w h dw dh : ℕ) (src : Option ViewSrc) (xs ys p q : ℕ × ℕ)
    → w < 2 ^ 31
    → h < 2 ^ 31
    → IsCrop src
    → Within xs (p.0)
    → Within ys (p.1)
    → xs.1 ≤ dw
    → ys.1 ≤ dh
    → Meets src (w, h) (dw, dh) p q
    → q.0 < w
    → q.1 < h
    → Reached (viewport_scale (w, h) (dw, dh) src xs ys) q
unfolding viewport_scale
viewport_scale-Reached w h dw dh none (xl, xh) (yl, yh) p q fw fh is ix iy tx ty (mx, my) lx ly = (
  _,
  refl,
  (
    stretched-Within w dw xl xh (p.0) (q.0) ix tx fw mx lx,
    stretched-Within h dh yl yh (p.1) (q.1) iy ty fh my ly,
  ),
)
viewport_scale-Reached w h dw dh (some (sx, sy, sw, sh)) (xl, xh) (yl, yh) p q fw fh
      ((ew, eh), fx, fy, gw, gh) ix iy tx ty (mx, my) lx ly =
    let wx = cropped-Within w dw sw sx xl xh (p.0) (q.0) ix tx gw fx mx lx in
    let wy = cropped-Within h dh sh sy yl yh (p.1) (q.1) iy ty gh fy my ly in
    (
      _,
      rw
          (
            lt→ltb 0 sw ew,
            lt→ltb 0 sh eh,
            Within-nonempty (cropped w dw sw sx (xl, xh)) (q.0) wx,
            Within-nonempty (cropped h dh sh sy (yl, yh)) (q.1) wy,
          )
          refl,
      (wx, wy),
    )

pub apply_viewport_transform-Reached :
    (a : WlRect) (w h : ℕ) (src : Option ViewSrc) (dst : Option (ℕ × ℕ)) (p q : ℕ × ℕ)
    → IsSize a
    → w < 2 ^ 31
    → h < 2 ^ 31
    → IsCrop src
    → IsDst dst
    → IsDamaged a (viewport_dst (w, h) src dst) p
    → Meets src (w, h) (viewport_dst (w, h) src dst) p q
    → q.0 < w
    → q.1 < h
    → Reached (apply_viewport_transform a (w, h) src dst) q
unfolding apply_viewport_transform
apply_viewport_transform-Reached a w h src dst p q (e1, e2) fw fh is fits (lp, lp', ix, iy) meets lx
      ly =
    let d : ℕ × ℕ = viewport_dst (w, h) src dst in
    let (fd, fd') = dst_fits w h src dst fw fh is fits in
    let xs : ℕ × ℕ = clamped (a.x) (a.width) (d.0) in
    let ys : ℕ × ℕ = clamped (a.y) (a.height) (d.1) in
    let wx = clamped-Within (a.x) (a.width) (d.0) (p.0) fd ix lp in
    let wy = clamped-Within (a.y) (a.height) (d.1) (p.1) fd' iy lp' in
    rw (e1, e2, Within-nonempty xs (p.0) wx, Within-nonempty ys (p.1) wy)
      (viewport_scale-Reached w h (d.0) (d.1) src xs ys p q fw fh is wx wy
        (clamp_le (saturating_add (a.x) (a.width)) (d.0))
        (clamp_le (saturating_add (a.y) (a.height)) (d.1)) meets lx ly)
