-- ===== src/Tracking/Clipped.antt =====
-- src/tracking.rs: the rectangle that `apply_damage_rect_transform` returns is in the buffer.
use waypipe.Base.{
  ℕ, suc, ◌+◌, ◌-◌, ◌*◌, ◌/◌, ◌^◌, ◌≤◌, ◌<◌, ◌≡◌, refl, arith, Bool, true, false, ◌||◌, Option,
  none, some, leb, if◌then◌else◌, ok, lt→ltb, if_cases, subst,
}
use waypipe.Util.{Total}
use waypipe.Util.Interval.{div_bounds, le_of_mul-lt, mul_mono}
use waypipe.Damage.Rects.{Rect}
use waypipe.Tracking.{ℤ, pos, negsuc, is_natural}
use waypipe.Tracking.Transform.{
  WlRect, ViewSrc, WlOutputTransform, clamp, clamped, saturating_add, stretched, cropped, flip,
  scaled, is_empty_range, rect_of, viewport_scale, apply_viewport_transform, placed,
  apply_damage_rect_transform, swap, viewport_dst, seq,
}

-- A range that is not empty, in `0..size`
abbrev pub IsRange : ℕ → ℕ × ℕ → Type 0
IsRange size r = (r.0 < r.1) × (r.1 ≤ size)

stretched-IsRange :
    (size dst : ℕ) (r : ℕ × ℕ)
    → 0 < size
    → size < 2 ^ 31
    → IsRange dst r
    → IsRange size (stretched size dst r)
stretched-IsRange size dst (l, h) more fits (less, within) =
    let low = div_bounds (l * size) dst (omega arith) in
    let high = div_bounds (h * size + (dst - 1)) dst (omega arith) in
    let top = mul_mono h dst size size within (omega arith) in
    let up = mul_mono (suc l) h size size less (omega arith) in
    let c : ℕ = (h * size + (dst - 1)) / dst in
    let c_le : c ≤ size = le_of_mul-lt dst c size (omega (arith, high, top)) in
    let lt : l * size / dst < c =
      le_of_mul-lt dst (suc (l * size / dst)) c (omega (arith, low, high, up)) in
    (omega (arith, lt, c_le), omega (arith, c_le))

pub flip-IsRange :
    (b : Bool) (end : ℕ) (r : ℕ × ℕ) → end < 2 ^ 31 → IsRange end r → IsRange end (flip b end r)
flip-IsRange true end (l, h) fits (less, within) = (omega arith, omega arith)
flip-IsRange false end (l, h) fits is = is

pub scaled-IsRange :
    (scale end : ℕ) (r : ℕ × ℕ)
    → 0 < scale
    → end < 2 ^ 31
    → IsRange (end / scale) r
    → (scaled scale r ≡ ok (r.0 * scale, r.1 * scale)) × IsRange end (r.0 * scale, r.1 * scale)
scaled-IsRange scale end (l, h) more fits (less, within) =
    let top = mul_mono h (end / scale) scale scale within (omega arith) in
    let up = mul_mono (suc l) h scale scale less (omega arith) in
    let d = div_bounds end scale more in
    let fits_h : h * scale < 2 ^ 32 = omega (arith, top, d) in
    let fits_l : l * scale < 2 ^ 32 = omega (arith, up, fits_h) in
    (
      rw (lt→ltb (l * scale) (2 ^ 32) fits_l, lt→ltb (h * scale) (2 ^ 32) fits_h) refl,
      (omega (arith, up), omega (arith, top, d)),
    )

abbrev pub IsInside : ℕ → ℕ → Rect → Type 0
IsInside width height r = IsRange width (r.x1, r.x2) × IsRange height (r.y1, r.y2)

abbrev pub Clipped : ℕ → ℕ → Option Rect → Type 0
Clipped width height none = Unit
Clipped width height (some r) = IsInside width height r

-- The crop rectangle of a viewport is not empty.
abbrev pub IsValidSrc : Option ViewSrc → Type 0
IsValidSrc none = Unit
IsValidSrc (some (sx, sy, sw, sh)) = (0 < sw) × (0 < sh)

-- The size of a rectangle of damage is not negative.
abbrev pub IsSize : WlRect → Type 0
IsSize a = (is_natural (a.width) ≡ true) × (is_natural (a.height) ≡ true)

-- A size of the buffer: an i32 that is not less than the scale
abbrev pub IsDim : ℕ → ℕ → Type 0
IsDim scale size = (scale ≤ size) × (size < 2 ^ 31)

nonempty : (l h : ℕ) → is_empty_range (l, h) ≡ false → l < h
nonempty l h e = ground (arith, e)

cropped_lem :
    (w h : ℕ) (xs ys : ℕ × ℕ)
    → xs.1 ≤ w
    → ys.1 ≤ h
    → Clipped w h (if is_empty_range xs || is_empty_range ys then none else some (rect_of xs ys))
cropped_lem w h (xl, xh) (yl, yh) lx ly =
    if_cases (Clipped w h) (leb xh xl || leb yh yl) (λ _. tt)
      (λ e. ((ground (arith, e), lx), (ground (arith, e), ly)))

viewport_scale-Clipped :
    (w h dw dh : ℕ) (src : Option ViewSrc) (xs ys : ℕ × ℕ)
    → 0 < w
    → 0 < h
    → w < 2 ^ 31
    → h < 2 ^ 31
    → IsValidSrc src
    → IsRange dw xs
    → IsRange dh ys
    → (b : Option Rect) × (viewport_scale (w, h) (dw, dh) src xs ys ≡ ok b) × Clipped w h b
unfolding viewport_scale
viewport_scale-Clipped w h dw dh none xs ys pw ph fw fh valid rx ry = (
  some (rect_of (stretched w dw xs) (stretched h dh ys)),
  refl,
  (stretched-IsRange w dw xs pw fw rx, stretched-IsRange h dh ys ph fh ry),
)
viewport_scale-Clipped w h dw dh (some (sx, sy, sw, sh)) (xl, xh) (yl, yh) pw ph fw fh (vw, vh) rx
      ry =
    (
      _,
      rw (lt→ltb 0 sw vw, lt→ltb 0 sh vh) refl,
      cropped_lem w h (cropped w dw sw sx (xl, xh)) (cropped h dh sh sy (yl, yh)) (omega arith)
          (omega arith),
    )

clamp_le : (x : ℤ) (w : ℕ) → clamp x w ≤ w
clamp_le (pos n) w = omega arith
clamp_le (negsuc n) w = omega arith

clamped_lem :
    (x width : ℤ) (w : ℕ)
    → is_empty_range (clamped x width w) ≡ false
    → IsRange w (clamped x width w)
clamped_lem x width w e = (ground (arith, e), clamp_le (saturating_add x width) w)

neither : (a b : Bool) → (a || b) ≡ false → (a ≡ false) × (b ≡ false)
neither a b e = ground (arith, e)

pub apply_viewport_transform-Clipped :
    (a : WlRect) (w h : ℕ) (src : Option ViewSrc) (dst : Option (ℕ × ℕ))
    → IsSize a
    → 0 < w
    → 0 < h
    → w < 2 ^ 31
    → h < 2 ^ 31
    → IsValidSrc src
    → (b : Option Rect) × (apply_viewport_transform a (w, h) src dst ≡ ok b) × Clipped w h b
unfolding apply_viewport_transform
apply_viewport_transform-Clipped a w h src dst (e1, e2) pw ph fw fh valid =
    let d : ℕ × ℕ = viewport_dst (w, h) src dst in
    let xs = clamped (a.x) (a.width) (d.0) in
    let ys = clamped (a.y) (a.height) (d.1) in
    rw (e1, e2)
      (if_cases (λ t. (b : Option Rect) × (t ≡ ok b) × Clipped w h b)
        (is_empty_range xs || is_empty_range ys) (λ _. (none, refl, tt))
        (λ e.
          viewport_scale-Clipped w h (d.0) (d.1) src xs ys pw ph fw fh valid
            (clamped_lem (a.x) (a.width) (d.0) ((neither _ _ e).0))
            (clamped_lem (a.y) (a.height) (d.1) ((neither _ _ e).1))))

placed-Clipped :
    (swap_xy flip_x flip_y : Bool) (scale end_w end_h : ℕ) (b : Option Rect)
    → 0 < scale
    → end_w < 2 ^ 31
    → end_h < 2 ^ 31
    → Clipped (end_w / scale) (end_h / scale) b
    → (b' : Option Rect) × (placed (swap_xy, flip_x, flip_y) scale (end_w, end_h) b ≡ ok b')
      × Clipped ((swap swap_xy (end_w, end_h)).0) ((swap swap_xy (end_w, end_h)).1) b'
placed-Clipped swap_xy flip_x flip_y scale end_w end_h none more fw fh is = (none, refl, tt)
placed-Clipped swap_xy flip_x flip_y scale end_w end_h (some b) more fw fh (ix, iy) =
    let (runx, jx) = scaled-IsRange scale end_w (b.x1, b.x2) more fw ix in
    let (runy, jy) = scaled-IsRange scale end_h (b.y1, b.y2) more fh iy in
    let kx = flip-IsRange flip_x end_w (b.x1 * scale, b.x2 * scale) fw jx in
    let ky = flip-IsRange flip_y end_h (b.y1 * scale, b.y2 * scale) fh jy in
    rw (runx, runy) (turned swap_xy kx ky)
  where
    turned :
        (swap_xy : Bool) {w h : ℕ} {xs ys : ℕ × ℕ}
        → IsRange w xs
        → IsRange h ys
        → (b' : Option Rect) × (◌≡◌ {A = Total (Option Rect)}
            (ok (some (if swap_xy then rect_of ys xs else rect_of xs ys)))
            (ok b'))
          × Clipped ((swap swap_xy (w, h)).0) ((swap swap_xy (w, h)).1) b'
    turned true kx ky = (_, refl, (ky, kx))
    turned false kx ky = (_, refl, (kx, ky))

swap_twice : (b : Bool) (w h : ℕ) → swap b (swap b (w, h)) ≡ (w, h)
swap_twice true w h = refl
swap_twice false w h = refl

pub swap_All :
    (P : ℕ → Type 0) (b : Bool) (w h : ℕ)
    → P w
    → P h
    → P ((swap b (w, h)).0) × P ((swap b (w, h)).1)
swap_All P true w h p q = (q, p)
swap_All P false w h p q = (p, q)

pub quotient_lem :
    (scale size : ℕ) → 0 < scale → IsDim scale size → (0 < size / scale) × (size / scale < 2 ^ 31)
quotient_lem scale size more (low, high) =
    let d = div_bounds size scale more in
    (
      le_of_mul-lt scale 1 (size / scale) (omega (arith, d)),
      omega (arith, d, mul_mono 1 scale (size / scale) (size / scale) more (omega arith)),
    )

pub apply_damage_rect_transform-Clipped :
    (a : WlRect) (scale : ℕ) (transform : WlOutputTransform) (src : Option ViewSrc)
    (dst : Option (ℕ × ℕ)) (width height : ℕ)
    → IsSize a
    → 0 < scale
    → IsValidSrc src
    → IsDim scale width
    → IsDim scale height
    → (b : Option Rect) × (apply_damage_rect_transform a scale transform src dst width height
        ≡ ok b)
      × Clipped width height b
unfolding apply_damage_rect_transform
apply_damage_rect_transform-Clipped a scale transform src dst width height size more valid iw ih =
    let (s, fx, fy) = seq transform in
    let (dw, dh) = swap_All (IsDim scale) s width height iw ih in
    let end : ℕ × ℕ = swap s (width, height) in
    let (pw, fw) = quotient_lem scale (end.0) more dw in
    let (ph, fh) = quotient_lem scale (end.1) more dh in
    let (b, run, is) =
      apply_viewport_transform-Clipped a (end.0 / scale) (end.1 / scale) src dst size pw ph fw fh
        valid in
    let (b', run', is') = placed-Clipped s fx fy scale (end.0) (end.1) b more (dw.1) (dh.1) is in
    (
      b',
      rw (lt→ltb 0 scale more, run) run',
      subst (λ p. Clipped (p.0) (p.1) b') (swap_twice s width height) is',
    )
