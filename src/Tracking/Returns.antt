-- ===== src/Tracking/Returns.antt =====
-- src/tracking.rs: the rectangle that `inverse_damage_rect_transform` returns has every pixel of the
-- surface that meets a damaged pixel of the buffer.
use waypipe.Base.{
  ℕ, suc, ◌+◌, ◌-◌, ◌*◌, ◌/◌, ◌^◌, min, max, ◌≤◌, ◌<◌, ◌≡◌, refl, arith, true, Option, none, some,
  ok, lt→ltb, lt→leb, le→leb, inl, inr, le_or_lt,
}
use waypipe.Util.{Total}
use waypipe.Util.Interval.{div_bounds, le_of_mul-lt, mul_mono}
use waypipe.Tracking.{pos}
use waypipe.Tracking.Transform.{WlRect, ViewSrc, viewport_dst}
use waypipe.Tracking.Reaches.{Within, Touches, CropTouches, Meets, IsIn, IsCrop, IsDst, dst_fits}
use waypipe.Tracking.Inverse.{is_positive_dst, crop, fixed, rounded, wl_rect_of, viewport_unscale}

-- A range, in its fixed point and seen from the start of the source, that meets the pixel `p`
abbrev IsMet : ℕ → ℕ → ℕ → ℕ × ℕ → Type 0
IsMet src dst p r = (r.0 * dst < suc p * src) × (p * src < r.1 * dst) × (r.1 ≤ src)

rounded-Within :
    (src dst p : ℕ) (r : ℕ × ℕ)
    → 0 < src
    → IsMet src dst p r
    → Within (rounded src dst r) p × ((rounded src dst r).1 ≤ dst)
rounded-Within src dst p (l, h) more (t1, t2, top) =
    let a = div_bounds (l * dst) src more in
    let b = div_bounds (h * dst + (src - 1)) src more in
    let m = mul_mono h src dst dst top (omega arith) in
    let c : ℕ = (h * dst + (src - 1)) / src in
    (
      (
        le_of_mul-lt src (l * dst / src) p (omega (arith, a, t1)),
        le_of_mul-lt src (suc p) c (omega (arith, b, t2)),
      ),
      le_of_mul-lt src c dst (omega (arith, b, m)),
    )

fixed-IsMet :
    (size dst p q : ℕ) (r : ℕ × ℕ)
    → Within r q
    → r.1 ≤ size
    → Touches size dst p q
    → IsMet (size * 256) dst p (fixed r)
fixed-IsMet size dst p q (l, h) (low, high) top (t1, t2) =
    let m = mul_mono l q dst dst low (omega arith) in
    let m' = mul_mono (suc q) h dst dst high (omega arith) in
    (omega (arith, m, t1), omega (arith, m', t2), omega (arith, top))

crop_low :
    (sz offset dst p q l : ℕ)
    → l ≤ q
    → 256 * q < offset + sz
    → 0 < sz
    → 256 * q * dst < suc p * sz + offset * dst
    → (min (max (l * 256) offset) (offset + sz) - offset) * dst < suc p * sz
crop_low sz offset dst p q l low before more t1 =
    let l' : ℕ = min (max (l * 256) offset) (offset + sz) - offset in
    elim (le_or_lt offset (256 * q)) [
      | inl e ↦
          omega (arith, mul_mono (l' + offset) (256 * q) dst dst (omega arith) (omega arith), t1)
      | inr e ↦ (let none_left : l' ≡ 0 = omega arith in rw none_left (omega arith))
    ]

crop_high :
    (sz offset dst p q h : ℕ)
    → q < h
    → offset < 256 * suc q
    → 0 < sz
    → p < dst
    → p * sz + offset * dst < 256 * suc q * dst
    → p * sz < (min (max (h * 256) offset) (offset + sz) - offset) * dst
crop_high sz offset dst p q h high behind more less t2 =
    let h' : ℕ = min (max (h * 256) offset) (offset + sz) - offset in
    elim (le_or_lt (256 * suc q) (offset + sz)) [
      | inl e ↦
          omega
            (arith, mul_mono (256 * suc q) (h' + offset) dst dst (omega arith) (omega arith), t2)
      | inr e ↦
          (let whole : h' ≡ sz = omega arith in
            rw whole (omega (arith, mul_mono (suc p) dst sz sz less (omega arith))))
    ]

crop-IsMet :
    (sz offset dst p q : ℕ) (r : ℕ × ℕ)
    → Within r q
    → p < dst
    → 0 < sz
    → CropTouches sz offset dst p q
    → IsMet sz dst p (crop offset sz (fixed r))
      × ((crop offset sz (fixed r)).0 < (crop offset sz (fixed r)).1)
crop-IsMet sz offset dst p q (l, h) (low, high) less more (t1, t2) =
    let before : 256 * q < offset + sz =
      le_of_mul-lt dst (suc (256 * q)) (offset + sz)
        (omega (arith, mul_mono (suc p) dst sz sz less (omega arith), t1)) in
    let behind : offset < 256 * suc q =
      le_of_mul-lt dst (suc offset) (256 * suc q) (omega (arith, t2)) in
    (
      (
        crop_low sz offset dst p q l low before more t1,
        crop_high sz offset dst p q h high behind more less t2,
        omega arith,
      ),
      omega (arith, before, behind, low, high),
    )

-- The rectangle that comes back has the pixel.
abbrev pub Returned : Total (Option WlRect) → ℕ × ℕ → Type 0
Returned t p =
    (s : WlRect) × (t ≡ ok (some s)) × IsIn (s.x) (s.width) (p.0) × IsIn (s.y) (s.height) (p.1)

-- A viewport: as in `IsDst`, and not empty
abbrev pub IsSurface : Option (ℕ × ℕ) → Type 0
IsSurface none = Unit
IsSurface (some (w, h)) = (0 < w) × (0 < h)

wl_rect_of-Returned :
    (dst : Option (ℕ × ℕ)) (dw dh : ℕ) (xs ys p : ℕ × ℕ)
    → IsSurface dst
    → dw < 2 ^ 31
    → dh < 2 ^ 31
    → Within xs (p.0) × (xs.1 ≤ dw)
    → Within ys (p.1) × (ys.1 ≤ dh)
    → Returned (wl_rect_of dst xs ys) p
wl_rect_of-Returned dst dw dh (xl, xh) (yl, yh) p is fw fh ((lx, hx), tx) ((ly, hy), ty) = (
  record { x = pos xl; y = pos yl; width = pos (xh - xl); height = pos (yh - yl) },
  rw
      (
        surface dst is,
        lt→ltb xl xh (omega arith),
        lt→ltb yl yh (omega arith),
        le→leb xh (2 ^ 31 - 1) (omega arith),
        le→leb yh (2 ^ 31 - 1) (omega arith),
      )
      refl,
  (lx, omega arith),
  (ly, omega arith),
)
  where
    surface : (dst : Option (ℕ × ℕ)) → IsSurface dst → is_positive_dst dst ≡ true
    surface none is = refl
    surface (some (w, h)) (e, e') = rw (lt→ltb 0 w e, lt→ltb 0 h e') refl

pub viewport_unscale-Returned :
    (w h : ℕ) (src : Option ViewSrc) (dst : Option (ℕ × ℕ)) (xs ys p q : ℕ × ℕ)
    → 0 < w
    → 0 < h
    → w < 2 ^ 31
    → h < 2 ^ 31
    → IsCrop src
    → IsDst dst
    → IsSurface dst
    → Within xs (q.0)
    → Within ys (q.1)
    → xs.1 ≤ w
    → ys.1 ≤ h
    → p.0 < (viewport_dst (w, h) src dst).0
    → p.1 < (viewport_dst (w, h) src dst).1
    → Meets src (w, h) (viewport_dst (w, h) src dst) p q
    → Returned (viewport_unscale (w, h) src dst xs ys) p
unfolding viewport_unscale
viewport_unscale-Returned w h none dst xs ys p q pw ph fw fh crops fits is ix iy tx ty lx ly
      (mx, my) =
    let d : ℕ × ℕ = viewport_dst (w, h) none dst in
    let (fd, fd') = dst_fits w h none dst fw fh crops fits in
    wl_rect_of-Returned dst (d.0) (d.1) (rounded (w * 256) (d.0) (fixed xs))
      (rounded (h * 256) (d.1) (fixed ys)) p is fd fd'
      (rounded-Within (w * 256) (d.0) (p.0) (fixed xs) (omega arith)
        (fixed-IsMet w (d.0) (p.0) (q.0) xs ix tx mx))
      (rounded-Within (h * 256) (d.1) (p.1) (fixed ys) (omega arith)
        (fixed-IsMet h (d.1) (p.1) (q.1) ys iy ty my))
viewport_unscale-Returned w h (some (sx, sy, sw, sh)) dst xs ys p q pw ph fw fh crops fits is ix iy
      tx ty lx ly (mx, my) =
    let src : Option ViewSrc = some (sx, sy, sw, sh) in
    let (ew, eh) = crops.0 in
    let d : ℕ × ℕ = viewport_dst (w, h) src dst in
    let (fd, fd') = dst_fits w h src dst fw fh crops fits in
    let (metx, lessx) = crop-IsMet sw sx (d.0) (p.0) (q.0) xs ix lx ew mx in
    let (mety, lessy) = crop-IsMet sh sy (d.1) (p.1) (q.1) ys iy ly eh my in
    rw
      (
        lt→ltb 0 sw ew,
        lt→ltb 0 sh eh,
        lt→leb ((crop sx sw (fixed xs)).1) ((crop sx sw (fixed xs)).0) lessx,
        lt→leb ((crop sy sh (fixed ys)).1) ((crop sy sh (fixed ys)).0) lessy,
      )
      (wl_rect_of-Returned dst (d.0) (d.1) (rounded sw (d.0) (crop sx sw (fixed xs)))
        (rounded sh (d.1) (crop sy sh (fixed ys))) p is fd fd'
        (rounded-Within sw (d.0) (p.0) (crop sx sw (fixed xs)) ew metx)
        (rounded-Within sh (d.1) (p.1) (crop sy sh (fixed ys)) eh mety))
