-- ===== src/Tracking/Bytes.antt =====
-- The bytes of a buffer of src/tracking.rs, plane by plane, and `damage_for_entire_buffer`.
use waypipe.Base.{
  ℕ, suc, ◌+◌, ◌*◌, ◌/◌, ◌≤◌, ◌<◌, ◌≡◌, ◌⊎◌, inl, inr, refl, sym, min, max, some, List, [], ◌∷◌,
  lt→ltb, Outcome, ok, err, panic, All, arith, subst, ap, ◌∙◌,
}
use waypipe.Util.{Total}
use waypipe.Util.Interval.{align_lem, mul_mono}
use waypipe.Formats.{PlaneLayout, get_shm_format_layout}
use waypipe.Formats.Planes.{IsSoundPlane, IsSoundLayout, get_shm_format_layout-IsSoundLayout}
use waypipe.Damage.{Interval}
use waypipe.Tracking.{
  ExtentError, div_ceil, plane_loop, extent_for_linear_buffer, max_endpoint, damage_of,
  damage_for_entire_buffer,
}
use waypipe.Tracking.Extent.{
  Yields, Yields-bind, Yields-map, checked-Yields, IsGrown, factor_lem, plane_loop-IsGrown, buffer,
}

-- The bytes of one row of a plane, rounded up: `stride` is that of the first plane.
abbrev pub plane_stride : ℕ → PlaneLayout → PlaneLayout → ℕ
plane_stride stride p0 p = div_ceil (stride * p0.hsub * p.bpt) (p0.bpt * p.hsub)

abbrev pub plane_height : ℕ → PlaneLayout → ℕ
plane_height height p = div_ceil height (p.vsub)

-- The planes stand one behind the other from `start` on, each as a number of rows; the byte `b` is
-- in one of the rows.
abbrev pub InPlanes : ℕ → ℕ → PlaneLayout → List PlaneLayout → ℕ → ℕ → Type 0
InPlanes height stride p0 [] start b = ⊥
InPlanes height stride p0 (p ∷ planes) start b =
    ((row : ℕ) × (col : ℕ) × (row < plane_height height p)
      × (col < plane_stride stride p0 p)
      × (b ≡ start + row * plane_stride stride p0 p + col))
    ⊎ InPlanes height stride p0 planes (start + plane_height height p * plane_stride stride p0 p) b

-- The byte is in a row of a plane, or holds a part of a pixel of the first row, which may be longer
-- than the stride.
abbrev pub InBuffer : ℕ → ℕ → ℕ → ℕ → List PlaneLayout → ℕ → Type 0
InBuffer width height stride offset [] b = ⊥
InBuffer width height stride offset (p0 ∷ planes) b =
    InPlanes height stride p0 (p0 ∷ planes) offset b
    ⊎ ((offset ≤ b) × (b < offset + div_ceil (width * p0.bpt) (p0.hsub)))

-- What the loop over the planes has found
abbrev Found : ℕ → ℕ → ℕ × ℕ → Type 0
Found o b (end, mx) = (b < end) ⊎ (b < o + mx)

module _ (p0 : PlaneLayout) (width height stride o b : ℕ) (sound : IsSoundPlane p0)
    (wide : 0 < width) where
  -- The byte is in the first of the planes, or in the first row, or in the others.
  abbrev IsNext : PlaneLayout → List PlaneLayout → ℕ → Type 0
  IsNext p planes end =
      (b < end + plane_height height p * plane_stride stride p0 p)
      ⊎ ((b < o + div_ceil (width * p.bpt) (p.hsub))
          ⊎ InPlanes height stride p0 planes
              (end + plane_height height p * plane_stride stride p0 p) b)

  split_planes :
      (p : PlaneLayout) (planes : List PlaneLayout) (end : ℕ)
      → InPlanes height stride p0 (p ∷ planes) end b
      → IsNext p planes end
  split_planes p planes end (inl (row, col, lr, lc, e)) = inl (
      omega (
        arith,
        e,
        lc,
        mul_mono (suc row) (plane_height height p) (plane_stride stride p0 p)
            (plane_stride stride p0 p) lr (omega arith),
      ))
  split_planes p planes end (inr i) = inr (inr i)

  -- One plane, and what the loop does with the others
  first_plane :
      (p : PlaneLayout) (planes : List PlaneLayout) (end mx : ℕ)
      → All IsSoundPlane (p ∷ planes)
      → ((end' mx' : ℕ)
          → InPlanes height stride p0 planes end' b
          → Yields (Found o b) (plane_loop p0 width height (stride * p0.hsub) planes end' mx'))
      → IsNext p planes end
      → Yields (Found o b) (plane_loop p0 width height (stride * p0.hsub) (p ∷ planes) end mx)
  unfolding plane_loop
  first_plane p planes end mx (s, a) others next =
      Yields-bind (λ y. y ≡ stride * p0.hsub * p.bpt) (Found o b) _ _
        (checked-Yields (stride * p0.hsub * p.bpt))
        (λ bytes e1. rw (factor_lem p0 width height (stride * p0.hsub) sound wide p s) (
          Yields-bind (λ y. y ≡ width * p.bpt) (Found o b) _ _ (checked-Yields (width * p.bpt))
            (λ row e2.
              Yields-bind (λ y. y ≡ div_ceil height (p.vsub) * div_ceil bytes (p0.bpt * p.hsub))
                (Found o b) _ _
                (checked-Yields (div_ceil height (p.vsub) * div_ceil bytes (p0.bpt * p.hsub)))
                (λ size e3.
                  Yields-bind (λ y. y ≡ end + size) (Found o b) _ _ (checked-Yields (end + size))
                    (λ end' e4. rw e2 (
                      last end' (max mx (div_ceil (width * p.bpt) (p.hsub)))
                        (e4
                          ∙ ap (λ k. end + k)
                              (e3
                                ∙ ap (λ k. div_ceil height (p.vsub) * div_ceil k (p0.bpt * p.hsub))
                                    e1))
                        (omega arith) next))))))
    where
      last :
          (end' mx' : ℕ)
          → end' ≡ end + plane_height height p * plane_stride stride p0 p
          → div_ceil (width * p.bpt) (p.hsub) ≤ mx'
          → IsNext p planes end
          → Yields (Found o b) (plane_loop p0 width height (stride * p0.hsub) planes end' mx')
      last end' mx' e le (inl lt) =
          Yields-map (IsGrown planes end' mx') (Found o b) _ (λ out (ge, _, _). inl (omega arith))
            (plane_loop-IsGrown p0 width height (stride * p0.hsub) sound wide planes end' mx' a)
      last end' mx' e le (inr (inl lt)) =
          Yields-map (IsGrown planes end' mx') (Found o b) _ (λ out (_, ge, _). inr (omega arith))
            (plane_loop-IsGrown p0 width height (stride * p0.hsub) sound wide planes end' mx' a)
      last end' mx' e le (inr (inr i)) =
          others end' mx' (subst (λ k. InPlanes height stride p0 planes k b) (sym e) i)

  plane_loop-Found :
      (planes : List PlaneLayout) (end mx : ℕ)
      → All IsSoundPlane planes
      → InPlanes height stride p0 planes end b
      → Yields (Found o b) (plane_loop p0 width height (stride * p0.hsub) planes end mx)
  plane_loop-Found [] end mx a i = absurd i
  plane_loop-Found (p ∷ planes) end mx a i =
      first_plane p planes end mx a (λ end' mx' j. plane_loop-Found planes end' mx' (a.1) j)
        (split_planes p planes end i)

extent-Found :
    (w h st o f b : ℕ) (planes : List PlaneLayout)
    → 0 < w
    → 0 < h
    → All IsSoundPlane planes
    → InBuffer w h st o planes b
    → Yields
        (λ out. (out.0 ≡ o) × (b < out.1))
        (extent_for_linear_buffer (buffer w h st o f) (record { planes = planes }))
unfolding extent_for_linear_buffer
extent-Found w h st o f b [] wp hp a i = absurd i
extent-Found w h st o f b (p0 ∷ planes) wp hp (s, a) i =
    let Goal : Interval → Type 0 = λ out. (out.0 ≡ o) × (b < out.1) in
    rw (lt→ltb 0 w wp, lt→ltb 0 h hp)
      (Yields-bind (λ y. y ≡ st * p0.hsub) Goal _ _ (checked-Yields (st * p0.hsub))
        (λ ext e. rw e (
          Yields-bind (Found o b) Goal _ _
            (first_plane p0 w h st o b s wp p0 planes o 0 (s, a)
              (λ end' mx' j. plane_loop-Found p0 w h st o b s wp planes end' mx' a j) (next i))
            (λ out found.
              Yields-bind (λ y. y ≡ o + out.1) Goal _ _ (checked-Yields (o + out.1))
                (λ last e'. (refl, reached (out.0) (out.1) last e' found))))))
  where
    next : InBuffer w h st o (p0 ∷ planes) b → IsNext p0 w h st o b s wp p0 planes o
    next (inl j) = split_planes p0 w h st o b s wp p0 planes o j
    next (inr (_, lt)) = inr (inl lt)

    reached : (end mx last : ℕ) → last ≡ o + mx → Found o b (end, mx) → b < max end last
    reached end mx last e (inl lt) = omega arith
    reached end mx last e (inr lt) = omega arith

InPlanes-behind :
    (h st : ℕ) (p0 : PlaneLayout) (planes : List PlaneLayout) (start b : ℕ)
    → InPlanes h st p0 planes start b
    → start ≤ b
InPlanes-behind h st p0 [] start b i = absurd i
InPlanes-behind h st p0 (p ∷ planes) start b (inl (row, col, lr, lc, e)) = omega arith
InPlanes-behind h st p0 (p ∷ planes) start b (inr i) =
    omega
      (arith, InPlanes-behind h st p0 planes (start + plane_height h p * plane_stride st p0 p) b i)

InBuffer-behind : (w h st o b : ℕ) (planes : List PlaneLayout) → InBuffer w h st o planes b → o ≤ b
InBuffer-behind w h st o b [] i = absurd i
InBuffer-behind w h st o b (p0 ∷ planes) (inl i) = InPlanes-behind h st p0 (p0 ∷ planes) o b i
InBuffer-behind w h st o b (p0 ∷ planes) (inr (le, _)) = le

-- The byte is in the interval that comes back.
abbrev pub Covers : ℕ → Total Interval → Type 0
Covers b out = (a : ℕ) × (e : ℕ) × (out ≡ ok (a, e)) × (a ≤ b) × (b < e)

damage_of-Covers :
    (w h st o f b : ℕ) (r : Outcome ExtentError Interval)
    → o ≤ b
    → b < max_endpoint
    → Yields (λ out. (out.0 ≡ o) × (b < out.1)) r
    → Covers b (damage_of (buffer w h st o f) r)
damage_of-Covers w h st o f b (ok (s, t)) le small (same, more) =
    let (k, run, lo, hi) = align_lem (min t max_endpoint) 64 (omega arith) (omega arith) in
    (64 * (s / 64), 64 * k, rw run refl, omega arith, omega (arith, lo))
damage_of-Covers w h st o f b (err e) le small y =
    (64 * (o / 64), max_endpoint, refl, omega arith, small)
damage_of-Covers w h st o f b panic le small y = absurd y

-- For a buffer of at least one pixel whose format has a known layout, with an offset and a stride
-- that are not negative: `damage_for_entire_buffer` returns an interval, in which is every byte
-- below the greatest multiple of 64 of a usize that is in a row of one of the planes, which stand
-- one behind the other from the offset on, or that holds a part of a pixel of the first row.
pub damage_for_entire_buffer-Covers :
    (w h st o f b : ℕ) (planes : List PlaneLayout)
    → get_shm_format_layout f ≡ some (record { planes = planes })
    → 0 < w
    → 0 < h
    → InBuffer w h st o planes b
    → b < max_endpoint
    → Covers b (damage_for_entire_buffer (buffer w h st o f))
unfolding damage_for_entire_buffer
damage_for_entire_buffer-Covers w h st o f b planes layout wp hp i small =
    let (_, _, sound) = subst IsSoundLayout layout (get_shm_format_layout-IsSoundLayout f) in
    rw (damage_for_entire_buffer, layout)
      (damage_of-Covers w h st o f b
        (extent_for_linear_buffer (buffer w h st o f) (record { planes = planes }))
        (InBuffer-behind w h st o b planes i) small
        (extent-Found w h st o f b planes wp hp sound i))
