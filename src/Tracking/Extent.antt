-- ===== src/Tracking/Extent.antt =====
-- `extent_for_linear_buffer` and `damage_for_entire_buffer` of src/tracking.rs.
use waypipe.Base.{
  ℕ, ◌+◌, ◌-◌, ◌*◌, ◌/◌, ◌^◌, ◌≤◌, ◌<◌, ◌≡◌, refl, min, max, Option, none, some, List, [], ◌∷◌, ltb,
  lt→ltb, if◌then◌else◌, if_cases, Outcome, ok, err, panic, ◌>>=◌, unwrap, All, length, arith,
}
use waypipe.Util.{Total}
use waypipe.Util.Interval.{align_lem, div_bounds}
use waypipe.Formats.{PlaneLayout, FormatLayout, get_shm_format_layout}
use waypipe.Formats.Planes.{IsSoundPlane, IsSoundLayout, get_shm_format_layout-IsSoundLayout}
use waypipe.Damage.{Interval}
use waypipe.Damage.Valid.{IsProper}
use waypipe.Tracking.{
  pos, ObjWlBufferShm, ExtentError, checked, div_ceil, plane_loop, extent_for_linear_buffer,
  max_endpoint, damage_of, damage_for_entire_buffer,
}

-- A value with the property, or an overflow
abbrev pub Yields {ℓ} : {A : Type ℓ} → (A → Type 0) → Outcome ExtentError A → Type 0
Yields P (ok a) = P a
Yields P (err e) = Unit
Yields P panic = ⊥

pub Yields-bind {ℓ κ} :
    {A : Type ℓ} {B : Type κ} (P : A → Type 0) (Q : B → Type 0) (m : Outcome ExtentError A)
    (f : A → Outcome ExtentError B)
    → Yields P m
    → ((a : A) → P a → Yields Q (f a))
    → Yields Q (m >>= f)
Yields-bind P Q (ok a) f h g = g a h
Yields-bind P Q (err e) f h g = tt
Yields-bind P Q panic f h g = absurd h

pub Yields-map {ℓ} :
    {A : Type ℓ} (P Q : A → Type 0) (m : Outcome ExtentError A)
    → ((a : A) → P a → Q a)
    → Yields P m
    → Yields Q m
Yields-map P Q (ok a) g h = g a h
Yields-map P Q (err e) g h = tt
Yields-map P Q panic g h = absurd h

checked-anything : (x : ℕ) → Yields (λ _. Unit {0}) (checked x)
checked-anything x = if_cases (Yields (λ _. Unit {0})) (ltb x (2 ^ 64)) (λ _. tt) (λ _. tt)

pub checked-Yields : (x : ℕ) → Yields (λ y. y ≡ x) (checked x)
checked-Yields x = if_cases (Yields (λ y. y ≡ x)) (ltb x (2 ^ 64)) (λ _. refl) (λ _. tt)

-- The end does not come down, and a row is longer than the one before and not empty.
abbrev pub IsGrown : List PlaneLayout → ℕ → ℕ → ℕ × ℕ → Type 0
IsGrown planes end mx (end', mx') = (end ≤ end') × (mx ≤ mx') × (0 < length planes → 0 < mx')

module _ (p0 : PlaneLayout) (width height ext_stride : ℕ) (sound : IsSoundPlane p0)
    (wide : 0 < width) where
  pub factor_lem :
      (p : PlaneLayout)
      → IsSoundPlane p
      → unwrap {E = ExtentError}
          (if ltb (p0.bpt * p.hsub) (2 ^ 32) then some (p0.bpt * p.hsub) else none)
        ≡ ok (p0.bpt * p.hsub)
  factor_lem p s = (let small : p0.bpt * p.hsub < 2 ^ 32 = grind arith in ground arith)

  row_lem :
      (p : PlaneLayout) (row : ℕ) → IsSoundPlane p → row ≡ width * p.bpt → 0 < div_ceil row (p.hsub)
  row_lem p row s e =
      (let some_bytes : 0 < width * p.bpt = grind arith in
        grind (arith, div_bounds (row + (p.hsub - 1)) (p.hsub)))

  pub plane_loop-IsGrown :
      (planes : List PlaneLayout) (end mx : ℕ)
      → All IsSoundPlane planes
      → Yields (IsGrown planes end mx) (plane_loop p0 width height ext_stride planes end mx)
  unfolding plane_loop
  plane_loop-IsGrown [] end mx a = (omega arith, omega arith, λ l. absurd (omega arith))
  plane_loop-IsGrown (p ∷ planes) end mx (s, a) =
      let Goal : ℕ × ℕ → Type 0 = IsGrown (p ∷ planes) end mx in
      Yields-bind (λ y. y ≡ ext_stride * p.bpt) Goal _ _ (checked-Yields (ext_stride * p.bpt))
        (λ bytes _. rw (factor_lem p s) (
          Yields-bind (λ y. y ≡ width * p.bpt) Goal _ _ (checked-Yields (width * p.bpt))
            (λ row e.
              Yields-bind (λ _. Unit) Goal _ _
                (checked-anything (div_ceil height (p.vsub) * div_ceil bytes (p0.bpt * p.hsub)))
                (λ size _.
                  Yields-bind (λ y. y ≡ end + size) Goal _ _ (checked-Yields (end + size))
                    (λ end' e'.
                      Yields-map (IsGrown planes end' (max mx (div_ceil row (p.hsub)))) Goal _
                        (λ out (ge, mx_ge, _).
                          (omega arith, omega arith, λ _. omega (arith, row_lem p row s e)))
                        (plane_loop-IsGrown planes end' (max mx (div_ceil row (p.hsub))) a))))))

abbrev pub buffer : ℕ → ℕ → ℕ → ℕ → ℕ → ObjWlBufferShm
buffer w h st o f = record {
  width = pos w;
  height = pos h;
  stride = pos st;
  offset = pos o;
  format = f;
}

-- The extent starts at the offset and is not empty.
extent-Yields :
    (w h st o f : ℕ) (l : FormatLayout)
    → 0 < w
    → 0 < h
    → IsSoundLayout (some l)
    → Yields (λ out. (out.0 ≡ o) × (o < out.1)) (extent_for_linear_buffer (buffer w h st o f) l)
unfolding extent_for_linear_buffer
extent-Yields w h st o f l wp hp (n, m, a) = go (l.planes) refl n a
  where
    go :
        (planes : List PlaneLayout)
        → l.planes ≡ planes
        → 0 < length planes
        → All IsSoundPlane planes
        → Yields (λ out. (out.0 ≡ o) × (o < out.1)) (extent_for_linear_buffer (buffer w h st o f) l)
    go [] e n a = absurd (omega arith)
    go (p ∷ ps) e n (s, a) =
        rw (lt→ltb 0 w wp, lt→ltb 0 h hp, e)
          (Yields-bind (λ y. y ≡ st * p.hsub) (λ out. (out.0 ≡ o) × (o < out.1)) _ _
            (checked-Yields (st * p.hsub))
            (λ ext_stride _.
              Yields-bind (IsGrown (p ∷ ps) o 0) (λ out. (out.0 ≡ o) × (o < out.1)) _ _
                (plane_loop-IsGrown p w h ext_stride s wp (p ∷ ps) o 0 (s, a))
                (λ out (ge, _, some_row).
                  Yields-bind (λ y. y ≡ o + out.1) (λ out. (out.0 ≡ o) × (o < out.1)) _ _
                    (checked-Yields (o + out.1)) (λ last e'. (refl, omega (arith, some_row n))))))

-- An aligned interval that is not empty and starts at the offset or up to 63 bytes before it.
abbrev pub IsDamage : ℕ → Total Interval → Type 0
IsDamage o out =
    (a : ℕ) × (e : ℕ) × (out ≡ ok (a, e))
    × IsProper 6 (a, e)
    × (a ≤ o)
    × (o < a + 64)
    × (e ≤ max_endpoint)

damage_of-IsDamage :
    (w h st o f : ℕ) (r : Outcome ExtentError Interval)
    → o < 2 ^ 31
    → Yields (λ out. (out.0 ≡ o) × (o < out.1)) r
    → IsDamage o (damage_of (buffer w h st o f) r)
damage_of-IsDamage w h st o f (ok (s, t)) small (same, more) =
    let (k, e, lo, hi) = align_lem (min t max_endpoint) 64 (omega arith) (omega arith) in
    (
      64 * (s / 64),
      64 * k,
      rw e refl,
      (omega arith, omega arith, omega arith),
      omega arith,
      omega arith,
      omega arith,
    )
damage_of-IsDamage w h st o f (err e) small y = (
  64 * (o / 64),
  max_endpoint,
  refl,
  (omega arith, omega arith, omega arith),
  omega arith,
  omega arith,
  omega arith,
)
damage_of-IsDamage w h st o f panic small y = absurd y

-- For a buffer of at least one pixel, with an offset below 2^31 and a stride that are not
-- negative, `damage_for_entire_buffer` returns an interval that is not empty, has both ends
-- aligned to 64, ends below 2^64, and starts at the offset or less than 64 bytes before it, for
-- every format code.
pub damage_for_entire_buffer-IsDamage :
    (w h st o f : ℕ)
    → 0 < w
    → 0 < h
    → o < 2 ^ 31
    → IsDamage o (damage_for_entire_buffer (buffer w h st o f))
unfolding damage_for_entire_buffer
damage_for_entire_buffer-IsDamage w h st o f wp hp small =
    go (get_shm_format_layout f) (get_shm_format_layout-IsSoundLayout f)
  where
    go :
        (l : Option FormatLayout)
        → IsSoundLayout l
        → IsDamage o (elim l [
          | some layout ↦
              damage_of (buffer w h st o f) (extent_for_linear_buffer (buffer w h st o f) layout)
          | none ↦ ok (64 * (o / 64), max_endpoint)
        ])
    go none s = (
      64 * (o / 64),
      max_endpoint,
      refl,
      (omega arith, omega arith, omega arith),
      omega arith,
      omega arith,
      omega arith,
    )
    go (some l) s = damage_of-IsDamage w h st o f _ small (extent-Yields w h st o f l wp hp s)
