-- ===== src/Tracking/Tests.antt =====
-- The extents and times of src/tracking.rs at concrete values.
use waypipe.Base.{
  ◌≤◌, ◌≡◌, refl, arith, ok, inl, some, none, [], ◌∷◌, ℕ, ◌+◌, ◌*◌, ◌/◌, ◌⊎◌, panic, true, ◌↔◌, err,
}
use waypipe.Damage.Rects.{Rect}
use waypipe.Util.{align, join_u64, split_u64}
use waypipe.Formats.{
  FormatLayout, plane, layout_of, get_shm_format_layout, try_from, lookup, drm_to_wayland, fourcc,
}
use waypipe.Tracking.{
  ℤ, negsuc, pos, ObjWlBufferShm, plane_loop, extent_for_linear_buffer, damage_for_entire_buffer,
}
use waypipe.Tracking.Clock.{second, time_overflow, time_add, time_add_lem}
use waypipe.Tracking.Stamps.{
  timespec_midpoint, clock_sub, stamp_difference, translate_timestamp, nanoseconds, stamp,
  IsDifference, timespec_midpoint_lem, clock_sub_lem,
}
use waypipe.Tracking.Transform.{
  WlRect, item90, seq, apply_damage_rect_transform, apply_viewport_transform, viewport_scale,
  clip_wlrect_to_buffer, source_floor, source_ceil,
}
use waypipe.Tracking.Clipped.{IsInside}
use waypipe.Tracking.Reaches.{Contains}
use waypipe.Tracking.Turned.{apply_damage_rect_transform-Contains}
use waypipe.Tracking.Inverse.{
  inverse_damage_rect_transform, inverse_viewport_transform, viewport_unscale,
}
use waypipe.Tracking.Returns.{Returned}
use waypipe.Tracking.Back.{inverse_damage_rect_transform-Returned}
use waypipe.Tracking.Bytes.{Covers, damage_for_entire_buffer-Covers}
use waypipe.Tracking.Extent.{IsDamage, damage_for_entire_buffer-IsDamage}

-- Ten rows of ten pixels with four bytes each
abbrev square : ObjWlBufferShm
square = record { width = pos 10; height = pos 10; stride = pos 40; offset = pos 100; format = 0 }

abbrev four_bytes : FormatLayout
four_bytes = record { planes = plane 4 1 1 1 1 ∷ [] }

square_layout : get_shm_format_layout 0 ≡ some four_bytes
unfolding get_shm_format_layout try_from lookup drm_to_wayland layout_of fourcc
square_layout = refl

square_extent : extent_for_linear_buffer square four_bytes ≡ ok (100, 500)
unfolding extent_for_linear_buffer plane_loop
square_extent = refl

square_damage : damage_for_entire_buffer square ≡ ok (64, 512)
unfolding damage_for_entire_buffer extent_for_linear_buffer plane_loop align get_shm_format_layout
    try_from lookup drm_to_wayland layout_of fourcc
square_damage = refl

whole_example : IsDamage 100 (damage_for_entire_buffer square)
whole_example =
    damage_for_entire_buffer-IsDamage 10 10 40 100 0 (omega arith) (omega arith) (omega arith)

-- A byte of the last row
bytes_example : Covers 499 (damage_for_entire_buffer square)
bytes_example =
    damage_for_entire_buffer-Covers 10 10 40 100 0 499 (plane 4 1 1 1 1 ∷ []) square_layout
      (omega arith) (omega arith) (inl (inl (9, 39, omega arith, omega arith, omega arith)))
      (omega arith)

-- Two times whose nanoseconds add up to a second
add_whole : time_add (5, 400000000) (pos 3, 600000000) ≡ ok (8, 1000000000)
unfolding time_add
add_whole = refl

add_over : time_add (5, 400000000) (pos 3, 600000001) ≡ ok (9, 1)
unfolding time_add
add_over = refl

add_before : time_add (1, 0) (negsuc 1, 0) ≡ err time_overflow
unfolding time_add
add_before = refl

time_example :
    (s' : ℕ) × (n' : ℕ) × (time_add (5, 400000000) (pos 3, 600000000) ≡ ok (s', n'))
    × (s' * 1000000000 + n' ≡ (5 + 3) * 1000000000 + 400000000 + 600000000)
    × (n' ≤ 1000000000)
    × ((n' ≡ 1000000000) ↔ (400000000 + 600000000 ≡ 1000000000))
time_example = time_add_lem 5 400000000 3 600000000 (omega arith) (omega arith) (omega arith)

midpoint_example :
    (m : ℕ) × (k : ℕ) × (timespec_midpoint (stamp 3 500000000) (stamp 4 500000000) ≡ stamp m k)
    × (nanoseconds m k ≡ (nanoseconds 3 500000000 + nanoseconds 4 500000000) / 2)
    × (k ≤ second)
midpoint_example = timespec_midpoint_lem 3 500000000 4 500000000 (omega arith) (omega arith)

-- The carry is missed at exactly a second, and `clock_sub` then panics.
midpoint_run : timespec_midpoint (stamp 3 500000000) (stamp 4 500000000) ≡ stamp 3 1000000000
unfolding timespec_midpoint
midpoint_run = refl

sub_run :
    clock_sub 0 1 (some (stamp 3 500000000)) (some (stamp 1 0)) (some (stamp 4 500000000)) ≡ panic
unfolding clock_sub stamp_difference timespec_midpoint
sub_run = refl

-- Of a second before the epoch and one after it, the remainders have different signs.
midpoint_before_run :
    timespec_midpoint (record { tv_sec = negsuc 0; tv_nsec = 0 }) (stamp 1 0) ≡ stamp 0 500000000
unfolding timespec_midpoint
midpoint_before_run = refl

sub_example :
    ((clock_sub 0 1 (some (stamp 9 5)) (some (stamp 2 8)) (some (stamp 9 9)) ≡ panic)
      × ((timespec_midpoint (stamp 9 5) (stamp 9 9)).tv_nsec ≡ second)
      × (◌≡◌ {A = ℕ} 8 0))
    ⊎ ((d : ℤ) × (n : ℕ) × (clock_sub 0 1 (some (stamp 9 5)) (some (stamp 2 8)) (some (stamp 9 9))
          ≡ ok (d, n))
        × IsDifference ((nanoseconds 9 5 + nanoseconds 9 9) / 2) (nanoseconds 2 8) d n)
sub_example =
    clock_sub_lem 0 1 9 5 2 8 9 9 (omega arith) (omega arith) (omega arith, omega arith)
      (omega arith, omega arith) (omega arith, omega arith)

-- The difference of the clocks above moves a time stamp by 6.999999999 seconds.
translate_run : translate_timestamp 0 100 7 (λ a b. ok (pos 6, 999999999)) 0 1 true ≡ ok (0, 107, 6)
unfolding translate_timestamp time_add join_u64 split_u64
translate_run = refl

-- A rectangle that is cut off on the left
abbrev some_damage : WlRect
some_damage = record { x = negsuc 0; y = pos 2; width = pos 3; height = pos 2 }

clip_run : clip_wlrect_to_buffer some_damage 20 3 ≡ some (record { x1 = 0; x2 = 2; y1 = 2; y2 = 3 })
unfolding clip_wlrect_to_buffer
clip_run = refl

transform_run :
    apply_damage_rect_transform some_damage 2 item90 none none 20 10
    ≡ ok (some (record { x1 = 4; x2 = 8; y1 = 6; y2 = 10 }))
unfolding apply_damage_rect_transform apply_viewport_transform viewport_scale seq
transform_run = refl

-- The crop rectangle is ten pixels from (1, 1) on, and shown at half the size.
crop_run :
    apply_viewport_transform some_damage (20, 20) (some (256, 256, 2560, 2560)) (some (5, 5))
    ≡ ok (some (record { x1 = 1; x2 = 5; y1 = 5; y2 = 9 }))
unfolding apply_viewport_transform viewport_scale source_floor source_ceil
crop_run = refl

transform_example :
    (r : Rect) × (apply_damage_rect_transform some_damage 2 item90 none none 20 10 ≡ ok (some r))
    × IsInside 20 10 r
    × Contains r (5, 6)
unfolding seq
transform_example =
    apply_damage_rect_transform-Contains some_damage 2 item90 none none 20 10 (5, 10) (1, 2) (3, 5)
      refl (refl, refl) (omega arith) tt tt (omega arith, omega arith) (omega arith, omega arith)
      (omega arith, omega arith, omega arith, (omega arith, omega arith))
      ((omega arith, omega arith), (omega arith, omega arith)) (omega arith) (omega arith)

abbrev buffer_damage : WlRect
buffer_damage = record { x = pos 3; y = pos 5; width = pos 3; height = pos 2 }

inverse_run :
    inverse_damage_rect_transform buffer_damage 2 item90 none none 20 10
    ≡ ok (some (record { x = pos 1; y = pos 1; width = pos 2; height = pos 2 }))
unfolding inverse_damage_rect_transform inverse_viewport_transform viewport_unscale seq
inverse_run = refl

inverse_example :
    Returned (inverse_damage_rect_transform buffer_damage 2 item90 none none 20 10) (1, 2)
unfolding seq
inverse_example =
    inverse_damage_rect_transform-Returned buffer_damage 2 item90 none none 20 10 (5, 10) (1, 2)
      (3, 5) refl (refl, refl) (omega arith) tt tt tt (omega arith, omega arith)
      (omega arith, omega arith) (omega arith) (omega arith)
      (omega arith, omega arith, (omega arith, omega arith), (omega arith, omega arith))
      (omega arith) (omega arith) ((omega arith, omega arith), (omega arith, omega arith))
