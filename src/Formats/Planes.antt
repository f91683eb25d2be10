-- ===== src/Formats/Planes.antt =====
-- The layouts of the pixel formats in src/util.rs: sizes of blocks and of what they stand for.
use waypipe.Base.{ℕ, ◌%◌, ◌≤◌, ◌<◌, ◌≡◌, Option, none, some, All, arith, ◌==◌, if_cases, length}
use waypipe.Formats.{
  WlShmFormat, PlaneLayout, FormatLayout, layout_of, get_shm_format_layout, try_from,
  drm_to_wayland, fourcc, layout_from,
}

-- A block spans a whole part of the pixels that it stands for, has eight bytes at most, and is not
-- empty.
abbrev pub IsSoundPlane : PlaneLayout → Type 0
IsSoundPlane p =
    (0 < p.bpt)
    × (p.bpt ≤ 8)
    × (0 < p.htex)
    × (0 < p.vtex)
    × (0 < p.hsub)
    × (p.hsub ≤ 8)
    × (0 < p.vsub)
    × (p.hsub % p.htex ≡ 0)
    × (p.vsub % p.vtex ≡ 0)

abbrev pub IsSoundLayout : Option FormatLayout → Type 0
IsSoundLayout none = Unit
IsSoundLayout (some l) =
    (0 < length (l.planes)) × (length (l.planes) ≤ 3) × All IsSoundPlane (l.planes)

pub layout_of-IsSoundLayout : (f : WlShmFormat) → IsSoundLayout (layout_of f)
unfolding layout_of
layout_of-IsSoundLayout f = ground arith

-- Every layout that `get_shm_format_layout` gives for a code has one plane to three, and in each
-- a block is not empty, has eight bytes at most, stands for eight pixels across at most, and
-- spans a whole part of the pixels that it stands for in either direction.
pub get_shm_format_layout-IsSoundLayout :
    (format : ℕ) → IsSoundLayout (get_shm_format_layout format)
unfolding get_shm_format_layout
get_shm_format_layout-IsSoundLayout format =
    if_cases IsSoundLayout (format == fourcc b'N' b'V' b'2' b'0') (λ _. ground arith)
      (λ _.
        if_cases IsSoundLayout (format == fourcc b'N' b'V' b'3' b'0') (λ _. ground arith)
          (λ _. named (try_from (drm_to_wayland format))))
  where
    named : (o : Option WlShmFormat) → IsSoundLayout (layout_from o)
    named none = tt
    named (some f) = layout_of-IsSoundLayout f
