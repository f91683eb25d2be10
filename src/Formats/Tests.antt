-- ===== src/Formats/Tests.antt =====
-- Layouts of src/util.rs at concrete codes.
use waypipe.Base.{◌≡◌, refl, some, none, [], ◌∷◌}
use waypipe.Formats.{
  plane, layout_of, get_shm_format_layout, try_from, lookup, drm_to_wayland, fourcc,
}
use waypipe.Formats.Planes.{IsSoundLayout, get_shm_format_layout-IsSoundLayout}

layout_nv12 :
    get_shm_format_layout (fourcc b'N' b'V' b'1' b'2')
    ≡ some (record { planes = plane 1 1 1 1 1 ∷ plane 2 2 2 1 1 ∷ [] })
unfolding get_shm_format_layout try_from lookup drm_to_wayland layout_of fourcc
layout_nv12 = refl

layout_unknown : get_shm_format_layout 2 ≡ none
unfolding get_shm_format_layout try_from lookup drm_to_wayland layout_of fourcc
layout_unknown = refl

layout_example : IsSoundLayout (get_shm_format_layout 0)
layout_example = get_shm_format_layout-IsSoundLayout 0
