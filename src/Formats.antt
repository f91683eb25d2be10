-- ===== src/Formats.antt =====
-- The pixel formats of shared buffers: src/wayland_gen.rs has their codes, src/util.rs the layout of
-- their planes.
pub mod Planes
mod Tests
use waypipe.Base.{ℕ, ◌+◌, ◌*◌, ◌^◌, Option, none, some, List, [], ◌∷◌, ◌==◌, if◌then◌else◌}

-- `WlShmFormat`
pub data WlShmFormat : Type 0 where
  argb8888 xrgb8888 c8 rgb332 bgr233 xrgb4444 xbgr4444 rgbx4444 bgrx4444 argb4444 : WlShmFormat
  abgr4444 rgba4444 bgra4444 xrgb1555 xbgr1555 rgbx5551 bgrx5551 argb1555 abgr1555 rgba5551 :
      WlShmFormat
  bgra5551 rgb565 bgr565 rgb888 bgr888 xbgr8888 rgbx8888 bgrx8888 abgr8888 rgba8888 : WlShmFormat
  bgra8888 xrgb2101010 xbgr2101010 rgbx1010102 bgrx1010102 argb2101010 abgr2101010 rgba1010102
        bgra1010102 yuyv :
      WlShmFormat
  yvyu uyvy vyuy ayuv nv12 nv21 nv16 nv61 yuv410 yvu410 : WlShmFormat
  yuv411 yvu411 yuv420 yvu420 yuv422 yvu422 yuv444 yvu444 r8 r16 : WlShmFormat
  rg88 gr88 rg1616 gr1616 xrgb16161616f xbgr16161616f argb16161616f abgr16161616f xyuv8888 vuy888 :
      WlShmFormat
  vuy101010 y210 y212 y216 y410 y412 y416 xvyu2101010 xvyu1216161616 xvyu16161616 : WlShmFormat
  y0l0 x0l0 y0l2 x0l2 yuv4208bit yuv42010bit xrgb8888a8 xbgr8888a8 rgbx8888a8 bgrx8888a8 :
      WlShmFormat
  rgb888a8 bgr888a8 rgb565a8 bgr565a8 nv24 nv42 p210 p010 p012 p016 : WlShmFormat
  axbxgxrx106106106106 nv15 q410 q401 xrgb16161616 xbgr16161616 argb16161616 abgr16161616 c1 c2 :
      WlShmFormat
  c4 d1 d2 d4 d8 r1 r2 r4 r10 r12 : WlShmFormat
  avuy8888 xvuy8888 p030 : WlShmFormat

-- The cases of `TryFrom<u32> for WlShmFormat`
abbrev pub codes : List (ℕ × WlShmFormat)
codes =
    (0, argb8888)
    ∷ (1, xrgb8888)
    ∷ (538982467, c8)
    ∷ (943867730, rgb332)
    ∷ (944916290, bgr233)
    ∷ (842093144, xrgb4444)
    ∷ (842089048, xbgr4444)
    ∷ (842094674, rgbx4444)
    ∷ (842094658, bgrx4444)
    ∷ (842093121, argb4444)
    ∷ (842089025, abgr4444)
    ∷ (842088786, rgba4444)
    ∷ (842088770, bgra4444)
    ∷ (892424792, xrgb1555)
    ∷ (892420696, xbgr1555)
    ∷ (892426322, rgbx5551)
    ∷ (892426306, bgrx5551)
    ∷ (892424769, argb1555)
    ∷ (892420673, abgr1555)
    ∷ (892420434, rgba5551)
    ∷ (892420418, bgra5551)
    ∷ (909199186, rgb565)
    ∷ (909199170, bgr565)
    ∷ (875710290, rgb888)
    ∷ (875710274, bgr888)
    ∷ (875709016, xbgr8888)
    ∷ (875714642, rgbx8888)
    ∷ (875714626, bgrx8888)
    ∷ (875708993, abgr8888)
    ∷ (875708754, rgba8888)
    ∷ (875708738, bgra8888)
    ∷ (808669784, xrgb2101010)
    ∷ (808665688, xbgr2101010)
    ∷ (808671314, rgbx1010102)
    ∷ (808671298, bgrx1010102)
    ∷ (808669761, argb2101010)
    ∷ (808665665, abgr2101010)
    ∷ (808665426, rgba1010102)
    ∷ (808665410, bgra1010102)
    ∷ (1448695129, yuyv)
    ∷ (1431918169, yvyu)
    ∷ (1498831189, uyvy)
    ∷ (1498765654, vyuy)
    ∷ (1448433985, ayuv)
    ∷ (842094158, nv12)
    ∷ (825382478, nv21)
    ∷ (909203022, nv16)
    ∷ (825644622, nv61)
    ∷ (961959257, yuv410)
    ∷ (961893977, yvu410)
    ∷ (825316697, yuv411)
    ∷ (825316953, yvu411)
    ∷ (842093913, yuv420)
    ∷ (842094169, yvu420)
    ∷ (909202777, yuv422)
    ∷ (909203033, yvu422)
    ∷ (875713881, yuv444)
    ∷ (875714137, yvu444)
    ∷ (538982482, r8)
    ∷ (540422482, r16)
    ∷ (943212370, rg88)
    ∷ (943215175, gr88)
    ∷ (842221394, rg1616)
    ∷ (842224199, gr1616)
    ∷ (1211388504, xrgb16161616f)
    ∷ (1211384408, xbgr16161616f)
    ∷ (1211388481, argb16161616f)
    ∷ (1211384385, abgr16161616f)
    ∷ (1448434008, xyuv8888)
    ∷ (875713878, vuy888)
    ∷ (808670550, vuy101010)
    ∷ (808530521, y210)
    ∷ (842084953, y212)
    ∷ (909193817, y216)
    ∷ (808531033, y410)
    ∷ (842085465, y412)
    ∷ (909194329, y416)
    ∷ (808670808, xvyu2101010)
    ∷ (909334104, xvyu1216161616)
    ∷ (942954072, xvyu16161616)
    ∷ (810299481, y0l0)
    ∷ (810299480, x0l0)
    ∷ (843853913, y0l2)
    ∷ (843853912, x0l2)
    ∷ (942691673, yuv4208bit)
    ∷ (808539481, yuv42010bit)
    ∷ (943805016, xrgb8888a8)
    ∷ (943800920, xbgr8888a8)
    ∷ (943806546, rgbx8888a8)
    ∷ (943806530, bgrx8888a8)
    ∷ (943798354, rgb888a8)
    ∷ (943798338, bgr888a8)
    ∷ (943797586, rgb565a8)
    ∷ (943797570, bgr565a8)
    ∷ (875714126, nv24)
    ∷ (842290766, nv42)
    ∷ (808530512, p210)
    ∷ (808530000, p010)
    ∷ (842084432, p012)
    ∷ (909193296, p016)
    ∷ (808534593, axbxgxrx106106106106)
    ∷ (892425806, nv15)
    ∷ (808531025, q410)
    ∷ (825242705, q401)
    ∷ (942953048, xrgb16161616)
    ∷ (942948952, xbgr16161616)
    ∷ (942953025, argb16161616)
    ∷ (942948929, abgr16161616)
    ∷ (538980675, c1)
    ∷ (538980931, c2)
    ∷ (538981443, c4)
    ∷ (538980676, d1)
    ∷ (538980932, d2)
    ∷ (538981444, d4)
    ∷ (538982468, d8)
    ∷ (538980690, r1)
    ∷ (538980946, r2)
    ∷ (538981458, r4)
    ∷ (540029266, r10)
    ∷ (540160338, r12)
    ∷ (1498764865, avuy8888)
    ∷ (1498764888, xvuy8888)
    ∷ (808661072, p030)
    ∷ []

unfoldable pub lookup : ℕ → List (ℕ × WlShmFormat) → Option WlShmFormat
lookup v [] = none
lookup v ((c, f) ∷ rest) = let more = lookup v rest in if v == c then some f else more

unfoldable pub try_from : ℕ → Option WlShmFormat
unfolding lookup
try_from v = lookup v codes

-- Bytes per texel block; how many pixels a block stands for, and how many it spans, in each
-- direction.
pub record PlaneLayout : Type 0 where
  pub bpt : ℕ
  pub hsub : ℕ
  pub vsub : ℕ
  pub htex : ℕ
  pub vtex : ℕ

pub record FormatLayout : Type 0 where
  pub planes : List PlaneLayout

abbrev pub plane : ℕ → ℕ → ℕ → ℕ → ℕ → PlaneLayout
plane b h v ht vt = record { bpt = b; hsub = h; vsub = v; htex = ht; vtex = vt }

abbrev simple_1 : PlaneLayout
simple_1 = plane 1 1 1 1 1

abbrev simple_2 : PlaneLayout
simple_2 = plane 2 1 1 1 1

abbrev of_planes : List PlaneLayout → Option FormatLayout
of_planes planes = some (record { planes = planes })

abbrev planes_rgb565a8 : List PlaneLayout
planes_rgb565a8 = simple_2 ∷ simple_1 ∷ []

abbrev planes_rgb888a8 : List PlaneLayout
planes_rgb888a8 = plane 3 1 1 1 1 ∷ simple_1 ∷ []

abbrev planes_xrgb8888a8 : List PlaneLayout
planes_xrgb8888a8 = plane 4 1 1 1 1 ∷ simple_1 ∷ []

abbrev planes_nv12 : List PlaneLayout
planes_nv12 = simple_1 ∷ plane 2 2 2 1 1 ∷ []

abbrev planes_nv16 : List PlaneLayout
planes_nv16 = simple_1 ∷ plane 2 2 1 1 1 ∷ []

abbrev planes_nv24 : List PlaneLayout
planes_nv24 = simple_1 ∷ simple_2 ∷ []

abbrev planes_nv15 : List PlaneLayout
planes_nv15 = plane 5 4 1 4 1 ∷ plane 5 4 2 2 1 ∷ []

abbrev planes_p210 : List PlaneLayout
planes_p210 = simple_2 ∷ plane 4 2 2 1 1 ∷ []

abbrev planes_p030 : List PlaneLayout
planes_p030 = plane 4 3 1 3 1 ∷ plane 8 6 2 3 1 ∷ []

abbrev planes_yuv410 : List PlaneLayout
planes_yuv410 = simple_1 ∷ plane 1 4 4 1 1 ∷ plane 1 4 4 1 1 ∷ []

abbrev planes_yuv411 : List PlaneLayout
planes_yuv411 = simple_1 ∷ plane 1 4 1 1 1 ∷ plane 1 4 1 1 1 ∷ []

abbrev planes_yuv420 : List PlaneLayout
planes_yuv420 = simple_1 ∷ plane 1 2 2 1 1 ∷ plane 1 2 2 1 1 ∷ []

abbrev planes_yuv422 : List PlaneLayout
planes_yuv422 = simple_1 ∷ plane 1 2 1 1 1 ∷ plane 1 2 1 1 1 ∷ []

abbrev planes_yuv444 : List PlaneLayout
planes_yuv444 = simple_1 ∷ simple_1 ∷ simple_1 ∷ []

abbrev planes_q401 : List PlaneLayout
planes_q401 = simple_2 ∷ simple_2 ∷ simple_2 ∷ []

-- The last `match` of `get_shm_format_layout`
unfoldable pub layout_of : WlShmFormat → Option FormatLayout
layout_of r8 = of_planes (simple_1 ∷ [])
layout_of c8 = of_planes (simple_1 ∷ [])
layout_of d8 = of_planes (simple_1 ∷ [])
layout_of rgb332 = of_planes (simple_1 ∷ [])
layout_of bgr233 = of_planes (simple_1 ∷ [])
layout_of xrgb4444 = of_planes (simple_2 ∷ [])
layout_of xbgr4444 = of_planes (simple_2 ∷ [])
layout_of rgbx4444 = of_planes (simple_2 ∷ [])
layout_of bgrx4444 = of_planes (simple_2 ∷ [])
layout_of argb4444 = of_planes (simple_2 ∷ [])
layout_of abgr4444 = of_planes (simple_2 ∷ [])
layout_of rgba4444 = of_planes (simple_2 ∷ [])
layout_of bgra4444 = of_planes (simple_2 ∷ [])
layout_of xrgb1555 = of_planes (simple_2 ∷ [])
layout_of xbgr1555 = of_planes (simple_2 ∷ [])
layout_of rgbx5551 = of_planes (simple_2 ∷ [])
layout_of bgrx5551 = of_planes (simple_2 ∷ [])
layout_of argb1555 = of_planes (simple_2 ∷ [])
layout_of abgr1555 = of_planes (simple_2 ∷ [])
layout_of rgba5551 = of_planes (simple_2 ∷ [])
layout_of bgra5551 = of_planes (simple_2 ∷ [])
layout_of rgb565 = of_planes (simple_2 ∷ [])
layout_of bgr565 = of_planes (simple_2 ∷ [])
layout_of r10 = of_planes (simple_2 ∷ [])
layout_of r12 = of_planes (simple_2 ∷ [])
layout_of r16 = of_planes (simple_2 ∷ [])
layout_of rg88 = of_planes (simple_2 ∷ [])
layout_of gr88 = of_planes (simple_2 ∷ [])
layout_of rgb888 = of_planes (plane 3 1 1 1 1 ∷ [])
layout_of bgr888 = of_planes (plane 3 1 1 1 1 ∷ [])
layout_of vuy888 = of_planes (plane 3 1 1 1 1 ∷ [])
layout_of argb8888 = of_planes (plane 4 1 1 1 1 ∷ [])
layout_of xrgb8888 = of_planes (plane 4 1 1 1 1 ∷ [])
layout_of xbgr8888 = of_planes (plane 4 1 1 1 1 ∷ [])
layout_of rgbx8888 = of_planes (plane 4 1 1 1 1 ∷ [])
layout_of bgrx8888 = of_planes (plane 4 1 1 1 1 ∷ [])
layout_of abgr8888 = of_planes (plane 4 1 1 1 1 ∷ [])
layout_of rgba8888 = of_planes (plane 4 1 1 1 1 ∷ [])
layout_of bgra8888 = of_planes (plane 4 1 1 1 1 ∷ [])
layout_of xrgb2101010 = of_planes (plane 4 1 1 1 1 ∷ [])
layout_of xbgr2101010 = of_planes (plane 4 1 1 1 1 ∷ [])
layout_of rgbx1010102 = of_planes (plane 4 1 1 1 1 ∷ [])
layout_of bgrx1010102 = of_planes (plane 4 1 1 1 1 ∷ [])
layout_of argb2101010 = of_planes (plane 4 1 1 1 1 ∷ [])
layout_of abgr2101010 = of_planes (plane 4 1 1 1 1 ∷ [])
layout_of rgba1010102 = of_planes (plane 4 1 1 1 1 ∷ [])
layout_of bgra1010102 = of_planes (plane 4 1 1 1 1 ∷ [])
layout_of ayuv = of_planes (plane 4 1 1 1 1 ∷ [])
layout_of avuy8888 = of_planes (plane 4 1 1 1 1 ∷ [])
layout_of xvuy8888 = of_planes (plane 4 1 1 1 1 ∷ [])
layout_of xyuv8888 = of_planes (plane 4 1 1 1 1 ∷ [])
layout_of xvyu2101010 = of_planes (plane 4 1 1 1 1 ∷ [])
layout_of rg1616 = of_planes (plane 4 1 1 1 1 ∷ [])
layout_of gr1616 = of_planes (plane 4 1 1 1 1 ∷ [])
layout_of y410 = of_planes (plane 4 1 1 1 1 ∷ [])
layout_of xrgb16161616f = of_planes (plane 8 1 1 1 1 ∷ [])
layout_of xbgr16161616f = of_planes (plane 8 1 1 1 1 ∷ [])
layout_of argb16161616f = of_planes (plane 8 1 1 1 1 ∷ [])
layout_of abgr16161616f = of_planes (plane 8 1 1 1 1 ∷ [])
layout_of xrgb16161616 = of_planes (plane 8 1 1 1 1 ∷ [])
layout_of xbgr16161616 = of_planes (plane 8 1 1 1 1 ∷ [])
layout_of argb16161616 = of_planes (plane 8 1 1 1 1 ∷ [])
layout_of abgr16161616 = of_planes (plane 8 1 1 1 1 ∷ [])
layout_of axbxgxrx106106106106 = of_planes (plane 8 1 1 1 1 ∷ [])
layout_of xvyu1216161616 = of_planes (plane 8 1 1 1 1 ∷ [])
layout_of xvyu16161616 = of_planes (plane 8 1 1 1 1 ∷ [])
layout_of y412 = of_planes (plane 8 1 1 1 1 ∷ [])
layout_of y416 = of_planes (plane 8 1 1 1 1 ∷ [])
layout_of r1 = of_planes (plane 1 8 1 8 1 ∷ [])
layout_of c1 = of_planes (plane 1 8 1 8 1 ∷ [])
layout_of d1 = of_planes (plane 1 8 1 8 1 ∷ [])
layout_of r2 = of_planes (plane 1 4 1 4 1 ∷ [])
layout_of c2 = of_planes (plane 1 4 1 4 1 ∷ [])
layout_of d2 = of_planes (plane 1 4 1 4 1 ∷ [])
layout_of r4 = of_planes (plane 1 2 1 2 1 ∷ [])
layout_of c4 = of_planes (plane 1 2 1 2 1 ∷ [])
layout_of d4 = of_planes (plane 1 2 1 2 1 ∷ [])
layout_of yuyv = of_planes (plane 4 2 1 2 1 ∷ [])
layout_of yvyu = of_planes (plane 4 2 1 2 1 ∷ [])
layout_of uyvy = of_planes (plane 4 2 1 2 1 ∷ [])
layout_of vyuy = of_planes (plane 4 2 1 2 1 ∷ [])
layout_of y210 = of_planes (plane 8 2 1 2 1 ∷ [])
layout_of y212 = of_planes (plane 8 2 1 2 1 ∷ [])
layout_of y216 = of_planes (plane 8 2 1 2 1 ∷ [])
layout_of y0l0 = of_planes (plane 8 2 2 2 2 ∷ [])
layout_of x0l0 = of_planes (plane 8 2 2 2 2 ∷ [])
layout_of y0l2 = of_planes (plane 8 2 2 2 2 ∷ [])
layout_of x0l2 = of_planes (plane 8 2 2 2 2 ∷ [])
layout_of rgb565a8 = of_planes planes_rgb565a8
layout_of bgr565a8 = of_planes planes_rgb565a8
layout_of rgb888a8 = of_planes planes_rgb888a8
layout_of bgr888a8 = of_planes planes_rgb888a8
layout_of xrgb8888a8 = of_planes planes_xrgb8888a8
layout_of xbgr8888a8 = of_planes planes_xrgb8888a8
layout_of rgbx8888a8 = of_planes planes_xrgb8888a8
layout_of bgrx8888a8 = of_planes planes_xrgb8888a8
layout_of nv12 = of_planes planes_nv12
layout_of nv21 = of_planes planes_nv12
layout_of nv16 = of_planes planes_nv16
layout_of nv61 = of_planes planes_nv16
layout_of nv24 = of_planes planes_nv24
layout_of nv42 = of_planes planes_nv24
layout_of nv15 = of_planes planes_nv15
layout_of p210 = of_planes planes_p210
layout_of p010 = of_planes planes_p210
layout_of p012 = of_planes planes_p210
layout_of p016 = of_planes planes_p210
layout_of p030 = of_planes planes_p030
layout_of yuv410 = of_planes planes_yuv410
layout_of yvu410 = of_planes planes_yuv410
layout_of yuv411 = of_planes planes_yuv411
layout_of yvu411 = of_planes planes_yuv411
layout_of yuv420 = of_planes planes_yuv420
layout_of yvu420 = of_planes planes_yuv420
layout_of yuv422 = of_planes planes_yuv422
layout_of yvu422 = of_planes planes_yuv422
layout_of yuv444 = of_planes planes_yuv444
layout_of yvu444 = of_planes planes_yuv444
layout_of q401 = of_planes planes_q401
layout_of q410 = of_planes planes_q401
layout_of yuv4208bit = none
layout_of yuv42010bit = none
layout_of vuy101010 = none

-- `fourcc` of four characters, by their codes
unfoldable pub fourcc : ℕ → ℕ → ℕ → ℕ → ℕ
fourcc a b c d = a + b * 2 ^ 8 + c * 2 ^ 16 + d * 2 ^ 24

unfoldable pub drm_to_wayland : ℕ → ℕ
unfolding fourcc
drm_to_wayland drm_format =
    if drm_format == fourcc b'A' b'R' b'2' b'4'
    then 0
    else if drm_format == fourcc b'X' b'R' b'2' b'4'
    then 1
    else drm_format

abbrev layout_from : Option WlShmFormat → Option FormatLayout
layout_from none = none
layout_from (some f) = layout_of f

unfoldable pub get_shm_format_layout : ℕ → Option FormatLayout
unfolding fourcc
get_shm_format_layout format =
    if format == fourcc b'N' b'V' b'2' b'0'
    then of_planes (plane 5 4 1 4 1 ∷ plane 5 4 1 2 1 ∷ [])
    else if format == fourcc b'N' b'V' b'3' b'0'
    then of_planes (plane 5 4 1 4 1 ∷ plane 5 2 1 2 1 ∷ [])
    else layout_from (try_from (drm_to_wayland format))
