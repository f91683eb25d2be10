-- ===== src/Util/Header.antt =====
-- The header word of a message: `build_wmsg_header` and `parse_wmsg_header` of src/util.rs.
use waypipe.Base.{
  ℕ, ◌+◌, ◌*◌, ◌/◌, ◌%◌, ◌^◌, ◌<◌, ◌≡◌, refl, arith, some, ok, bit_or_disjoint, IsU32,
}
use waypipe.Util.{WmsgType, protocol, code, of_code, build_wmsg_header, parse_wmsg_header}

code-lt : (t : WmsgType) → code t < 24
unfolding code
code-lt protocol = omega arith
code-lt _ = omega arith

of_code-code : (t : WmsgType) → of_code (code t) ≡ some t
unfolding code of_code
of_code-code protocol = refl
of_code-code _ = refl

code-of_code : (c : ℕ) (t : WmsgType) → of_code c ≡ some t → code t ≡ c
unfolding code of_code
code-of_code c t h = ground arith

build_lem :
    (t : WmsgType) (len : ℕ) → len < 2 ^ 27 → build_wmsg_header t len ≡ ok (len * 2 ^ 5 + code t)
unfolding build_wmsg_header
build_lem t len h = ground (arith, bit_or_disjoint 5 len (code t), code-lt t)

-- A length below 2^27 and any message type make a header, which fits a u32, and parsing it
-- returns both.
pub parse_wmsg_header-build_wmsg_header :
    (t : WmsgType) (len : ℕ)
    → len < 2 ^ 27
    → (h : ℕ) × (build_wmsg_header t len ≡ ok h) × IsU32 h × (parse_wmsg_header h ≡ some (len, t))
unfolding parse_wmsg_header
parse_wmsg_header-build_wmsg_header t len h =
    let low : (len * 2 ^ 5 + code t) % 2 ^ 5 ≡ code t = omega (arith, code-lt t) in
    let high : (len * 2 ^ 5 + code t) / 2 ^ 5 ≡ len = omega (arith, code-lt t) in
    (
      len * 2 ^ 5 + code t,
      build_lem t len h,
      omega (arith, code-lt t),
      ground (arith, low, high, of_code-code t),
    )

-- A u32 header that parses is the one that `build_wmsg_header` makes of its length and type.
pub build_wmsg_header-parse_wmsg_header :
    (h len : ℕ) (t : WmsgType)
    → IsU32 h
    → parse_wmsg_header h ≡ some (len, t)
    → build_wmsg_header t len ≡ ok h
unfolding parse_wmsg_header
build_wmsg_header-parse_wmsg_header h len t fits e =
    ground (arith, build_lem t len, code-of_code (h % 2 ^ 5) t)
