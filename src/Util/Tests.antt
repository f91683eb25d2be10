-- ===== src/Util/Tests.antt =====
-- Runs of the functions of src/util.rs, and the theorems at concrete inputs.
use waypipe.Base.{ℕ, ◌+◌, ◌*◌, ◌^◌, ◌≤◌, ◌<◌, ◌≡◌, refl, arith, some, none, ok, panic, IsU32, IsU64}
use waypipe.Util.{
  code, of_code, open_file, version, build_wmsg_header, parse_wmsg_header, align, split_interval,
  split_u64, join_u64,
}
use waypipe.Util.Header.{parse_wmsg_header-build_wmsg_header, build_wmsg_header-parse_wmsg_header}
use waypipe.Util.Interval.{align_lem, split_interval_parts}
use waypipe.Util.Words.{join_u64-split_u64}

build_version : build_wmsg_header version 8 ≡ ok 279
unfolding build_wmsg_header code
build_version = refl

build_too_long : build_wmsg_header version (2 ^ 27) ≡ panic
unfolding build_wmsg_header code
build_too_long = refl

parse_version : parse_wmsg_header 279 ≡ some (8, version)
unfolding parse_wmsg_header of_code
parse_version = refl

parse_unknown : parse_wmsg_header (32 * 5 + 24) ≡ none
unfolding parse_wmsg_header of_code
parse_unknown = refl

split_three_parts : split_interval 10 20 3 1 ≡ ok 13
unfolding split_interval
split_three_parts = refl

wmsg_header_example :
    (h : ℕ) × (build_wmsg_header open_file 12 ≡ ok h)
    × IsU32 h
    × (parse_wmsg_header h ≡ some (12, open_file))
wmsg_header_example = parse_wmsg_header-build_wmsg_header open_file 12 (omega arith)

parsed_example : build_wmsg_header version 8 ≡ ok 279
unfolding parse_wmsg_header of_code
parsed_example = build_wmsg_header-parse_wmsg_header 279 8 version (omega arith) refl

align_example : (k : ℕ) × (align 13 4 ≡ ok (4 * k)) × (13 ≤ 4 * k) × (4 * k < 13 + 4)
align_example = align_lem 13 4 (omega arith) (omega arith)

split_example :
    (split_interval 10 20 3 0 ≡ ok 10)
    × (split_interval 10 20 3 3 ≡ ok 20)
    × (b : ℕ) × (b' : ℕ) × (split_interval 10 20 3 1 ≡ ok b)
    × (split_interval 10 20 3 2 ≡ ok b')
    × (b + 3 ≤ b')
    × (b' ≤ b + 3 + 1)
split_example =
    split_interval_parts 10 20 3 1 (omega arith) (omega arith) (omega arith) (omega arith)
      (omega arith)

words_example :
    (let (high, low) = split_u64 (2 ^ 40) in (join_u64 high low ≡ 2 ^ 40) × IsU32 high × IsU32 low)
    × (split_u64 (join_u64 3 4) ≡ (3, 4))
    × IsU64 (join_u64 3 4)
words_example = join_u64-split_u64 (2 ^ 40) 3 4 (omega arith) (omega arith) (omega arith)
