-- ===== src/Util/Words.antt =====
-- `split_u64` and `join_u64` of src/util.rs.
use waypipe.Base.{ℕ, ◌/◌, ◌%◌, ◌^◌, ◌≡◌, arith, bit_or_disjoint, IsU32, IsU64}
use waypipe.Util.{split_u64, join_u64}

-- `split_u64` and `join_u64` are inverse to one another: a u64 is the join of its parts, which
-- fit a u32 each, and two u32 words are the parts of their join, which fits a u64.
pub join_u64-split_u64 :
    (x hi lo : ℕ)
    → IsU64 x
    → IsU32 hi
    → IsU32 lo
    → (let (high, low) = split_u64 x in (join_u64 high low ≡ x) × IsU32 high × IsU32 low)
      × (split_u64 (join_u64 hi lo) ≡ (hi, lo))
      × IsU64 (join_u64 hi lo)
unfolding split_u64 join_u64
join_u64-split_u64 x hi lo h k l =
    let parts = bit_or_disjoint 32 (x / 2 ^ 32 % 2 ^ 32) (x % 2 ^ 32) in
    let whole = bit_or_disjoint 32 hi lo in
    (ground (arith, parts), ground (arith, whole), ground (arith, whole))
