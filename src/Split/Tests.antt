-- ===== src/Split/Tests.antt =====
-- A run of `split_damage` of src/mainloop.rs, and the theorem at a concrete list.
use waypipe.Base.{◌≡◌, refl, arith, List, [], ◌∷◌, ℕ, ◌≤◌, All, ok, inl}
use waypipe.Util.{split_interval, ceildiv}
use waypipe.Damage.{Interval}
use waypipe.Damage.Cover.{Covers}
use waypipe.Split.{diff_chunksize, measure, shard_loop, take_shard, shards_loop, split_damage}
use waypipe.Split.Shards.{span}
use waypipe.Split.Cover.{join, split_damage-Covers}

-- A large interval, and one that is rounded up over the end of a buffer of 524340 bytes
abbrev damage : List Interval
damage = (64, 393280) ∷ (524288, 524352) ∷ []

split_run : split_damage damage 524340 ≡ ok (52, ((64, 196672) ∷ []) ∷ ((196672, 393280) ∷ []) ∷ [])
unfolding split_damage measure shards_loop take_shard shard_loop split_interval ceildiv
split_run = refl

damage_covered :
    (trailing : ℕ) × (parts : List (List Interval)) × (split_damage damage 524340
      ≡ ok (trailing, parts))
    × Covers 200000 (join parts)
    × All (λ part. span part ≤ diff_chunksize) parts
damage_covered =
    split_damage-Covers damage 524340 200000 (omega arith) (ground arith) (ground arith)
      (omega arith) (inl (omega arith))
