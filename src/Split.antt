-- ===== src/Split.antt =====
-- `split_damage` of src/mainloop.rs: the damaged intervals of a buffer, shared out to the threads.
mod Shards
mod Cover
mod Tests
use waypipe.Base.{
  ℕ, zero, suc, ◌+◌, ◌-◌, ◌*◌, ◌/◌, ◌%◌, ◌^◌, Bool, true, false, ◌&&◌, Option, none, some, List, [],
  ◌∷◌, ltb, leb, ◌==◌, if◌then◌else◌, Outcome, ok, err, panic, ◌>>=◌, ◌>>◌, assert,
}
use waypipe.Util.{Total, fit, wrap32, split_interval, ceildiv}
use waypipe.Damage.{Interval}

abbrev pub diff_chunksize : ℕ
diff_chunksize = 262144

-- The first loop: the length of the whole chunks, and whether the rest of the buffer is damaged
unfoldable pub measure : ℕ → ℕ → List Interval → ℕ → Bool → Total (ℕ × Bool)
measure buf_size final_chunk [] net_len has_trailing = ok (net_len, has_trailing)
measure buf_size final_chunk ((a, b) ∷ intervals) net_len has_trailing = do
  assert (ltb a b)
  assert (a % 64 == 0 && b % 64 == 0)
  let inside = measure buf_size final_chunk intervals (net_len + (b - a)) has_trailing
  let beyond = measure buf_size final_chunk intervals net_len has_trailing
  let across : Total (ℕ × Bool) = do
    assert (leb a final_chunk)
    measure buf_size final_chunk intervals (net_len + (final_chunk - a)) true
  if ltb final_chunk b then (if ltb a buf_size then across else beyond) else inside

-- What the loop of one shard pushes, `prev_interval`, and what is left of `intv_iter`
abbrev pub Shard : Type 0
Shard = List Interval × Option Interval × List Interval

abbrev pub push : Interval → Shard → Shard
push e (out, prev, iter) = (e ∷ out, prev, iter)

abbrev pub trim : ℕ → Interval → Interval
trim final_chunk (a, b) = if ltb final_chunk b then (a, final_chunk) else (a, b)

abbrev pub as_u32s : Interval → Interval
as_u32s (a, b) = (wrap32 a, wrap32 b)

-- The loop of one shard, from the interval `cur` on, while bytes are wanted
unfoldable pub shard_loop : ℕ → Interval → List Interval → ℕ → Shard
shard_loop final_chunk cur [] remaining =
    let c = trim final_chunk cur in
    let size = wrap32 (c.1 - c.0) in
    if ltb final_chunk (cur.1) && leb final_chunk (cur.0)
    then ([], none, [])
    else if leb size remaining
    then (as_u32s c ∷ [], none, [])
    else ((wrap32 (c.0), wrap32 (wrap32 (c.0) + remaining)) ∷ [], some (c.0 + remaining, c.1), [])
shard_loop final_chunk cur (nxt ∷ iter) remaining =
    let c = trim final_chunk cur in
    let size = wrap32 (c.1 - c.0) in
    let more = shard_loop final_chunk nxt iter (remaining - size) in
    if ltb final_chunk (cur.1) && leb final_chunk (cur.0)
    then ([], none, nxt ∷ iter)
    else if leb size remaining
    then (if remaining - size == 0
        then (as_u32s c ∷ [], none, nxt ∷ iter)
        else push (as_u32s c) more)
    else (
      (wrap32 (c.0), wrap32 (wrap32 (c.0) + remaining)) ∷ [],
      some (c.0 + remaining, c.1),
      nxt ∷ iter,
    )

unfoldable pub take_shard : ℕ → Option Interval → List Interval → ℕ → Shard
take_shard final_chunk prev iter zero = ([], prev, iter)
take_shard final_chunk (some x) iter (suc n) = shard_loop final_chunk x iter (suc n)
take_shard final_chunk none [] (suc n) = ([], none, [])
take_shard final_chunk none (y ∷ iter) (suc n) = shard_loop final_chunk y iter (suc n)

-- The loop over `nshards` shards, of which `left` are still to do
unfoldable pub shards_loop :
    ℕ → ℕ → ℕ → ℕ → Option Interval → List Interval → Total (List (List Interval))
shards_loop final_chunk net_len nshards zero prev iter = ok []
shards_loop final_chunk net_len nshards (suc left) prev iter = do
  a ← split_interval 0 (net_len / 64) nshards (nshards - suc left)
  b ← split_interval 0 (net_len / 64) nshards (nshards - suc left + 1)
  let (out, prev', iter') = take_shard final_chunk prev iter (wrap32 (64 * b) - wrap32 (64 * a))
  rest ← shards_loop final_chunk net_len nshards left prev' iter'
  ok (out ∷ rest)

unfoldable pub split_damage : List Interval → ℕ → Total (ℕ × List (List Interval))
split_damage intervals buf_size = do
  let final_chunk = 64 * (buf_size / 64)
  (net, has_trailing) ← measure buf_size final_chunk intervals 0 false
  net_len ← fit 32 net
  assert (net_len % 64 == 0)
  let shared : Total (ℕ × List (List Interval)) = do
    nshards ← ceildiv (net_len / 64) (diff_chunksize / 64)
    parts ← shards_loop final_chunk net_len nshards nshards none intervals
    ok ((if has_trailing then buf_size % 64 else 0), parts)
  if net_len == 0
      then (if has_trailing then ok (buf_size % 64, [] ∷ []) else ok (0, []))
      else shared
