-- ===== src/Util.antt =====
-- src/util.rs: the headers of the messages between the two Waypipe instances, and the arithmetic
-- that the other parts share.
pub mod Header
pub mod Interval
mod Words
mod Tests
use waypipe.Base.{
  ℕ, ◌+◌, ◌-◌, ◌*◌, ◌/◌, ◌%◌, ◌^◌, bit_or, Option, none, some, List, [], ◌∷◌, ltb, leb, ◌==◌,
  if◌then◌else◌, ◌&&◌, Outcome, ok, panic, ◌>>=◌, ◌>>◌, assert, unwrap, usize_max, Bool, true,
  false,
}

-- `WmsgType`, the kinds of messages
pub data WmsgType : Type 0 where
  protocol inject_rids open_file extend_file open_dmabuf buffer_fill buffer_diff : WmsgType
  open_ir_pipe open_iw_pipe open_rw_pipe pipe_transfer pipe_shutdown_r pipe_shutdown_w : WmsgType
  open_dmavid_src open_dmavid_dst send_dmavid_packet ack_nblocks restart close : WmsgType
  open_dmavid_src_v2 open_dmavid_dst_v2 open_timeline signal_timeline version : WmsgType

-- `typ as u32`
unfoldable pub code : WmsgType → ℕ
code protocol = 0
code inject_rids = 1
code open_file = 2
code extend_file = 3
code open_dmabuf = 4
code buffer_fill = 5
code buffer_diff = 6
code open_ir_pipe = 7
code open_iw_pipe = 8
code open_rw_pipe = 9
code pipe_transfer = 10
code pipe_shutdown_r = 11
code pipe_shutdown_w = 12
code open_dmavid_src = 13
code open_dmavid_dst = 14
code send_dmavid_packet = 15
code ack_nblocks = 16
code restart = 17
code close = 18
code open_dmavid_src_v2 = 19
code open_dmavid_dst_v2 = 20
code open_timeline = 21
code signal_timeline = 22
code version = 23

-- The `match code` of `parse_wmsg_header`
unfoldable pub of_code : ℕ → Option WmsgType
of_code c =
    if c == 0
    then some protocol
    else if c == 1
    then some inject_rids
    else if c == 2
    then some open_file
    else if c == 3
    then some extend_file
    else if c == 4
    then some open_dmabuf
    else if c == 5
    then some buffer_fill
    else if c == 6
    then some buffer_diff
    else if c == 7
    then some open_ir_pipe
    else if c == 8
    then some open_iw_pipe
    else if c == 9
    then some open_rw_pipe
    else if c == 10
    then some pipe_transfer
    else if c == 11
    then some pipe_shutdown_r
    else if c == 12
    then some pipe_shutdown_w
    else if c == 13
    then some open_dmavid_src
    else if c == 14
    then some open_dmavid_dst
    else if c == 15
    then some send_dmavid_packet
    else if c == 16
    then some ack_nblocks
    else if c == 17
    then some restart
    else if c == 18
    then some close
    else if c == 19
    then some open_dmavid_src_v2
    else if c == 20
    then some open_dmavid_dst_v2
    else if c == 21
    then some open_timeline
    else if c == 22
    then some signal_timeline
    else if c == 23
    then some version
    else none

-- A function with no error of its own
abbrev pub Total : Type 0 → Type 0
Total A = Outcome ⊥ A

-- A value that must fit the type with `2 ^ w` values: `try_from(x).unwrap()`, `checked_mul(…).unwrap()`
abbrev pub fit : ℕ → ℕ → Total ℕ
fit w x = if ltb x (2 ^ w) then ok x else panic

unfoldable pub build_wmsg_header : WmsgType → ℕ → Total ℕ
build_wmsg_header typ len = do
  len32 ← fit 32 len
  shifted ← fit 32 (len32 * 2 ^ 5)
  ok (bit_or shifted (code typ))

-- `header & ((1 << 5) - 1)` is the remainder, `header >> 5` the quotient.
unfoldable pub parse_wmsg_header : ℕ → Option (ℕ × WmsgType)
parse_wmsg_header header = elim (of_code (header % 2 ^ 5)) [
  | none ↦ none
  | some t ↦ some (header / 2 ^ 5, t)
]

-- `y - 1` and the sum are checked; `y * (…)` is at most the sum.
unfoldable pub align : ℕ → ℕ → Total ℕ
align x y = do assert (ltb 0 y); sum ← fit 64 (x + (y - 1)); ok (y * (sum / y))

unfoldable pub align4 : ℕ → Total ℕ
unfolding align
align4 x = align x 4

-- u32 arithmetic of a release build
abbrev pub wrap32 : ℕ → ℕ
wrap32 x = x % 2 ^ 32

unfoldable pub split_interval : ℕ → ℕ → ℕ → ℕ → Total ℕ
split_interval lo hi nparts index = do
  let size = wrap32 (2 ^ 32 + hi - lo)
  assert (ltb nparts (2 ^ 15) && ltb size (2 ^ 31))
  assert (ltb 0 nparts)
  ok (
      wrap32 (
        wrap32 (lo + wrap32 (index * (size / nparts))) + wrap32 (index * (size % nparts)) / nparts))

unfoldable pub ceildiv : ℕ → ℕ → Total ℕ
ceildiv v u = do assert (ltb 0 u); ok (if v % u == 0 then v / u else v / u + 1)

-- High and low parts of a u64
unfoldable pub split_u64 : ℕ → ℕ × ℕ
split_u64 x = (x / 2 ^ 32 % 2 ^ 32, x % 2 ^ 32)

unfoldable pub join_u64 : ℕ → ℕ → ℕ
join_u64 hi lo = bit_or (hi * 2 ^ 32) lo
