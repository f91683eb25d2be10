-- ===== src/Wayland.antt =====
-- src/wayland.rs: reading and writing the parts of a Wayland message.
-- A `&[u8]` is a list of bytes. A reader returns its value with the tail that it leaves.
mod Layout
mod Header
mod Arguments
mod Total
mod Tests
use waypipe.Base.{
  ℕ, ◌+◌, ◌-◌, ◌*◌, ◌/◌, ◌%◌, ◌^◌, min, bit_or, Option, none, some, List, [], ◌∷◌, ◌++◌, length,
  take, drop, replicate, ltb, leb, ◌==◌, if◌then◌else◌, ◌&&◌, Outcome, ok, err, ◌>>=◌, ◌>>◌, assert,
  ensure, unwrap, ok_or, slice, copy_at, to_le_bytes, read_word, usize_max,
}

-- `PARSE_ERROR`, the only error of this module
pub data ParseError : Type 0 where
  parse_error : ParseError

abbrev pub Parsed : Type 0 → Type 0
Parsed A = Outcome ParseError A

-- An object id, the length and the opcode of a message; `as u8` keeps the low byte.
unfoldable pub parse_wl_header : List ℕ → Parsed (ℕ × ℕ × ℕ)
parse_wl_header msg = do
  obj_id ← read_word msg 0
  x ← read_word msg 4
  ok (obj_id, x / 2 ^ 16, x % 2 ^ 8)

unfoldable pub parse_u32 : List ℕ → Parsed (ℕ × List ℕ)
unfolding read_word
parse_u32 msg_tail = do
  ensure (leb 4 (length msg_tail)) parse_error
  val ← read_word msg_tail 0
  ok (val, drop 4 msg_tail)

unfoldable pub parse_obj : List ℕ → Parsed (ℕ × List ℕ)
unfolding parse_u32
parse_obj msg_tail = parse_u32 msg_tail

-- `x.checked_next_multiple_of(m)` on usize
unfoldable pub checked_next_multiple_of : ℕ → ℕ → Option ℕ
checked_next_multiple_of x m =
    let up = (x + (m - 1)) / m * m in if leb up usize_max then some up else none

unfoldable pub parse_array : List ℕ → Parsed (List ℕ × List ℕ)
unfolding read_word checked_next_multiple_of
parse_array msg_tail = do
  ensure (leb 4 (length msg_tail)) parse_error
  len ← read_word msg_tail 0
  space ← ok_or (checked_next_multiple_of len 4) parse_error
  ensure (leb space (length msg_tail - 4)) parse_error
  ret ← unwrap (slice msg_tail 4 (4 + len))
  ok (ret, drop (4 + space) msg_tail)

-- An empty array stands for the null string; of another the last byte is dropped.
unfoldable pub parse_string : List ℕ → Parsed (Option (List ℕ) × List ℕ)
parse_string msg_tail = do
  (v, rest) ← parse_array msg_tail
  ok ((if length v == 0 then none else some (take (length v - 1) v)), rest)

-- `a.saturating_add(b)` on usize
abbrev saturating_add : ℕ → ℕ → ℕ
saturating_add a b = min (a + b) usize_max

unfoldable pub length_array : ℕ → ℕ
unfolding checked_next_multiple_of
length_array arr_len = elim (checked_next_multiple_of arr_len 4) [
  | none ↦ saturating_add usize_max 4
  | some up ↦ saturating_add up 4
]

unfoldable pub length_string : ℕ → ℕ
unfolding length_array
length_string str_len_unterminated = length_array (saturating_add str_len_unterminated 1)

-- `&mut &mut [u8]`: a buffer whose front has been written and whose tail is still to be written
pub record Cursor : Type 0 where
  pub written : List ℕ
  pub tail : List ℕ

-- `*tail = &mut std::mem::take(tail)[n..]`, after writes that left the bytes `buf` in the tail
unfoldable pub advance : Cursor → List ℕ → ℕ → Parsed Cursor
advance c buf n = do
  assert (leb n (length buf))
  ok (record { written = c.written ++ take n buf; tail = drop n buf })

-- `|` of the three fields; the assertions keep them apart.
unfoldable pub write_header : Cursor → ℕ → ℕ → ℕ → ℕ → Parsed Cursor
unfolding advance
write_header c obj_id len opcode ntagfds = do
  assert (ltb len (2 ^ 16) && (ltb ntagfds (2 ^ 5) && ltb opcode (2 ^ 8)))
  let p = bit_or (bit_or (len * 2 ^ 16) (ntagfds * 2 ^ 11)) (opcode % 2 ^ 8)
  a ← unwrap (copy_at c.tail 0 (to_le_bytes obj_id))
  b ← unwrap (copy_at a 4 (to_le_bytes p))
  advance c b 8

unfoldable pub write_u32 : Cursor → ℕ → Parsed Cursor
unfolding advance
write_u32 c val = do a ← unwrap (copy_at c.tail 0 (to_le_bytes val)); advance c a 4

unfoldable pub write_obj : Cursor → ℕ → Parsed Cursor
unfolding write_u32
write_obj c val = write_u32 c val

-- `buf[a..b].fill(0)`
unfoldable pub fill_zero : List ℕ → ℕ → ℕ → Option (List ℕ)
fill_zero buf a b = if leb a b then copy_at buf a (replicate (b - a) 0) else none

-- `s.len() as u32` keeps the low 32 bits.
unfoldable pub write_array : Cursor → List ℕ → Parsed Cursor
unfolding advance fill_zero
write_array c s = do
  a ← unwrap (copy_at c.tail 0 (to_le_bytes (length s % 2 ^ 32)))
  b ← unwrap (copy_at a 4 s)
  let e = length_array (length s)
  d ← unwrap (fill_zero b (length s + 4) e)
  advance c d e

-- The terminator is the first of the zeros that fill the space. `+ 1` on u32 wraps in a release
-- build.
unfoldable pub write_string : Cursor → Option (List ℕ) → Parsed Cursor
unfolding advance fill_zero
write_string c (some s) = do
  a ← unwrap (copy_at c.tail 0 (to_le_bytes ((length s % 2 ^ 32 + 1) % 2 ^ 32)))
  b ← unwrap (copy_at a 4 s)
  let e = length_string (length s)
  d ← unwrap (fill_zero b (length s + 4) e)
  advance c d e
write_string c none = do a ← unwrap (fill_zero c.tail 0 4); advance c a 4
