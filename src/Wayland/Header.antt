-- ===== src/Wayland/Header.antt =====
-- The header of a message: `write_header` and `parse_wl_header` of src/wayland.rs.
use waypipe.Base.{
  ℕ, ◌+◌, ◌*◌, ◌%◌, ◌^◌, ◌≤◌, ◌<◌, ◌≡◌, refl, sym, ap, ◌∙◌, List, [], ◌++◌, append_assoc, arith,
  length, drop, length-append, length-drop, drop-drop, lt→ltb, ok, bit_or, bit_or_disjoint,
  read_word_behind, copy_at_behind, to_le_bytes, length-to_le_bytes, IsU32, some, copy_at,
}
use waypipe.Wayland.{Cursor, ParseError, parse_wl_header, write_header}
use waypipe.Wayland.Layout.{write_word_front, advance_over}

-- The second word of a header.
abbrev size_word : ℕ → ℕ → ℕ → ℕ
size_word len opcode ntagfds = bit_or (bit_or (len * 2 ^ 16) (ntagfds * 2 ^ 11)) (opcode % 2 ^ 8)

-- Its fields do not overlap.
size_word_fields :
    (len opcode ntagfds : ℕ)
    → len < 2 ^ 16
    → opcode < 2 ^ 8
    → ntagfds < 2 ^ 5
    → size_word len opcode ntagfds ≡ len * 2 ^ 16 + ntagfds * 2 ^ 11 + opcode
size_word_fields len opcode ntagfds hl ho hn =
    ap (λ t. bit_or t (opcode % 2 ^ 8)) (bit_or_disjoint 16 len (ntagfds * 2 ^ 11) (omega arith))
    ∙ ap (λ t. bit_or t (opcode % 2 ^ 8)) {y = (len * 32 + ntagfds) * 2 ^ 11} (omega arith)
    ∙ bit_or_disjoint 11 (len * 32 + ntagfds) (opcode % 2 ^ 8) (omega arith)
    ∙ omega arith

-- A second word behind the first.
two_words :
    (xs : List ℕ) (a b : ℕ)
    → 8 ≤ length xs
    → copy_at (to_le_bytes a ++ drop 4 xs) 4 (to_le_bytes b)
      ≡ some ((to_le_bytes a ++ to_le_bytes b) ++ drop 8 xs)
two_words xs a b h =
    copy_at_behind (to_le_bytes a) (drop 4 xs) 4 (to_le_bytes b) (sym (length-to_le_bytes a))
      (omega (arith, length-to_le_bytes b, length-drop 4 xs))
    ∙ rw (length-to_le_bytes b, drop-drop 4 4 8 xs refl, append_assoc) refl

header_read :
    (obj_id len opcode ntagfds : ℕ) (rest : List ℕ)
    → IsU32 obj_id
    → len < 2 ^ 16
    → opcode < 2 ^ 8
    → ntagfds < 2 ^ 5
    → parse_wl_header ((to_le_bytes obj_id ++ to_le_bytes (size_word len opcode ntagfds)) ++ rest)
      ≡ ok (obj_id, len, opcode)
unfolding parse_wl_header
header_read obj_id len opcode ntagfds rest hi hl ho hn =
    let p = size_word len opcode ntagfds in
    let fields = size_word_fields len opcode ntagfds hl ho hn in
    rw
      (
        append_assoc (to_le_bytes obj_id) (to_le_bytes p) rest,
        read_word_behind {E = ParseError} [] (to_le_bytes p ++ rest) obj_id 0 hi refl,
        read_word_behind {E = ParseError} (to_le_bytes obj_id) rest p 4 (omega (arith, fields))
            (sym (length-to_le_bytes obj_id)),
      )
      (ap ok (ground (arith, fields)))

-- Where the tail has eight bytes, a header with an object id below 2^32 and fields in the ranges
-- that the code asserts is written in eight bytes, and `parse_wl_header` reads back the object,
-- the length and the opcode, for any number of tagged file descriptors and whatever follows.
pub parse_wl_header-write_header :
    (c : Cursor) (obj_id len opcode ntagfds : ℕ)
    → IsU32 obj_id
    → len < 2 ^ 16
    → opcode < 2 ^ 8
    → ntagfds < 2 ^ 5
    → 8 ≤ length c.tail
    → (enc : List ℕ) × (write_header c obj_id len opcode ntagfds
        ≡ ok (record { written = c.written ++ enc; tail = drop 8 c.tail }))
      × (length enc ≡ 8)
      × ((rest : List ℕ) → parse_wl_header (enc ++ rest) ≡ ok (obj_id, len, opcode))
unfolding write_header
parse_wl_header-write_header c obj_id len opcode ntagfds hi hl ho hn room =
    let p = size_word len opcode ntagfds in
    (
      to_le_bytes obj_id ++ to_le_bytes p,
      rw
          (
            lt→ltb len (2 ^ 16) hl,
            lt→ltb ntagfds (2 ^ 5) hn,
            lt→ltb opcode (2 ^ 8) ho,
            write_word_front c.tail obj_id (omega arith),
            two_words c.tail obj_id p room,
          )
          (advance_over c (to_le_bytes obj_id ++ to_le_bytes p) (drop 8 c.tail) 8 (
            omega (
              arith,
              length-append (to_le_bytes obj_id) (to_le_bytes p),
              length-to_le_bytes obj_id,
              length-to_le_bytes p,
            ))),
      omega (
        arith,
        length-append (to_le_bytes obj_id) (to_le_bytes p),
        length-to_le_bytes obj_id,
        length-to_le_bytes p,
      ),
      λ rest. header_read obj_id len opcode ntagfds rest hi hl ho hn,
    )
