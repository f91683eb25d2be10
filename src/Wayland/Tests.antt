-- ===== src/Wayland/Tests.antt =====
-- Runs of the readers and writers of src/wayland.rs, and the theorems at concrete messages.
use waypipe.Base.{
  ℕ, ◌+◌, ◌*◌, ◌/◌, ◌≡◌, refl, ◌⊎◌, List, [], ◌∷◌, ◌++◌, arith, some, none, length, drop, replicate,
  ok, err, slice, copy_at, to_le_bytes, from_le_bytes, read_word,
}
use waypipe.Wayland.{
  Cursor, parse_error, parse_wl_header, write_header, parse_array, write_array, parse_string,
  write_string, length_array, length_string,
}
use waypipe.Wayland.Header.{parse_wl_header-write_header}
use waypipe.Wayland.Arguments.{parse_array-write_array, parse_string-write_string}
use waypipe.Wayland.Total.{parse_array_total}

abbrev buffer : Cursor
buffer = record { written = 7 ∷ []; tail = replicate 16 9 }

-- "hi", with its length, its terminator and a byte of padding
abbrev hi : List ℕ
hi = 3 ∷ 0 ∷ 0 ∷ 0 ∷ b'h' ∷ b'i' ∷ 0 ∷ 0 ∷ []

write_hi :
    write_string buffer (some (b'h' ∷ b'i' ∷ []))
    ≡ ok (record { written = 7 ∷ hi; tail = replicate 8 9 })
unfolding write_string length_string length_array copy_at to_le_bytes
write_hi = refl

parse_hi : parse_string (hi ++ 1 ∷ []) ≡ ok (some (b'h' ∷ b'i' ∷ []), 1 ∷ [])
unfolding parse_string parse_array slice from_le_bytes
parse_hi = refl

parse_null : parse_string (0 ∷ 0 ∷ 0 ∷ 0 ∷ 5 ∷ []) ≡ ok (none, 5 ∷ [])
unfolding parse_string parse_array slice from_le_bytes
parse_null = refl

-- The length word promises more than there is.
parse_short : parse_array (5 ∷ 0 ∷ 0 ∷ 0 ∷ 1 ∷ 2 ∷ 3 ∷ 4 ∷ []) ≡ err parse_error
unfolding parse_array slice from_le_bytes
parse_short = refl

parse_header : parse_wl_header (1 ∷ 0 ∷ 0 ∷ 0 ∷ 3 ∷ 8 ∷ 12 ∷ 0 ∷ []) ≡ ok (1, 12, 3)
unfolding parse_wl_header read_word slice from_le_bytes
parse_header = refl

header_example :
    (enc : List ℕ) × (write_header buffer 1 12 3 1
      ≡ ok (record { written = 7 ∷ [] ++ enc; tail = drop 8 (replicate 16 9) }))
    × (length enc ≡ 8)
    × ((rest : List ℕ) → parse_wl_header (enc ++ rest) ≡ ok (1, 12, 3))
header_example =
    parse_wl_header-write_header buffer 1 12 3 1 (omega arith) (omega arith) (omega arith)
      (omega arith) (omega arith)

array_example :
    (enc : List ℕ) × (write_array buffer (5 ∷ 6 ∷ [])
      ≡ ok (record { written = 7 ∷ [] ++ enc; tail = drop (length_array 2) (replicate 16 9) }))
    × (length enc ≡ length_array 2)
    × ((rest : List ℕ) → parse_array (enc ++ rest) ≡ ok (5 ∷ 6 ∷ [], rest))
unfolding length_array
array_example = parse_array-write_array buffer (5 ∷ 6 ∷ []) (omega arith) (omega arith)

string_example :
    (enc : List ℕ) × (write_string buffer (some (b'h' ∷ b'i' ∷ []))
      ≡ ok (record { written = 7 ∷ [] ++ enc; tail = drop (length_string 2) (replicate 16 9) }))
    × (length enc ≡ length_string 2)
    × ((rest : List ℕ) → parse_string (enc ++ rest) ≡ ok (some (b'h' ∷ b'i' ∷ []), rest))
unfolding length_string
string_example = parse_string-write_string buffer (b'h' ∷ b'i' ∷ []) (omega arith) (omega arith)

total_example :
    (parse_array (hi ++ 1 ∷ []) ≡ err parse_error)
    ⊎ ((v : List ℕ) × (rest : List ℕ) × (parse_array (hi ++ 1 ∷ []) ≡ ok (v, rest))
        × (length rest + 4 + (length v + 3) / 4 * 4 ≡ 9))
total_example = parse_array_total (hi ++ 1 ∷ [])
