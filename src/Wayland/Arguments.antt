-- ===== src/Wayland/Arguments.antt =====
-- Reading back what was written: arrays, strings and words of src/wayland.rs.
use waypipe.Base.{
  ℕ, zero, suc, ◌+◌, ◌-◌, ◌*◌, ◌/◌, ◌%◌, ◌^◌, ◌≤◌, ◌<◌, ◌≡◌, refl, sym, ap, ◌∙◌, List, [], ◌∷◌,
  ◌++◌, append_assoc, arith, some, length, drop, replicate, length-append, length-replicate,
  drop-append, take-append, le→leb, ok, slice_mid, to_le_bytes, from_le_bytes-to_le_bytes,
  length-to_le_bytes, IsU32, usize_max,
}
use waypipe.Wayland.{
  Cursor, parse_u32, parse_array, parse_string, length_array, length_string, write_u32, write_array,
  write_string,
}
use waypipe.Wayland.Layout.{padded, length-padded, write_padded_lem, write_word_front, advance_over}

-- An array that stands at the front of a message, with padding up to a multiple of four.
pub parse_array_lem :
    (t pad rest : List ℕ)
    → IsU32 (length t)
    → length t + length pad ≡ (length t + 3) / 4 * 4
    → parse_array (to_le_bytes (length t) ++ (t ++ (pad ++ rest))) ≡ ok (t, rest)
unfolding parse_array
parse_array_lem t pad rest h e =
    let n = length t in
    let l = to_le_bytes n in
    rw (
      le→leb 4 (length (l ++ (t ++ (pad ++ rest)))) (omega (arith, total)),
      slice_mid [] l (t ++ (pad ++ rest)) 0 4 refl (omega (arith, length-to_le_bytes n)),
      from_le_bytes-to_le_bytes n h,
      le→leb ((n + 3) / 4 * 4) usize_max (omega arith),
      le→leb ((n + 3) / 4 * 4) (length (l ++ (t ++ (pad ++ rest))) - 4) (omega (arith, total)),
      slice_mid l t (pad ++ rest) 4 (4 + n) (sym (length-to_le_bytes n)) refl,
      behind,
    )
  where
    total :
        length (to_le_bytes (length t) ++ (t ++ (pad ++ rest)))
        ≡ 4 + (length t + (length pad + length rest))
    total = omega (
      arith,
      length-append (to_le_bytes (length t)) (t ++ (pad ++ rest)),
      length-append t (pad ++ rest),
      length-append pad rest,
      length-to_le_bytes (length t),
    )

    behind :
        drop (4 + (length t + 3) / 4 * 4) (to_le_bytes (length t) ++ (t ++ (pad ++ rest))) ≡ rest
    behind =
        ap (drop (4 + (length t + 3) / 4 * 4)) (
          sym (append_assoc (to_le_bytes (length t)) t (pad ++ rest))
          ∙ sym (append_assoc (to_le_bytes (length t) ++ t) pad rest))
        ∙ drop-append ((to_le_bytes (length t) ++ t) ++ pad) rest (4 + (length t + 3) / 4 * 4) (
            omega (
              arith,
              length-append (to_le_bytes (length t) ++ t) pad,
              length-append (to_le_bytes (length t)) t,
              length-to_le_bytes (length t),
            ))

-- The space of an array and of a string, where it does not overflow.
length_array_lem : (n : ℕ) → n < 2 ^ 63 → length_array n ≡ (n + 3) / 4 * 4 + 4
unfolding length_array
length_array_lem n h = ground arith

length_string_lem : (n : ℕ) → n < 2 ^ 62 → length_string n ≡ (n + 1 + 3) / 4 * 4 + 4
unfolding length_string
length_string_lem n h = ground arith

small_mod : (n : ℕ) → IsU32 n → n % 2 ^ 32 ≡ n
small_mod n h = omega arith

padded_split :
    (n : ℕ) (s : List ℕ) (e : ℕ) (rest : List ℕ)
    → padded n s e ++ rest ≡ to_le_bytes n ++ (s ++ (replicate (e - (length s + 4)) 0 ++ rest))
padded_split n s e rest = simp append_assoc

replicate_pos {ℓ} : {A : Type ℓ} (n : ℕ) (a : A) → 0 < n → replicate n a ≡ a ∷ replicate (n - 1) a
replicate_pos zero a h = absurd (omega arith)
replicate_pos (suc n) a h = ap (λ k. a ∷ replicate k a) (omega arith)

-- Where the tail has room, an array below 2^32 bytes is written in `length_array` bytes, the rest
-- of the tail is left alone, and `parse_array` reads the array back from the bytes written,
-- whatever follows them.
pub parse_array-write_array :
    (c : Cursor) (s : List ℕ)
    → IsU32 (length s)
    → length_array (length s) ≤ length c.tail
    → (enc : List ℕ) × (write_array c s
        ≡ ok (record { written = c.written ++ enc; tail = drop (length_array (length s)) c.tail }))
      × (length enc ≡ length_array (length s))
      × ((rest : List ℕ) → parse_array (enc ++ rest) ≡ ok (s, rest))
unfolding write_array
parse_array-write_array c s h room =
    let n = length s in
    let e = length_array n in
    let space = length_array_lem n (omega arith) in
    (
      padded n s e,
      rw (small_mod n h) (write_padded_lem c n s e (omega (arith, space)) room),
      length-padded n s e (omega (arith, space)),
      λ rest.
          ap parse_array (padded_split n s e rest)
          ∙ parse_array_lem s (replicate (e - (n + 4)) 0) rest h
              (omega (arith, space, length-replicate {A = ℕ} (e - (n + 4)) 0)),
    )

-- The first of the padding zeros is the terminator.
terminated :
    (s : List ℕ) (e : ℕ) (rest : List ℕ)
    → length s + 5 ≤ e
    → padded (length s + 1) s e ++ rest
      ≡ to_le_bytes (length (s ++ 0 ∷ []))
        ++ ((s ++ 0 ∷ []) ++ (replicate (e - (length s + 5)) 0 ++ rest))
terminated s e rest h =
    padded_split (length s + 1) s e rest
    ∙ rw
        (
          replicate_pos {A = ℕ} (e - (length s + 4)) 0 (omega arith),
          length-append s (0 ∷ []),
          append_assoc s (0 ∷ []) (replicate (e - (length s + 5)) 0 ++ rest),
        )
        (ap (λ k. to_le_bytes (length s + 1) ++ (s ++ (0 ∷ (replicate k 0 ++ rest)))) (omega arith))

parse_string_lem :
    (msg s rest : List ℕ)
    → parse_array msg ≡ ok (s ++ 0 ∷ [], rest)
    → parse_string msg ≡ ok (some s, rest)
unfolding parse_string
parse_string_lem msg s rest e = rw e (
    rw (take-append s (0 ∷ []) (length (s ++ 0 ∷ []) - 1) (omega (arith, length-append s (0 ∷ []))))
      (ground (arith, length-append s (0 ∷ []))))

-- Where the tail has room, a string whose length with a terminator is below 2^32 is written in
-- `length_string` bytes, the rest of the tail is left alone, and `parse_string` reads the string
-- back from the bytes written, whatever follows them.
pub parse_string-write_string :
    (c : Cursor) (s : List ℕ)
    → IsU32 (length s + 1)
    → length_string (length s) ≤ length c.tail
    → (enc : List ℕ) × (write_string c (some s)
        ≡ ok (record { written = c.written ++ enc; tail = drop (length_string (length s)) c.tail }))
      × (length enc ≡ length_string (length s))
      × ((rest : List ℕ) → parse_string (enc ++ rest) ≡ ok (some s, rest))
unfolding write_string
parse_string-write_string c s h room =
    let n = length s in
    let e = length_string n in
    let space = length_string_lem n (omega arith) in
    (
      padded (n + 1) s e,
      rw (small_mod n (omega arith), small_mod (n + 1) h)
          (write_padded_lem c (n + 1) s e (omega (arith, space)) room),
      length-padded (n + 1) s e (omega (arith, space)),
      λ rest. parse_string_lem (padded (n + 1) s e ++ rest) s rest (read_back rest),
    )
  where
    read_back :
        (rest : List ℕ)
        → parse_array (padded (length s + 1) s (length_string (length s)) ++ rest)
          ≡ ok (s ++ 0 ∷ [], rest)
    read_back rest =
        ap parse_array (
          terminated s (length_string (length s)) rest
            (omega (arith, length_string_lem (length s) (omega arith))))
        ∙ parse_array_lem (s ++ 0 ∷ []) (replicate (length_string (length s) - (length s + 5)) 0)
            rest (omega (arith, length-append s (0 ∷ [])))
            (omega (
              arith,
              length-append s (0 ∷ []),
              length_string_lem (length s) (omega arith),
              length-replicate {A = ℕ} (length_string (length s) - (length s + 5)) 0,
            ))

-- Where the tail has four bytes, a u32 is written in four bytes, and `parse_u32` reads it back,
-- whatever follows it.
parse_u32-write_u32 :
    (c : Cursor) (val : ℕ)
    → IsU32 val
    → 4 ≤ length c.tail
    → (enc : List ℕ) × (write_u32 c val
        ≡ ok (record { written = c.written ++ enc; tail = drop 4 c.tail }))
      × ((rest : List ℕ) → parse_u32 (enc ++ rest) ≡ ok (val, rest))
unfolding write_u32 parse_u32
parse_u32-write_u32 c val h room = (
  to_le_bytes val,
  rw (write_word_front c.tail val room)
      (advance_over c (to_le_bytes val) (drop 4 c.tail) 4 (sym (length-to_le_bytes val))),
  λ rest. rw (
    le→leb 4 (length (to_le_bytes val ++ rest))
        (omega (arith, length-append (to_le_bytes val) rest, length-to_le_bytes val)),
    slice_mid [] (to_le_bytes val) rest 0 4 refl (omega (arith, length-to_le_bytes val)),
    from_le_bytes-to_le_bytes val h,
    drop-append (to_le_bytes val) rest 4 (sym (length-to_le_bytes val)),
  ),
)
