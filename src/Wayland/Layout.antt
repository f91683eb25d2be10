-- ===== src/Wayland/Layout.antt =====
-- What the writers of src/wayland.rs leave in the buffer, in closed form.
use waypipe.Base.{
  ℕ, ◌+◌, ◌-◌, ◌≤◌, ◌≡◌, refl, sym, ap, ◌∙◌, List, [], ◌++◌, append_assoc, arith, length, drop,
  replicate, length-append, length-replicate, length-drop, drop-drop, take-append, drop-append,
  le→leb, ok, ◌>>=◌, unwrap, copy_at, copy_at_behind, some, to_le_bytes, length-to_le_bytes,
}
use waypipe.Wayland.{Parsed, Cursor, advance, fill_zero}

-- `advance` over a finished front moves it to the written part.
pub advance_over :
    (c : Cursor) (front back : List ℕ) (n : ℕ)
    → n ≡ length front
    → advance c (front ++ back) n ≡ ok (record { written = c.written ++ front; tail = back })
unfolding advance
advance_over c front back n e = rw (
  le→leb n (length (front ++ back)) (omega (arith, length-append front back)),
  take-append front back n e,
  drop-append front back n e,
)

-- A word written at the front of a buffer.
pub write_word_front :
    (xs : List ℕ) (n : ℕ)
    → 4 ≤ length xs
    → copy_at xs 0 (to_le_bytes n) ≡ some (to_le_bytes n ++ drop 4 xs)
write_word_front xs n h =
    copy_at_behind [] xs 0 (to_le_bytes n) refl (omega (arith, length-to_le_bytes n))
    ∙ ap (λ k. some (to_le_bytes n ++ drop k xs)) (length-to_le_bytes n)

-- The common shape of `write_array` and `write_string`: a length word, the bytes, and zeros up to
-- the offset `e`.
abbrev pub write_padded : Cursor → ℕ → List ℕ → ℕ → Parsed Cursor
write_padded c n s e = do
  a ← unwrap (copy_at c.tail 0 (to_le_bytes n))
  b ← unwrap (copy_at a 4 s)
  d ← unwrap (fill_zero b (length s + 4) e)
  advance c d e

abbrev pub padded : ℕ → List ℕ → ℕ → List ℕ
padded n s e = to_le_bytes n ++ (s ++ replicate (e - (length s + 4)) 0)

pub length-padded : (n : ℕ) (s : List ℕ) (e : ℕ) → length s + 4 ≤ e → length (padded n s e) ≡ e
length-padded n s e h = omega (
  arith,
  length-append (to_le_bytes n) (s ++ replicate (e - (length s + 4)) 0),
  length-append s (replicate (e - (length s + 4)) 0),
  length-to_le_bytes n,
  length-replicate {A = ℕ} (e - (length s + 4)) 0,
)

-- `fill` behind two parts that are written already.
fill_zero_behind :
    (l s xs : List ℕ) (e : ℕ)
    → length l ≡ 4
    → length s + 4 ≤ e
    → e ≤ 4 + length s + length xs
    → fill_zero (l ++ (s ++ xs)) (length s + 4) e
      ≡ some (l ++ (s ++ (replicate (e - (length s + 4)) 0 ++ drop (e - (length s + 4)) xs)))
unfolding fill_zero
fill_zero_behind l s xs e hl lo hi =
    let z = e - (length s + 4) in
    rw (
      le→leb (length s + 4) e lo,
      ← append_assoc l s xs,
      copy_at_behind (l ++ s) xs (length s + 4) (replicate z 0) (omega (arith, length-append l s))
          (omega (arith, length-replicate {A = ℕ} z 0)),
      length-replicate {A = ℕ} z 0,
      append_assoc l s (replicate z 0 ++ drop z xs),
    )

-- Where the tail has room for `e` bytes, the padded form is written and the rest is left.
pub write_padded_lem :
    (c : Cursor) (n : ℕ) (s : List ℕ) (e : ℕ)
    → length s + 4 ≤ e
    → e ≤ length c.tail
    → write_padded c n s e
      ≡ ok (record { written = c.written ++ padded n s e; tail = drop e c.tail })
write_padded_lem c n s e lo hi =
    let l = to_le_bytes n in
    let after = drop (length s) (drop 4 c.tail) in
    let z = e - (length s + 4) in
    rw (
      first,
      second,
      fill_zero_behind l s after e (length-to_le_bytes n) lo
          (omega (arith, length-drop (length s) (drop 4 c.tail), length-drop 4 c.tail)),
      third,
      advance_over c (padded n s e) (drop z after) e (sym (length-padded n s e lo)),
      fourth,
    )
  where
    first : copy_at c.tail 0 (to_le_bytes n) ≡ some (to_le_bytes n ++ drop 4 c.tail)
    first = write_word_front c.tail n (omega arith)

    second :
        copy_at (to_le_bytes n ++ drop 4 c.tail) 4 s
        ≡ some (to_le_bytes n ++ (s ++ drop (length s) (drop 4 c.tail)))
    second =
        copy_at_behind (to_le_bytes n) (drop 4 c.tail) 4 s (sym (length-to_le_bytes n))
          (omega (arith, length-drop 4 c.tail))

    third :
        to_le_bytes n
          ++ (s
              ++ (replicate (e - (length s + 4)) 0
                  ++ drop (e - (length s + 4)) (drop (length s) (drop 4 c.tail))))
        ≡ padded n s e ++ drop (e - (length s + 4)) (drop (length s) (drop 4 c.tail))
    third = simp append_assoc

    fourth : drop (e - (length s + 4)) (drop (length s) (drop 4 c.tail)) ≡ drop e c.tail
    fourth =
        ap (drop (e - (length s + 4))) (drop-drop 4 (length s) (4 + length s) c.tail refl)
        ∙ drop-drop (4 + length s) (e - (length s + 4)) e c.tail (omega arith)
