-- ===== src/Wayland/Total.antt =====
-- `parse_array` of src/wayland.rs on any bytes.
use waypipe.Base.{
  ℕ, suc, ◌+◌, ◌-◌, ◌*◌, ◌/◌, ◌≡◌, refl, ◌⊎◌, inl, inr, List, ◌∷◌, arith, length, take, drop,
  length-take, length-drop, Bool-cases, leb, slice_in, from_le_bytes, ok, err, usize_max,
  if◌then◌else◌, ◌&&◌, drop-drop, ◌∙◌,
}
use waypipe.Wayland.{parse_array, parse_error}

sub_four : (n : ℕ) → suc (suc (suc (suc n))) - 4 ≡ n
sub_four n = omega arith

sub_left : (n : ℕ) → 4 + n - 4 ≡ n
sub_left n = omega arith

-- The reading of an array with four bytes at least.
parse_array-cons :
    (a b c d : ℕ) (msg : List ℕ)
    → let len = a + 256 * b + 65536 * c + 16777216 * d in
      let space = (len + 3) / 4 * 4 in
      parse_array (a ∷ b ∷ c ∷ d ∷ msg) ≡ (
        if leb space usize_max && leb space (length msg)
        then ok (take len msg, drop space msg)
        else err parse_error)
unfolding parse_array from_le_bytes
parse_array-cons a b c d msg =
    let len = a + 256 * b + 65536 * c + 16777216 * d in
    let space = (len + 3) / 4 * 4 in
    let all = a ∷ b ∷ c ∷ d ∷ msg in
    ground (
      arith,
      slice_in all 0 4,
      slice_in all 4 (4 + len),
      drop-drop 4 space (4 + space) all,
      sub_four (length msg),
      sub_left len,
    )

-- `parse_array` never panics. It answers `PARSE_ERROR`, or it returns an array and the tail,
-- whose sizes with the length word and the padding make up the input.
pub parse_array_total :
    (msg : List ℕ)
    → (parse_array msg ≡ err parse_error)
      ⊎ ((v : List ℕ) × (rest : List ℕ) × (parse_array msg ≡ ok (v, rest))
          × (length rest + 4 + (length v + 3) / 4 * 4 ≡ length msg))
unfolding parse_array
parse_array_total (a ∷ b ∷ c ∷ d ∷ msg) =
    let len = a + 256 * b + 65536 * c + 16777216 * d in
    let space = (len + 3) / 4 * 4 in
    elim (Bool-cases (leb space usize_max && leb space (length msg))) [
      | inl fits ↦ inr (
        take len msg,
        drop space msg,
        parse_array-cons a b c d msg ∙ rw fits,
        ground (arith, length-take len msg, length-drop space msg),
      )
      | inr not_fits ↦ inl (parse_array-cons a b c d msg ∙ rw not_fits)
    ]
parse_array_total _ = inl refl
