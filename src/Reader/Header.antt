-- ===== src/Reader/Header.antt =====
-- `get_message_padded_len` of src/read.rs, and answers that are no panic.
use waypipe.Base.{
  ℕ, ◌+◌, ◌/◌, ◌%◌, ◌^◌, ◌≤◌, ◌<◌, ◌≡◌, refl, inl, inr, [], ◌∷◌, ◌++◌, ok, err, panic, length,
  arith, leb, Outcome, ◌>>=◌, ◌>>◌, slice_mid, read_word, some, All, ok_or, ensure, Option-cases,
  Bool-cases, none, from_le_bytes,
}
use waypipe.Util.{parse_wmsg_header, of_code, align4}
use waypipe.Util.Interval.{align_lem}
use waypipe.Kernel.Construct.{Bytes}
use waypipe.Reader.{
  ReadError, no_fuel, unknown_header, too_short, read_failed, get_message_padded_len, total,
}

-- The code answers: with a value that has the property, or with an error of its own.
abbrev pub Answers {ℓ} : {A : Type ℓ} → (A → Type 0) → Outcome ReadError A → Type 0
Answers P (ok a) = P a
Answers P (err no_fuel) = ⊥
Answers P (err e) = Unit
Answers P panic = ⊥

pub Answers-bind {ℓ κ} :
    {A : Type ℓ} {B : Type κ} (P : A → Type 0) (Q : B → Type 0) (m : Outcome ReadError A)
    (f : A → Outcome ReadError B)
    → Answers P m
    → ((a : A) → m ≡ ok a → P a → Answers Q (f a))
    → Answers Q (m >>= f)
Answers-bind P Q (ok a) f h g = g a refl h
Answers-bind P Q (err no_fuel) f h g = absurd h
Answers-bind P Q (err unknown_header) f h g = tt
Answers-bind P Q (err too_short) f h g = tt
Answers-bind P Q (err read_failed) f h g = tt
Answers-bind P Q panic f h g = absurd h

pub Answers-map {ℓ} :
    {A : Type ℓ} (P Q : A → Type 0) (m : Outcome ReadError A)
    → ((a : A) → P a → Q a)
    → Answers P m
    → Answers Q m
Answers-map P Q (ok a) g h = g a h
Answers-map P Q (err no_fuel) g h = absurd h
Answers-map P Q (err unknown_header) g h = tt
Answers-map P Q (err too_short) g h = tt
Answers-map P Q (err read_failed) g h = tt
Answers-map P Q panic g h = absurd h

-- The word at the front of `s`
pub read_word_front :
    (front s t : Bytes) (a : ℕ)
    → a ≡ length front
    → 4 ≤ length s
    → read_word {E = ReadError} (front ++ (s ++ t)) a ≡ read_word s 0
unfolding read_word
read_word_front front (w ∷ x ∷ y ∷ z ∷ s) t a e h =
    let four = w ∷ x ∷ y ∷ z ∷ [] in
    rw (slice_mid front four (s ++ t) a (a + 4) e refl, slice_mid [] four s 0 4 refl refl)
read_word_front front [] t a e h = absurd (omega arith)
read_word_front front (w ∷ []) t a e h = absurd (omega arith)
read_word_front front (w ∷ x ∷ []) t a e h = absurd (omega arith)
read_word_front front (w ∷ x ∷ y ∷ []) t a e h = absurd (omega arith)

-- A length depends on the four bytes of the header only.
pub padded_len_front :
    (front s t : Bytes) (a : ℕ)
    → a ≡ length front
    → 4 ≤ length s
    → get_message_padded_len (front ++ (s ++ t)) a ≡ get_message_padded_len s 0
unfolding get_message_padded_len
padded_len_front front s t a e h = rw (read_word_front front s t a e h)

abbrev pub IsByte : ℕ → Type 0
IsByte b = b < 256

read_word-Answers :
    (s : Bytes) → All IsByte s → 4 ≤ length s → Answers (λ h. h < 2 ^ 32) (read_word s 0)
unfolding read_word from_le_bytes
read_word-Answers (w ∷ x ∷ y ∷ z ∷ s) (hw, (hx, (hy, (hz, hs)))) h =
    rw (slice_mid [] (w ∷ x ∷ y ∷ z ∷ []) s 0 4 refl refl) (omega arith)
read_word-Answers [] b h = absurd (omega arith)
read_word-Answers (w ∷ []) b h = absurd (omega arith)
read_word-Answers (w ∷ x ∷ []) b h = absurd (omega arith)
read_word-Answers (w ∷ x ∷ y ∷ []) b h = absurd (omega arith)

parse-Answers :
    (h : ℕ) → h < 2 ^ 32 → Answers (λ p. p.0 < 2 ^ 27) (ok_or (parse_wmsg_header h) unknown_header)
unfolding parse_wmsg_header
parse-Answers h b = elim (Option-cases (of_code (h % 2 ^ 5))) [
  | inl e ↦ (let q : parse_wmsg_header h ≡ none = ground arith in rw q tt)
  | inr (t, e) ↦
      (let q : parse_wmsg_header h ≡ some (h / 2 ^ 5, t) = ground arith in rw q (omega arith))
]

aligned-Answers :
    (len : ℕ)
    → len < 2 ^ 27
    → Answers (λ n. (4 ≤ n) × (n % 4 ≡ 0)) (ensure (leb 4 len) too_short >> total (align4 len))
unfolding align4
aligned-Answers len b = elim (Bool-cases (leb 4 len)) [
  | inr e ↦ rw e tt
  | inl e ↦
      let (k, r, lo, hi) = align_lem len 4 (omega arith) (omega arith) in
      rw (e, r) (ground arith, omega arith)
]

pub padded_len-Answers :
    (s : Bytes)
    → All IsByte s
    → 4 ≤ length s
    → Answers (λ n. (4 ≤ n) × (n % 4 ≡ 0)) (get_message_padded_len s 0)
unfolding get_message_padded_len
padded_len-Answers s bytes h =
    Answers-bind (λ x. x < 2 ^ 32) (λ n. (4 ≤ n) × (n % 4 ≡ 0)) (read_word s 0) _
      (read_word-Answers s bytes h)
      (λ header _ b.
        Answers-bind (λ p. p.0 < 2 ^ 27) (λ n. (4 ≤ n) × (n % 4 ≡ 0))
          (ok_or (parse_wmsg_header header) unknown_header) _ (parse-Answers header b)
          (λ p _ l. aligned-Answers (p.0) l))
