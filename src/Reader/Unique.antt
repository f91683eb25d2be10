-- ===== src/Reader/Unique.antt =====
-- Two cuts of a stream in Reader/Frames, which src/read.rs cuts by its headers.
use waypipe.Base.{
  ℕ, ◌≤◌, ◌≡◌, refl, sym, ap, ◌∙◌, inl, inr, List, [], ◌++◌, ok, length, arith, take, drop,
  take-append, drop-append, length-append, Outcome,
}
use waypipe.Kernel.Construct.{Bytes}
use waypipe.Reader.{get_message_padded_len, ReadError}
use waypipe.Reader.Frames.{IsIncomplete, Frames, rest, message}
use waypipe.Reader.Header.{padded_len_front}

abbrev IsEqual : Outcome ReadError ℕ → Outcome ReadError ℕ → Type 0
IsEqual a b = a ≡ b

ok_injective : (m n : ℕ) → IsEqual (ok m) (ok n) → m ≡ n
ok_injective m n e = cc

incomplete_or_message :
    (s m s' : Bytes)
    → IsIncomplete s
    → s ≡ m ++ s'
    → 4 ≤ length m
    → get_message_padded_len m 0 ≡ ok (length m)
    → ⊥
incomplete_or_message s m s' (inl short) e four h = omega (arith, ap length e, length-append m s')
incomplete_or_message s m s' (inr (n, _, len, lt)) e four h =
    let same = ok_injective _ _ (
      sym len
      ∙ ap (λ t. get_message_padded_len t 0) e
      ∙ padded_len_front [] m s' 0 refl four
      ∙ h) in
    omega (arith, ap length e, length-append m s', same)

-- A stream has one cut: the messages and the rest are determined by it.
pub Frames-unique :
    (s s' : Bytes) (ms ms' : List Bytes) (r r' : Bytes)
    → Frames s ms r
    → Frames s' ms' r'
    → s ≡ s'
    → (ms ≡ ms') × (r ≡ r')
Frames-unique s s' ms ms' r r' (rest _ h) (rest _ h') e = (refl, e)
Frames-unique s s' ms ms' r r' (rest _ i) (message m t _ l four h f) e =
    absurd (incomplete_or_message s m t i e four h)
Frames-unique s s' ms ms' r r' (message m t _ l four h f) (rest _ i) e =
    absurd (incomplete_or_message s' m t i (sym e) four h)
Frames-unique s s' ms ms' r r' (message m t _ l four h f) (message m' t' _ l' four' h' f') e =
    let same = ok_injective _ _ (
      sym h
      ∙ sym (padded_len_front [] m t 0 refl four)
      ∙ ap (λ u. get_message_padded_len u 0) e
      ∙ padded_len_front [] m' t' 0 refl four'
      ∙ h') in
    let m_eq : m ≡ m' =
      sym (take-append m t (length m) refl)
      ∙ ap (take (length m)) e
      ∙ take-append m' t' (length m) same in
    let t_eq : t ≡ t' =
      sym (drop-append m t (length m) refl)
      ∙ ap (drop (length m)) e
      ∙ drop-append m' t' (length m) same in
    let (l_eq, r_eq) = Frames-unique t t' l l' r r' f f' t_eq in (rw (m_eq, l_eq) refl, r_eq)
