-- ===== src/Reader/Extract.antt =====
-- `extract_messages` of src/read.rs.
use waypipe.Base.{
  ℕ, zero, suc, ◌+◌, ◌-◌, ◌%◌, ◌≤◌, ◌<◌, ◌≡◌, refl, sym, ap, subst, ◌∙◌, inl, inr, List, [], ◌∷◌,
  ◌++◌, ok, length, append_assoc, append-nil, arith, true, leb, if_cases, take, drop,
  take-append-drop, length-take, length-drop, length-append, slice, slice_mid, some, All,
}
use waypipe.Kernel.Construct.{Bytes}
use waypipe.Reader.{get_message_padded_len, extract_loop}
use waypipe.Reader.Frames.{IsIncomplete, Frames, rest, message}
use waypipe.Reader.Header.{
  Answers, Answers-bind, Answers-map, IsByte, padded_len_front, padded_len-Answers,
}

pub All-append {ℓ} :
    {A : Type ℓ} (P : A → Type 0) (xs ys : List A) → All P xs → All P ys → All P (xs ++ ys)
All-append P [] ys h k = k
All-append P (x ∷ xs) ys (p, h) k = (p, All-append P xs ys h k)

pub All-split {ℓ} :
    {A : Type ℓ} (P : A → Type 0) (n : ℕ) (xs : List A)
    → All P xs
    → All P (take n xs) × All P (drop n xs)
All-split P zero xs h = (tt, h)
All-split P (suc n) [] h = (tt, tt)
All-split P (suc n) (x ∷ xs) (p, h) = let (k, l) = All-split P n xs h in ((p, k), l)

-- What the loop leaves: the bytes up to `start`, the messages that it has added to the queue, and
-- an incomplete rest.
pub record IsExtracted (base s : Bytes) (queue : List Bytes) (out : ℕ × List Bytes) : Type 0 where
  pub ms : List Bytes
  pub front : Bytes
  pub left : Bytes
  pub queue_eq : out.1 ≡ queue ++ ms
  pub base_eq : base ≡ front ++ left
  pub at : out.0 ≡ length front
  pub even : length front % 4 ≡ 0
  pub frames : Frames s ms left

pub extract_loop-Answers :
    (fuel : ℕ) (base front s : Bytes) (end start : ℕ) (queue : List Bytes)
    → base ≡ front ++ s
    → start ≡ length front
    → length front % 4 ≡ 0
    → end ≡ start + length s
    → length s < fuel
    → All IsByte s
    → Answers (IsExtracted base s queue) (extract_loop base end fuel start queue)
unfolding extract_loop
extract_loop-Answers zero base front s end start queue split at even len more bytes =
    absurd (omega arith)
extract_loop-Answers (suc fuel) base front s end start queue split at even len more bytes =
    if_cases (Answers (IsExtracted base s queue)) (leb 4 (end - start))
      (λ four. rw (header_eq four) (
        Answers-bind (λ n. (4 ≤ n) × (n % 4 ≡ 0)) (IsExtracted base s queue)
          (get_message_padded_len s 0) _ (padded_len-Answers s bytes (ground arith))
          (λ n e (ge, mult).
            if_cases (Answers (IsExtracted base s queue)) (leb n (end - start))
              (λ fits. rw (whole n fits) (
                Answers-map (IsExtracted base (drop n s) (queue ++ (take n s ∷ [])))
                  (IsExtracted base s queue) _ (next n e fits ge)
                  (extract_loop-Answers fuel base (front ++ take n s) (drop n s) end (start + n)
                    (queue ++ (take n s ∷ [])) (split ∙ parts n) (ends n fits) (aligns n fits mult)
                    (remains n fits) (smaller n fits ge) ((All-split IsByte n s bytes).1))))
              (λ over. stop (inr (n, ground arith, e, ground arith))))))
      (λ short. stop (inl (ground arith)))
  where
    stop : IsIncomplete s → IsExtracted base s queue (start, queue)
    stop h = record {
      ms = [];
      front = front;
      left = s;
      queue_eq = sym (append-nil queue);
      base_eq = split;
      at = at;
      even = even;
      frames = rest s h;
    }

    header_eq :
        leb 4 (end - start) ≡ true → get_message_padded_len base start ≡ get_message_padded_len s 0
    header_eq four = rw split (
        ap (λ t. get_message_padded_len (front ++ t) start) (sym (append-nil s))
        ∙ padded_len_front front s [] start at (ground arith))

    taken : (n : ℕ) → leb n (end - start) ≡ true → length (take n s) ≡ n
    taken n fits = ground (arith, length-take n s)

    parts : (n : ℕ) → front ++ s ≡ (front ++ take n s) ++ drop n s
    parts n =
        ap (λ t. front ++ t) (sym (take-append-drop n s))
        ∙ sym (append_assoc front (take n s) (drop n s))

    whole : (n : ℕ) → leb n (end - start) ≡ true → slice base start (start + n) ≡ some (take n s)
    whole n fits = rw split (
        ap (λ t. slice (front ++ t) start (start + n)) (sym (take-append-drop n s))
        ∙ slice_mid front (take n s) (drop n s) start (start + n) at (omega (arith, taken n fits)))

    ends : (n : ℕ) → leb n (end - start) ≡ true → start + n ≡ length (front ++ take n s)
    ends n fits = omega (arith, length-append front (take n s), taken n fits)

    aligns : (n : ℕ) → leb n (end - start) ≡ true → n % 4 ≡ 0 → length (front ++ take n s) % 4 ≡ 0
    aligns n fits mult = omega (arith, length-append front (take n s), taken n fits)

    remains : (n : ℕ) → leb n (end - start) ≡ true → end ≡ start + n + length (drop n s)
    remains n fits = ground (arith, length-drop n s)

    smaller : (n : ℕ) → leb n (end - start) ≡ true → 4 ≤ n → length (drop n s) < fuel
    smaller n fits ge = ground (arith, length-drop n s)

    framed :
        (n : ℕ)
        → get_message_padded_len s 0 ≡ ok n
        → leb n (end - start) ≡ true
        → (4 ≤ n)
        → (ms : List Bytes) (r : Bytes) → Frames (drop n s) ms r
        → Frames s (take n s ∷ ms) r
    framed n e fits ge ms r f =
        let size = taken n fits in
        let header : get_message_padded_len (take n s) 0 ≡ ok (length (take n s)) =
          sym (padded_len_front [] (take n s) (drop n s) 0 refl (omega (arith, size)))
          ∙ ap (λ t. get_message_padded_len t 0) (take-append-drop n s)
          ∙ e
          ∙ ap ok (sym size) in
        subst (λ t. Frames t (take n s ∷ ms) r) (take-append-drop n s)
          (message (take n s) (drop n s) r ms (omega (arith, size)) header f)

    next :
        (n : ℕ)
        → get_message_padded_len s 0 ≡ ok n
        → leb n (end - start) ≡ true
        → (4 ≤ n)
        → (out : ℕ × List Bytes) → IsExtracted base (drop n s) (queue ++ (take n s ∷ [])) out
        → IsExtracted base s queue out
    next n e fits ge out x = record {
      ms = take n s ∷ x.ms;
      front = x.front;
      left = x.left;
      queue_eq = x.queue_eq ∙ append_assoc queue (take n s ∷ []) (x.ms);
      base_eq = x.base_eq;
      at = x.at;
      even = x.even;
      frames = framed n e fits ge (x.ms) (x.left) (x.frames);
    }
