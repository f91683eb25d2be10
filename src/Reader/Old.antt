-- ===== src/Reader/Old.antt =====
-- `read_with_old` of src/read.rs: the message in progress is in the old chunk.
use waypipe.Base.{
  inr, ℕ, ◌+◌, ◌-◌, ◌≤◌, ◌<◌, ◌≡◌, refl, sym, ap, ◌∙◌, subst, List, [], ◌∷◌, ◌++◌, ok, length, take,
  drop, append_assoc, append-nil, arith, All, Bool, none, some, ◌>>=◌, length-append, length-take,
  length-drop, ltb, le→leb, if_cases, slice, slice_mid, take-append-drop,
}
use waypipe.Kernel.Construct.{Bytes}
use waypipe.Reader.{
  ReadBuffer, ReadBufferChunk, Readv, max_normal_msg_size, get_message_padded_len, read_inner,
  extract_messages, read_with_old,
}
use waypipe.Reader.Frames.{Frames, rest, message}
use waypipe.Reader.Header.{Answers, Answers-bind, IsByte, padded_len_front}
use waypipe.Reader.Extract.{All-append, All-split}
use waypipe.Reader.Ready.{
  IsHolding, IsBetween, between, offered, IsRead, read_inner-Answers, IsLeft,
  extract_messages-Answers,
}

module _ (b : ReadBuffer) (c : ReadBufferChunk) (n : ℕ) (front s : Bytes) (ev : Readv)
    (h : IsBetween b c n front s) where
  header_here : get_message_padded_len (c.data_) (b.last_msg_start) ≡ ok n
  header_here = rw (h.data_eq) (
      ap (λ t. get_message_padded_len (front ++ t) (b.last_msg_start)) (sym (append-nil s))
      ∙ padded_len_front front s [] (b.last_msg_start) (h.start_eq) (h.header)
      ∙ h.length_eq)

  -- More of the message has arrived, but not all of it.
  grown_IsBetween :
      (bs : Bytes)
      → All IsByte bs
      → length bs < b.last_msg_start + n - b.end
      → IsBetween
          (record b { old = some (record c { data_ = c.data_ ++ bs }); end = b.end + length bs })
          (record c { data_ = c.data_ ++ bs })
          n
          front
          (s ++ bs)
  grown_IsBetween bs bytes lt = record {
    old_eq = refl;
    data_eq = rw (h.data_eq) (append_assoc front s bs);
    start_eq = h.start_eq;
    end_eq = omega (arith, h.end_eq, length-append s bs);
    header = omega (arith, h.header, length-append s bs);
    length_eq = padded_len_front [] s bs 0 refl (h.header) ∙ h.length_eq;
    partial = omega (arith, h.start_eq, h.end_eq, length-append s bs);
    room = h.room;
    sized = h.sized;
    bytes = All-append IsByte s bs (h.bytes) bytes;
  }

  abbrev missing : ℕ
  missing = b.last_msg_start + n - b.end

  length-message : (bs : Bytes) → missing ≤ length bs → length (s ++ take missing bs) ≡ n
  length-message bs le = omega (
    arith,
    h.start_eq,
    h.end_eq,
    h.partial,
    length-append s (take missing bs),
    length-take missing bs,
  )

  slice-message :
      (bs : Bytes)
      → missing ≤ length bs
      → slice (c.data_ ++ take missing bs) (b.last_msg_start) (b.last_msg_start + n)
        ≡ some (s ++ take missing bs)
  slice-message bs le = rw (h.data_eq) (
      ap (λ t. slice t (b.last_msg_start) (b.last_msg_start + n))
        (append_assoc front s (take missing bs)
          ∙ ap (λ t. front ++ t) (sym (append-nil (s ++ take missing bs))))
      ∙ slice_mid front (s ++ take missing bs) [] (b.last_msg_start) (b.last_msg_start + n)
          (h.start_eq) (omega (arith, length-message bs le)))

  -- The message is complete; what came behind it is in the new chunk.
  abbrev completed : Bytes → ReadBuffer
  completed bs = record b {
    old = none;
    current = record (b.current) { data_ = drop missing bs };
    last_msg_start = 0;
    end = length bs - missing;
    msg_queue = b.msg_queue ++ ((s ++ take missing bs) ∷ []);
  }

  completed-IsHolding :
      (bs : Bytes)
      → All IsByte bs
      → length bs ≤ missing + (b.current.size - max_normal_msg_size)
      → missing ≤ length bs
      → IsHolding (completed bs) [] (drop missing bs)
  completed-IsHolding bs bytes fits le = record {
    old_eq = refl;
    data_eq = refl;
    start_eq = refl;
    end_eq = omega (arith, length-drop missing bs);
    even = refl;
    room = omega (arith, h.sized);
    sized = omega (arith, h.sized);
    bytes = (All-split IsByte missing bs bytes).1;
  }

  message_Frames :
      (bs left : Bytes) (ms : List Bytes)
      → missing ≤ length bs
      → Frames (drop missing bs) ms left
      → Frames (s ++ bs) ((s ++ take missing bs) ∷ ms) left
  message_Frames bs left ms le f =
      let size = length-message bs le in
      subst (λ t. Frames t ((s ++ take missing bs) ∷ ms) left)
        (append_assoc s (take missing bs) (drop missing bs)
          ∙ ap (λ t. s ++ t) (take-append-drop missing bs))
        (message (s ++ take missing bs) (drop missing bs) left ms
          (omega (arith, size, h.header, h.partial))
          (padded_len_front [] s (take missing bs) 0 refl (h.header)
            ∙ h.length_eq
            ∙ ap ok (sym size))
          f)

  abbrev room_inner : ℕ
  room_inner = missing + (b.current.size - max_normal_msg_size)

  positive : 0 < room_inner
  positive = omega (arith, h.sized)

  fits : (bs : Bytes) → bs ≡ take room_inner (offered ev) → length bs ≤ room_inner
  fits bs took = omega (arith, ap length took, length-take room_inner (offered ev))

  partial_IsRead :
      (eof : Bool) (bs : Bytes)
      → All IsByte (offered ev)
      → bs ≡ take room_inner (offered ev)
      → length bs < missing
      → IsRead (b.msg_queue) s ev (
        eof,
        record b { old = some (record c { data_ = c.data_ ++ bs }); end = b.end + length bs },
      )
  partial_IsRead eof bs bytes took lt =
      let got : All IsByte bs =
        subst (All IsByte) (sym took) ((All-split IsByte room_inner (offered ev) bytes).0) in
      let g = grown_IsBetween bs got lt in
      record {
        n = room_inner;
        ms = [];
        left = s ++ bs;
        some_room = positive;
        queue_eq = sym (append-nil (b.msg_queue));
        frames = rw (← took) (rest (s ++ bs) (inr (n, g.header, g.length_eq, g.partial)));
        ready = between _ _ n front (s ++ bs) g;
      }

  completed-Answers :
      (eof : Bool) (bs : Bytes)
      → All IsByte (offered ev)
      → bs ≡ take room_inner (offered ev)
      → missing ≤ length bs
      → Answers (IsRead (b.msg_queue) s ev) (extract_messages (completed bs) >>= λ b'. ok (eof, b'))
  completed-Answers eof bs bytes took le =
      let got : All IsByte bs =
        subst (All IsByte) (sym took) ((All-split IsByte room_inner (offered ev) bytes).0) in
      Answers-bind (IsLeft (b.msg_queue ++ ((s ++ take missing bs) ∷ [])) (drop missing bs))
        (IsRead (b.msg_queue) s ev) (extract_messages (completed bs)) _
        (extract_messages-Answers (completed bs) [] (drop missing bs)
          (completed-IsHolding bs got (fits bs took) le))
        (λ b' e x. record {
          n = room_inner;
          ms = (s ++ take missing bs) ∷ x.ms;
          left = x.left;
          some_room = positive;
          queue_eq = x.queue_eq ∙ append_assoc (b.msg_queue) ((s ++ take missing bs) ∷ []) (x.ms);
          frames = rw (← took) (message_Frames bs (x.left) (x.ms) le (x.frames));
          ready = x.ready;
        })

  pub read_with_old-Answers :
      All IsByte (offered ev) → Answers (IsRead (b.msg_queue) s ev) (read_with_old b ev)
  unfolding read_with_old
  read_with_old-Answers bytes =
      rw
        (
          h.old_eq,
          le→leb 4 (b.end - b.last_msg_start) (omega (arith, h.header, h.start_eq, h.end_eq)),
          header_here,
        )
        (Answers-bind (λ out. out.1 ≡ take room_inner (offered ev)) (IsRead (b.msg_queue) s ev)
          (read_inner room_inner ev) _ (read_inner-Answers room_inner ev positive)
          (λ out e took.
            if_cases (Answers (IsRead (b.msg_queue) s ev)) (ltb (length (out.1)) missing)
              (λ lt. partial_IsRead (out.0) (out.1) bytes took (ground arith))
              (λ ge.
                rw (slice-message (out.1) (ground arith))
                  (completed-Answers (out.0) (out.1) bytes took (ground arith)))))
