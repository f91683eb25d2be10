-- ===== src/Reader/Fresh.antt =====
-- `read_more` of src/read.rs without an old chunk: the ways in which it makes room.
use waypipe.Base.{
  ℕ, ◌+◌, ◌-◌, ◌*◌, ◌%◌, ◌≤◌, ◌<◌, ◌≡◌, refl, sym, ap, ◌∙◌, subst, [], ◌++◌, ok, length, take,
  append_assoc, append-nil, arith, All, false, some, ◌>>=◌, length-append, length-take, ltb, leb,
  lt→ltb, le→leb, lt→leb, if_cases, max, slice, slice_mid,
}
use waypipe.Kernel.Construct.{Bytes}
use waypipe.Reader.{
  ReadBuffer, Readv, max_normal_msg_size, get_message_padded_len, read_inner, extract_messages,
  read_current, read_fresh, move_tail_to_new,
}
use waypipe.Reader.Header.{Answers, Answers-bind, IsByte, padded_len_front}
use waypipe.Reader.Extract.{All-append, All-split}
use waypipe.Reader.Old.{read_with_old-Answers}
use waypipe.Reader.Ready.{
  IsHolding, offered, IsRead, read_inner-Answers, IsLeft, extract_messages-Answers,
}

abbrev with_bytes : ReadBuffer → Bytes → ReadBuffer
with_bytes b bs = record b {
  current = record (b.current) { data_ = b.current.data_ ++ bs };
  end = b.end + length bs;
}

with_bytes-IsHolding :
    (b : ReadBuffer) (front s bs : Bytes)
    → IsHolding b front s
    → All IsByte bs
    → b.end + length bs + max_normal_msg_size ≤ b.current.size
    → IsHolding (with_bytes b bs) front (s ++ bs)
with_bytes-IsHolding b front s bs h bytes fits = record {
  old_eq = h.old_eq;
  data_eq = rw (h.data_eq) (append_assoc front s bs);
  start_eq = h.start_eq;
  end_eq = omega (arith, h.end_eq, length-append s bs);
  even = h.even;
  room = fits;
  sized = h.sized;
  bytes = All-append IsByte s bs (h.bytes) bytes;
}

read_current-Answers :
    (b : ReadBuffer) (front s : Bytes) (ev : Readv)
    → IsHolding b front s
    → b.end + max_normal_msg_size < b.current.size
    → All IsByte (offered ev)
    → Answers (IsRead (b.msg_queue) s ev) (read_current b ev)
unfolding read_current
read_current-Answers b front s ev h lt bytes =
    let n = b.current.size - max_normal_msg_size - b.end in
    rw (le→leb max_normal_msg_size (b.current.size - b.end) (omega arith)) (
      Answers-bind (λ out. out.1 ≡ take n (offered ev)) (IsRead (b.msg_queue) s ev)
        (read_inner n ev) _ (read_inner-Answers n ev (omega arith))
        (λ out e took.
          Answers-bind (IsLeft (b.msg_queue) (s ++ out.1)) (IsRead (b.msg_queue) s ev)
            (extract_messages (with_bytes b (out.1))) _
            (extract_messages-Answers (with_bytes b (out.1)) front (s ++ out.1) (
              with_bytes-IsHolding b front s (out.1) h
                (subst (All IsByte) (sym took) ((All-split IsByte n (offered ev) bytes).0))
                (omega (arith, ap length took, length-take n (offered ev)))))
            (λ b' e' x. record {
              n = n;
              ms = x.ms;
              left = x.left;
              some_room = omega arith;
              queue_eq = x.queue_eq;
              frames = rw (← took) (x.frames);
              ready = x.ready;
            })))

-- The bytes in progress stand at the front of the new chunk.
move_tail_lem :
    (b : ReadBuffer) (front s : Bytes) (new_size : ℕ)
    → IsHolding b front s
    → length s + max_normal_msg_size ≤ new_size
    → new_size % 4 ≡ 0
    → (b' : ReadBuffer) × (move_tail_to_new b new_size ≡ ok b')
      × IsHolding b' [] s
      × (b'.msg_queue ≡ b.msg_queue)
      × (b'.current.size ≡ new_size)
unfolding move_tail_to_new
move_tail_lem b front s new_size h fits mult = (
  record b {
    current = record { data_ = s; size = new_size };
    end = b.end - b.last_msg_start;
    last_msg_start = 0;
  },
  rw (le→leb (b.end - b.last_msg_start) new_size (omega (arith, h.start_eq, h.end_eq)), tail) refl,
  record {
    old_eq = h.old_eq;
    data_eq = refl;
    start_eq = refl;
    end_eq = omega (arith, h.start_eq, h.end_eq);
    even = refl;
    room = omega (arith, h.start_eq, h.end_eq);
    sized = mult;
    bytes = h.bytes;
  },
  refl,
  refl,
)
  where
    tail : slice (b.current.data_) (b.last_msg_start) (b.end) ≡ some s
    tail = rw (h.data_eq) (
        ap (λ t. slice (front ++ t) (b.last_msg_start) (b.end)) (sym (append-nil s))
        ∙ slice_mid front s [] (b.last_msg_start) (b.end) (h.start_eq)
            (omega (arith, h.start_eq, h.end_eq)))

-- A move, and the read behind it
moved-Answers :
    (b : ReadBuffer) (front s : Bytes) (ev : Readv) (new_size : ℕ)
    → IsHolding b front s
    → length s + max_normal_msg_size < new_size
    → new_size % 4 ≡ 0
    → All IsByte (offered ev)
    → Answers (IsRead (b.msg_queue) s ev) (move_tail_to_new b new_size >>= λ b'. read_current b' ev)
moved-Answers b front s ev new_size h fits mult bytes =
    let (b', e, h', q, size) = move_tail_lem b front s new_size h (omega arith) mult in
    rw e (
      subst (λ l. Answers (IsRead l s ev) (read_current b' ev)) q
        (read_current-Answers b' [] s ev h' (omega (arith, h'.end_eq, size)) bytes))

known_room :
    (b : ReadBuffer) (front s : Bytes) (n : ℕ)
    → IsHolding b front s
    → length s < n
    → leb (b.current.size - (b.last_msg_start + n)) max_normal_msg_size ≡ false
    → b.end + max_normal_msg_size < b.current.size
known_room b front s n h lt roomy = ground (arith, h.start_eq, h.end_eq)

-- The places are multiples of 4, so three bytes of a header leave room for another.
unknown_room :
    (b : ReadBuffer) (front s : Bytes)
    → IsHolding b front s
    → length s < 4
    → leb (b.current.size - b.last_msg_start) max_normal_msg_size ≡ false
    → b.end + max_normal_msg_size < b.current.size
unknown_room b front s h short roomy = ground (arith, h.start_eq, h.end_eq, h.sized, h.even)

-- The length of the message in progress is known: it goes to a larger chunk, or is completed where
-- it is with a new chunk behind it, or the chunk has room.
pub known-Answers :
    (b : ReadBuffer) (front s : Bytes) (ev : Readv) (n : ℕ)
    → IsHolding b front s
    → 4 ≤ length s
    → get_message_padded_len s 0 ≡ ok n
    → length s < n
    → n % 4 ≡ 0
    → All IsByte (offered ev)
    → Answers (IsRead (b.msg_queue) s ev) (read_fresh b ev)
unfolding read_fresh
known-Answers b front s ev n h four e lt mult bytes =
    let new_size = max (2 * n) (4 * max_normal_msg_size) in
    let swapped = record b {
      old = some (b.current);
      current = record { data_ = []; size = 4 * max_normal_msg_size };
    } in
    rw (le→leb 4 (b.end - b.last_msg_start) (omega (arith, h.start_eq, h.end_eq)), header)
      (if_cases (Answers (IsRead (b.msg_queue) s ev)) (ltb (b.current.size) (b.last_msg_start + n))
        (λ over.
          rw (lt→ltb (n + max_normal_msg_size) new_size (omega arith))
            (moved-Answers b front s ev new_size h (omega arith) (omega arith) bytes))
        (λ fits.
          if_cases (Answers (IsRead (b.msg_queue) s ev))
            (leb (b.current.size - (b.last_msg_start + n)) max_normal_msg_size)
            (λ tight.
              read_with_old-Answers swapped (b.current) n front s ev
                (record {
                  old_eq = refl;
                  data_eq = h.data_eq;
                  start_eq = h.start_eq;
                  end_eq = h.end_eq;
                  header = four;
                  length_eq = e;
                  partial = lt;
                  room = ground arith;
                  sized = refl;
                  bytes = h.bytes;
                })
                bytes)
            (λ roomy.
              read_current-Answers b front s ev h (known_room b front s n h lt roomy) bytes)))
  where
    header : get_message_padded_len (b.current.data_) (b.last_msg_start) ≡ ok n
    header = rw (h.data_eq) (
        ap (λ t. get_message_padded_len (front ++ t) (b.last_msg_start)) (sym (append-nil s))
        ∙ padded_len_front front s [] (b.last_msg_start) (h.start_eq) four
        ∙ e)

-- The header is not complete.
pub unknown-Answers :
    (b : ReadBuffer) (front s : Bytes) (ev : Readv)
    → IsHolding b front s
    → length s < 4
    → All IsByte (offered ev)
    → Answers (IsRead (b.msg_queue) s ev) (read_fresh b ev)
unfolding read_fresh
unknown-Answers b front s ev h short bytes =
    rw
      (
        lt→leb 4 (b.end - b.last_msg_start) (omega (arith, h.start_eq, h.end_eq)),
        le→leb (b.last_msg_start) (b.current.size) (omega (arith, h.start_eq, h.end_eq, h.room)),
      )
      (if_cases (Answers (IsRead (b.msg_queue) s ev))
        (leb (b.current.size - b.last_msg_start) max_normal_msg_size)
        (λ tight.
          moved-Answers b front s ev (4 * max_normal_msg_size) h (omega arith) (omega arith) bytes)
        (λ roomy. read_current-Answers b front s ev h (unknown_room b front s h short roomy) bytes))
