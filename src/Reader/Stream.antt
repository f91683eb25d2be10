-- ===== src/Reader/Stream.antt =====
-- `read_more` and `pop_next_msg` of src/read.rs, against the cut of the stream in Reader/Frames.
use waypipe.Base.{
  inl, inr, ◌⊎◌, ℕ, ◌%◌, ◌≤◌, ◌<◌, ◌≡◌, refl, sym, ap, ◌∙◌, subst, List, [], ◌∷◌, ◌++◌, ok, length,
  take, append_assoc, append-nil, arith, All, true, false, none, some, if_cases,
}
use waypipe.Kernel.Construct.{Bytes}
use waypipe.Reader.{
  ReadBuffer, ReadBufferChunk, Readv, get_message_padded_len, read_more, is_some, new_buffer,
  pop_next_msg,
}
use waypipe.Reader.Frames.{Frames, rest, Frames-append}
use waypipe.Reader.Header.{Answers, Answers-map, IsByte, padded_len-Answers}
use waypipe.Reader.Old.{read_with_old-Answers}
use waypipe.Reader.Ready.{IsReady, holding, between, offered, IsRead}
use waypipe.Reader.Fresh.{known-Answers, unknown-Answers}

-- What the reader has cut so far from the stream: the messages that it gave out and those in its
-- queue; it holds the rest.
pub record IsCut (b : ReadBuffer) (stream : Bytes) (popped : List Bytes) : Type 0 where
  pub left : Bytes
  pub frames : Frames stream (popped ++ b.msg_queue) left
  pub ready : IsReady b left

no_old : (b : ReadBuffer) → is_some (b.old) ≡ true → b.old ≡ none → ⊥
no_old b t e = ground arith

old_here : (b : ReadBuffer) (c : ReadBufferChunk) → is_some (b.old) ≡ false → b.old ≡ some c → ⊥
old_here b c f e = ground arith

read_more-Answers :
    (b : ReadBuffer) (s : Bytes) (ev : Readv)
    → IsReady b s
    → All IsByte (offered ev)
    → Answers (IsRead (b.msg_queue) s ev) (read_more b ev)
unfolding read_more
read_more-Answers b s ev (between _ c n front _ h) bytes =
    if_cases (Answers (IsRead (b.msg_queue) s ev)) (is_some (b.old))
      (λ _. read_with_old-Answers b c n front s ev h bytes)
      (λ f. absurd (old_here b c f (h.old_eq)))
read_more-Answers b s ev (holding _ front _ h (inl short)) bytes =
    if_cases (Answers (IsRead (b.msg_queue) s ev)) (is_some (b.old))
      (λ t. absurd (no_old b t (h.old_eq))) (λ _. unknown-Answers b front s ev h short bytes)
read_more-Answers b s ev (holding _ front _ h (inr (n, four, e, lt))) bytes =
    if_cases (Answers (IsRead (b.msg_queue) s ev)) (is_some (b.old))
      (λ t. absurd (no_old b t (h.old_eq)))
      (λ _. known-Answers b front s ev n h four e lt (aligned n (h.bytes) four e) bytes)
  where
    aligned : (n : ℕ) → All IsByte s → 4 ≤ length s → get_message_padded_len s 0 ≡ ok n → n % 4 ≡ 0
    aligned n all four e =
        (subst (Answers (λ k. (4 ≤ k) × (k % 4 ≡ 0))) e (padded_len-Answers s all four)).1

-- From a reader that has cut a stream, a read of bytes that the other end offers does not panic.
-- If it does not fail with an error, it takes what fits of them, at least one if there is one,
-- and the reader has then cut the longer stream: the messages given out and queued are those that
-- the headers announce, in order, and in the rest no message is complete.
pub read_more-IsCut :
    (b : ReadBuffer) (stream : Bytes) (popped : List Bytes) (ev : Readv)
    → IsCut b stream popped
    → All IsByte (offered ev)
    → Answers
        (λ out. (n : ℕ) × (0 < n) × IsCut out.1 (stream ++ take n (offered ev)) popped)
        (read_more b ev)
read_more-IsCut b stream popped ev c bytes =
    Answers-map (IsRead (b.msg_queue) (c.left) ev) _ (read_more b ev)
      (λ out x. (
        x.n,
        x.some_room,
        record {
          left = x.left;
          frames =
              rw (x.queue_eq, sym (append_assoc popped (b.msg_queue) (x.ms)))
                (Frames-append (take (x.n) (offered ev)) (c.frames) (x.frames));
          ready = x.ready;
        },
      ))
      (read_more-Answers b (c.left) ev (c.ready) bytes)

-- `new` has cut nothing from the empty stream.
pub new_buffer-IsCut : IsCut new_buffer [] []
new_buffer-IsCut = record {
  left = [];
  frames = rest [] (inl (omega arith));
  ready =
      holding new_buffer [] []
        (record {
          old_eq = refl;
          data_eq = refl;
          start_eq = refl;
          end_eq = refl;
          even = refl;
          room = omega arith;
          sized = refl;
          bytes = tt;
        })
        (inl (omega arith));
}

queue_IsReady :
    (b : ReadBuffer) (queue : List Bytes) (s : Bytes)
    → IsReady b s
    → IsReady (record b { msg_queue = queue }) s
queue_IsReady b queue s (holding _ front _ h i) =
    holding _ front s
      (record {
        old_eq = h.old_eq;
        data_eq = h.data_eq;
        start_eq = h.start_eq;
        end_eq = h.end_eq;
        even = h.even;
        room = h.room;
        sized = h.sized;
        bytes = h.bytes;
      })
      i
queue_IsReady b queue s (between _ c n front _ h) = between _ c n front s (record {
  old_eq = h.old_eq;
  data_eq = h.data_eq;
  start_eq = h.start_eq;
  end_eq = h.end_eq;
  header = h.header;
  length_eq = h.length_eq;
  partial = h.partial;
  room = h.room;
  sized = h.sized;
  bytes = h.bytes;
})

-- From a reader that has cut a stream, `pop_next_msg` gives the next message of the stream, and
-- the reader has then cut the stream with this message given out; or it gives nothing, changes
-- nothing, and all messages of the stream that are complete have been given out.
pub pop_next_msg-IsCut :
    (b : ReadBuffer) (stream : Bytes) (popped : List Bytes)
    → IsCut b stream popped
    → ((pop_next_msg b ≡ (none, b)) × ((left : Bytes) × Frames stream popped left))
      ⊎ ((m : Bytes) × (b' : ReadBuffer) × (pop_next_msg b ≡ (some m, b'))
          × IsCut b' stream (popped ++ (m ∷ [])))
unfolding pop_next_msg
pop_next_msg-IsCut b stream popped c = go (b.msg_queue) refl
  where
    go :
        (q : List Bytes)
        → b.msg_queue ≡ q
        → ((pop_next_msg b ≡ (none, b)) × ((left : Bytes) × Frames stream popped left))
          ⊎ ((m : Bytes) × (b' : ReadBuffer) × (pop_next_msg b ≡ (some m, b'))
              × IsCut b' stream (popped ++ (m ∷ [])))
    go [] e = inl (
      ground arith,
      (
        c.left,
        subst (λ q. Frames stream q (c.left)) (ap (λ q. popped ++ q) e ∙ append-nil popped)
            (c.frames),
      ),
    )
    go (m ∷ q) e = inr (
      m,
      record b { msg_queue = q },
      ground arith,
      record {
        left = c.left;
        frames =
            subst (λ l. Frames stream l (c.left))
              (ap (λ l. popped ++ l) e ∙ sym (append_assoc popped (m ∷ []) q)) (c.frames);
        ready = queue_IsReady b q (c.left) (c.ready);
      },
    )
