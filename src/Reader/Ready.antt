-- ===== src/Reader/Ready.antt =====
-- The state of the reader of src/read.rs between two reads.
use waypipe.Base.{
  ℕ, zero, suc, ◌+◌, ◌*◌, ◌%◌, ◌≤◌, ◌<◌, ◌≡◌, refl, sym, ap, ◌∙◌, List, [], ◌++◌, ok, length, take,
  arith, All, Bool, none, some, length-append, lt→ltb,
}
use waypipe.Kernel.Construct.{Bytes}
use waypipe.Reader.{
  ReadBuffer, ReadBufferChunk, Readv, sent, reset, again, failed, max_normal_msg_size,
  get_message_padded_len, read_inner, extract_messages, extract_loop,
}
use waypipe.Reader.Frames.{IsIncomplete, Frames, Frames-IsIncomplete, Frames-All}
use waypipe.Reader.Header.{Answers, Answers-bind, IsByte}
use waypipe.Reader.Extract.{IsExtracted, extract_loop-Answers}

-- The current chunk holds the bytes `front`, loaned out in messages, and behind them `s`.
pub record IsHolding (b : ReadBuffer) (front s : Bytes) : Type 0 where
  pub old_eq : b.old ≡ none
  pub data_eq : b.current.data_ ≡ front ++ s
  pub start_eq : b.last_msg_start ≡ length front
  pub end_eq : b.end ≡ length front + length s
  pub even : length front % 4 ≡ 0
  pub room : b.end + max_normal_msg_size ≤ b.current.size
  pub sized : b.current.size % 4 ≡ 0
  pub bytes : All IsByte s

-- The message in progress, of length `n`, is in the old chunk; the new chunk is still empty.
pub record IsBetween (b : ReadBuffer) (c : ReadBufferChunk) (n : ℕ) (front s : Bytes) : Type 0 where
  pub old_eq : b.old ≡ some c
  pub data_eq : c.data_ ≡ front ++ s
  pub start_eq : b.last_msg_start ≡ length front
  pub end_eq : b.end ≡ length front + length s
  pub header : 4 ≤ length s
  pub length_eq : get_message_padded_len s 0 ≡ ok n
  pub partial : length s < n
  pub room : b.last_msg_start + n ≤ c.size
  pub sized : b.current.size ≡ 4 * max_normal_msg_size
  pub bytes : All IsByte s

-- Between two reads the reader holds `s`, in which no message is complete.
pub data IsReady : ReadBuffer → Bytes → Type 0 where
  holding : (b : ReadBuffer) (front s : Bytes) → IsHolding b front s → IsIncomplete s → IsReady b s
  between :
      (b : ReadBuffer) (c : ReadBufferChunk) (n : ℕ) (front s : Bytes)
      → IsBetween b c n front s
      → IsReady b s

abbrev pub offered : Readv → Bytes
offered (sent bs) = bs
offered reset = []
offered again = []
offered failed = []

-- What a read makes of the rest `s`: a part of what is offered is taken, the complete messages are
-- queued, and the rest is kept.
pub record IsRead (queue : List Bytes) (s : Bytes) (ev : Readv) (out : Bool × ReadBuffer)
    : Type 0 where
  pub n : ℕ
  pub ms : List Bytes
  pub left : Bytes
  pub some_room : 0 < n
  pub queue_eq : out.1.msg_queue ≡ queue ++ ms
  pub frames : Frames (s ++ take n (offered ev)) ms left
  pub ready : IsReady out.1 left

pub read_inner-Answers :
    (n : ℕ) (ev : Readv) → 0 < n → Answers (λ out. out.1 ≡ take n (offered ev)) (read_inner n ev)
unfolding read_inner
read_inner-Answers n (sent bs) h = rw (lt→ltb 0 n h) refl
read_inner-Answers (suc n) reset h = ground arith
read_inner-Answers (suc n) again h = ground arith
read_inner-Answers (suc n) failed h = ground arith
read_inner-Answers zero ev h = absurd (omega arith)

-- What `extract_messages` leaves of the bytes `s`.
pub record IsLeft (queue : List Bytes) (s : Bytes) (b : ReadBuffer) : Type 0 where
  pub ms : List Bytes
  pub left : Bytes
  pub queue_eq : b.msg_queue ≡ queue ++ ms
  pub frames : Frames s ms left
  pub ready : IsReady b left

pub extract_messages-Answers :
    (b : ReadBuffer) (front s : Bytes)
    → IsHolding b front s
    → Answers (IsLeft (b.msg_queue) s) (extract_messages b)
unfolding extract_messages
extract_messages-Answers b front s h =
    Answers-bind (IsExtracted (b.current.data_) s (b.msg_queue)) (IsLeft (b.msg_queue) s)
      (extract_loop (b.current.data_) (b.end) (b.end + 1) (b.last_msg_start) (b.msg_queue)) _
      (extract_loop-Answers (b.end + 1) (b.current.data_) front s (b.end) (b.last_msg_start)
        (b.msg_queue) (h.data_eq) (h.start_eq) (h.even) (omega (arith, h.start_eq, h.end_eq))
        (omega (arith, h.end_eq)) (h.bytes))
      (λ out e x. record {
        ms = x.ms;
        left = x.left;
        queue_eq = x.queue_eq;
        frames = x.frames;
        ready =
            holding (record b { last_msg_start = out.0; msg_queue = out.1 }) (x.front) (x.left)
              (record {
                old_eq = h.old_eq;
                data_eq = x.base_eq;
                start_eq = x.at;
                end_eq = omega (
                  arith,
                  h.end_eq,
                  sym (length-append front s),
                  ap length (sym (h.data_eq) ∙ x.base_eq),
                  length-append (x.front) (x.left),
                );
                even = x.even;
                room = h.room;
                sized = h.sized;
                bytes = Frames-All IsByte (x.frames) (h.bytes);
              })
              (Frames-IsIncomplete (x.frames));
      })
