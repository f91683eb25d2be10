-- ===== src/Channel/Delivers.antt =====
-- src/mainloop.rs: `read_from_channel`, and how the loop of `process_channel` takes the messages. With
-- the reader of src/read.rs and the headers of src/util.rs, this gives back what was sent. What is
-- done with a message, which can end the loop early, is not modelled.
use waypipe.Base.{
  ℕ, zero, suc, ◌+◌, ◌%◌, ◌^◌, ◌≤◌, ◌<◌, ◌≡◌, refl, sym, ap, ◌∙◌, subst, arith, Bool, Option, none,
  some, List, [], ◌∷◌, ◌++◌, length, drop, ok, err, ◌>>=◌, ok_or, unwrap, slice, read_word,
  read_word_behind, slice_mid, append-nil, drop-append, to_le_bytes, length-to_le_bytes, inl,
  length-append, Outcome,
}
use waypipe.Kernel.Construct.{Bytes}
use waypipe.Util.{WmsgType, parse_wmsg_header, Total}
use waypipe.Util.Header.{parse_wmsg_header-build_wmsg_header}
use waypipe.Reader.{
  ReadBuffer, ReadError, Readv, no_fuel, unknown_header, read_more, pop_next_msg,
  get_message_padded_len,
}
use waypipe.Reader.Frames.{Frames, rest, message}
use waypipe.Reader.Unique.{Frames-unique}
use waypipe.Reader.Stream.{IsCut}
use waypipe.Channel.{flatten}
use waypipe.Channel.Framing.{IsMessage, message_of}

pub record FromChannel : Type 0 where
  pub input : ReadBuffer
  pub next_msg : Option Bytes

-- `next_msg = input.pop_next_msg()`
abbrev pub take_next : ReadBuffer → FromChannel
take_next b = let (msg, b') = pop_next_msg b in record { input = b'; next_msg = msg }

abbrev next_of : ReadBuffer → Option Bytes → FromChannel
next_of input none = take_next input
next_of input (some msg) = record { input = input; next_msg = some msg }

unfoldable pub read_from_channel : FromChannel → Readv → Outcome ReadError (Bool × FromChannel)
read_from_channel from_chan ev = do
  (eof, input) ← read_more (from_chan.input) ev
  ok (eof, next_of input (from_chan.next_msg))

-- The type of a message, and what is behind its header, without padding
unfoldable pub open_message : Bytes → Outcome ReadError (WmsgType × Bytes)
open_message msg_view = do
  header ← read_word msg_view 0
  (length_, typ) ← ok_or (parse_wmsg_header header) unknown_header
  msg ← unwrap (slice msg_view 0 length_)
  ok (typ, drop 4 msg)

-- The loop of `process_channel`: the messages that it takes. `no_fuel` is no error of the code.
unfoldable pub take_messages : ℕ → FromChannel → Outcome ReadError (List (WmsgType × Bytes))
take_messages zero chan_msg = elim (chan_msg.next_msg) [ none ↦ ok [] | some m ↦ err no_fuel ]
take_messages (suc fuel) chan_msg =
    let others = take_messages fuel (take_next (chan_msg.input)) in
    elim (chan_msg.next_msg) [
      | none ↦ ok []
      | some msg_view ↦ do msg ← open_message msg_view; more ← others; ok (msg ∷ more)
    ]

-- The messages are those of the types and bodies, which are whole words and fit a header.
abbrev pub AreMessages : List (WmsgType × Bytes) → List Bytes → Type 0
AreMessages [] [] = Unit
AreMessages ((t, body) ∷ sent) (m ∷ ms) =
    (IsMessage t body m × (length body % 4 ≡ 0) × (length body + 4 < 2 ^ 27)) × AreMessages sent ms
AreMessages [] (m ∷ ms) = ⊥
AreMessages (x ∷ sent) [] = ⊥

same_header : {r : Total ℕ} {h h' : ℕ} → r ≡ ok h → r ≡ ok h' → h ≡ h'
same_header e e' = cc

AreMessages-Frames :
    (sent : List (WmsgType × Bytes)) (ms : List Bytes)
    → AreMessages sent ms
    → Frames (flatten ms) ms []
AreMessages-Frames [] [] are = rest [] (inl (omega arith))
AreMessages-Frames [] (m ∷ ms) are = absurd are
AreMessages-Frames (x ∷ sent) [] are = absurd are
AreMessages-Frames ((t, body) ∷ sent) (m ∷ ms) (((h, build, e), even, fits), are) =
    let (h', build', len, four) = message_of t body even fits in
    let same : to_le_bytes h' ++ body ≡ m =
      ap (λ k. to_le_bytes k ++ body) (same_header build' build) ∙ sym e in
    message m (flatten ms) [] ms (subst (λ x. 4 ≤ length x) same four)
      (subst (λ x. get_message_padded_len x 0 ≡ ok (length x)) same len)
      (AreMessages-Frames sent ms are)

-- The messages behind the first ones
AreMessages-drop :
    (front back : List Bytes) (sent : List (WmsgType × Bytes))
    → AreMessages sent (front ++ back)
    → AreMessages (drop (length front) sent) back
AreMessages-drop [] back sent are = are
AreMessages-drop (m ∷ front) back [] are = absurd are
AreMessages-drop (m ∷ front) back (x ∷ sent) (_, are) = AreMessages-drop front back sent are

open_message_lem :
    (t : WmsgType) (body m : Bytes)
    → IsMessage t body m
    → length body + 4 < 2 ^ 27
    → open_message m ≡ ok (t, body)
unfolding open_message
open_message_lem t body m (h, build, e) fits =
    let (h', build', u, parse) = parse_wmsg_header-build_wmsg_header t (length body + 4) fits in
    subst (λ x. open_message x ≡ ok (t, body))
      (ap (λ k. to_le_bytes k ++ body) (same_header build' build) ∙ sym e)
      (rw (read_word_behind [] body h' 0 u refl, parse, whole h')
        (ap (λ r. ok (t, r)) (drop-append (to_le_bytes h') body 4 (sym (length-to_le_bytes h')))))
  where
    whole :
        (k : ℕ) → slice (to_le_bytes k ++ body) 0 (length body + 4) ≡ some (to_le_bytes k ++ body)
    whole k =
        ap (λ s. slice s 0 (length body + 4)) (sym (append-nil (to_le_bytes k ++ body)))
        ∙ slice_mid [] (to_le_bytes k ++ body) [] 0 (length body + 4) refl
            (omega (arith, length-append (to_le_bytes k) body, length-to_le_bytes k))

take_messages_queue :
    (fuel : ℕ) (b : ReadBuffer) (queue : List Bytes) (sent : List (WmsgType × Bytes))
    → b.msg_queue ≡ queue
    → length queue ≤ fuel
    → AreMessages sent queue
    → take_messages fuel (take_next b) ≡ ok sent
unfolding take_messages pop_next_msg
take_messages_queue zero b [] [] e le are = rw e refl
take_messages_queue (suc fuel) b [] [] e le are = rw e refl
take_messages_queue fuel b [] (x ∷ sent) e le are = absurd are
take_messages_queue fuel b (m ∷ queue) [] e le are = absurd are
take_messages_queue zero b (m ∷ queue) (x ∷ sent) e le are = absurd (omega arith)
take_messages_queue (suc fuel) b (m ∷ queue) ((t, body) ∷ sent) e le ((is, even, fits), are) =
    rw
      (
        e,
        open_message_lem t body m is fits,
        take_messages_queue fuel (record b { msg_queue = queue }) queue sent refl (omega arith) are,
      )
      refl

-- Take messages of any types and bodies, each with the header of `build_wmsg_header`, whose
-- bodies are whole words and fit a header's length. If a reader has cut their bytes, one behind
-- the other, and has given out some messages, the loop of `process_channel`, as far as it takes
-- messages and is not ended by one, takes exactly the types and bodies of the messages that are
-- left, in order.
pub take_messages_lem :
    (b : ReadBuffer) (sent : List (WmsgType × Bytes)) (ms popped : List Bytes)
    → AreMessages sent ms
    → IsCut b (flatten ms) popped
    → take_messages (length ms) (take_next b) ≡ ok (drop (length popped) sent)
take_messages_lem b sent ms popped are cut =
    let (all, _) =
      Frames-unique (flatten ms) (flatten ms) (popped ++ b.msg_queue) ms (cut.left) [] (cut.frames)
        (AreMessages-Frames sent ms are) refl in
    take_messages_queue (length ms) b (b.msg_queue) (drop (length popped) sent) refl
      (omega (arith, ap length all, length-append popped (b.msg_queue)))
      (AreMessages-drop popped (b.msg_queue) sent (subst (AreMessages sent) (sym all) are))
