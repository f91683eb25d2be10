-- ===== src/Reader.antt =====
-- src/read.rs: the messages of the channel, cut from the bytes that are read.
-- A chunk is its size and the bytes that are initialised. `readv` is given the bytes that the other
-- end has sent, and takes what fits. A view of a message is its bytes. After an error the main loop
-- ends, so the state is not modelled further.
pub mod Frames
mod Header
mod Extract
pub mod Ready
pub mod Unique
mod Old
mod Fresh
pub mod Stream
mod Tests
use waypipe.Base.{
  ℕ, zero, suc, ◌+◌, ◌-◌, ◌*◌, ◌%◌, ◌^◌, max, Bool, true, false, ◌&&◌, Option, none, some, List, [],
  ◌∷◌, ◌++◌, ltb, leb, ◌==◌, if◌then◌else◌, Outcome, ok, err, panic, ◌>>=◌, ◌>>◌, assert, ensure,
  unwrap, ok_or, length, take, drop, slice, read_word,
}
use waypipe.Util.{Total, WmsgType, parse_wmsg_header, align4}
use waypipe.Kernel.Construct.{Bytes}

-- `no_fuel` is no error of the code: the loop of the model ran out of rounds.
pub data ReadError : Type 0 where
  unknown_header too_short read_failed no_fuel : ReadError

pub record ReadBufferChunk : Type 0 where
  pub data_ : Bytes
  pub size : ℕ

pub record ReadBuffer : Type 0 where
  pub old : Option ReadBufferChunk
  pub current : ReadBufferChunk
  pub last_msg_start : ℕ
  pub end : ℕ
  pub msg_queue : List Bytes

-- What `readv` meets: bytes to take, of which none means the end; a reset; a call to repeat; or
-- another failure.
pub data Readv : Type 0 where
  sent : Bytes → Readv
  reset again failed : Readv

abbrev pub max_normal_msg_size : ℕ
max_normal_msg_size = 2 ^ 18

-- A chunk with nothing in it
abbrev new_chunk : ℕ → ReadBufferChunk
new_chunk len = record { data_ = []; size = len }

abbrev pub new_buffer : ReadBuffer
new_buffer = record {
  old = none;
  current = new_chunk (4 * max_normal_msg_size);
  last_msg_start = 0;
  end = 0;
  msg_queue = [];
}

abbrev pub total {ℓ} : {A : Type ℓ} → Outcome ⊥ A → Outcome ReadError A
total (ok a) = ok a
total (err e) = absurd e
total panic = panic

unfoldable pub get_message_padded_len : Bytes → ℕ → Outcome ReadError ℕ
get_message_padded_len base start = do
  header ← read_word base start
  (msg_len, typ) ← ok_or (parse_wmsg_header header) unknown_header
  ensure (leb 4 msg_len) too_short
  total (align4 msg_len)

-- Is it the end, and what was read? `room` is the sum of the lengths of the buffers.
unfoldable pub read_inner : ℕ → Readv → Outcome ReadError (Bool × Bytes)
read_inner room (sent bs) = do assert (ltb 0 room); ok (length (take room bs) == 0, take room bs)
read_inner room reset = do assert (ltb 0 room); ok (true, [])
read_inner room again = do assert (ltb 0 room); ok (false, [])
read_inner room failed = do assert (ltb 0 room); err read_failed

unfoldable pub move_tail_to_new : ReadBuffer → ℕ → Outcome ReadError ReadBuffer
move_tail_to_new b new_size = do
  assert (leb (b.end - b.last_msg_start) new_size)
  tail ← unwrap (slice (b.current.data_) (b.last_msg_start) (b.end))
  ok (record b {
    current = record { data_ = tail; size = new_size };
    end = b.end - b.last_msg_start;
    last_msg_start = 0;
  })

-- The loop of `extract_messages`: the start of the message that is left, and the queue.
unfoldable pub extract_loop : Bytes → ℕ → ℕ → ℕ → List Bytes → Outcome ReadError (ℕ × List Bytes)
extract_loop base end zero start queue = err no_fuel
extract_loop base end (suc fuel) start queue =
    let next : Outcome ReadError (ℕ × List Bytes) = do
      msg_len ← get_message_padded_len base start
      let more : Outcome ReadError (ℕ × List Bytes) = do
        msg ← unwrap (slice base start (start + msg_len))
        extract_loop base end fuel (start + msg_len) (queue ++ (msg ∷ []))
      if leb msg_len (end - start) then more else ok (start, queue)
    in if leb 4 (end - start) then next else ok (start, queue)

-- Each round passes four bytes at least.
unfoldable pub extract_messages : ReadBuffer → Outcome ReadError ReadBuffer
extract_messages b = do
  (start, queue) ←
      extract_loop (b.current.data_) (b.end) (b.end + 1) (b.last_msg_start) (b.msg_queue)
  ok (record b { last_msg_start = start; msg_queue = queue })

-- The rest of a message that is in the old chunk, and then what comes behind it.
unfoldable pub read_with_old : ReadBuffer → Readv → Outcome ReadError (Bool × ReadBuffer)
read_with_old b ev = do
  old ← unwrap (b.old)
  assert (leb 4 (b.end - b.last_msg_start))
  msg_len ← get_message_padded_len (old.data_) (b.last_msg_start)
  let msg_end = b.last_msg_start + msg_len
  (eof, bs) ← read_inner ((msg_end - b.end) + (b.current.size - max_normal_msg_size)) ev
  if ltb (length bs) (msg_end - b.end)
      then ok (
        eof,
        record b { old = some (record old { data_ = old.data_ ++ bs }); end = b.end + length bs },
      )
      else (do
        msg ← unwrap (slice (old.data_ ++ take (msg_end - b.end) bs) (b.last_msg_start) msg_end)
        b' ← extract_messages (record b {
          old = none;
          current = record (b.current) { data_ = drop (msg_end - b.end) bs };
          last_msg_start = 0;
          end = length bs - (msg_end - b.end);
          msg_queue = b.msg_queue ++ (msg ∷ []);
        })
        ok (eof, b'))

-- The end of `read_more`: read into the current chunk.
unfoldable pub read_current : ReadBuffer → Readv → Outcome ReadError (Bool × ReadBuffer)
read_current b ev = do
  assert (leb max_normal_msg_size (b.current.size - b.end))
  (eof, bs) ← read_inner (b.current.size - max_normal_msg_size - b.end) ev
  b' ← extract_messages (record b {
    current = record (b.current) { data_ = b.current.data_ ++ bs };
    end = b.end + length bs;
  })
  ok (eof, b')

-- With no old chunk: make room first.
unfoldable pub read_fresh : ReadBuffer → Readv → Outcome ReadError (Bool × ReadBuffer)
read_fresh b ev =
    if leb 4 (b.end - b.last_msg_start)
    then (do
      msg_len ← get_message_padded_len (b.current.data_) (b.last_msg_start)
      let msg_end = b.last_msg_start + msg_len
      let new_size = max (2 * msg_len) (4 * max_normal_msg_size)
      let moved : Outcome ReadError (Bool × ReadBuffer) = do
        assert (ltb (msg_len + max_normal_msg_size) new_size)
        b' ← move_tail_to_new b new_size
        read_current b' ev
      let swapped = record b {
        old = some (b.current);
        current = new_chunk (4 * max_normal_msg_size);
      }
      if ltb (b.current.size) msg_end
          then moved
          else if leb (b.current.size - msg_end) max_normal_msg_size
          then read_with_old swapped ev
          else read_current b ev)
    else (do
      assert (leb (b.last_msg_start) (b.current.size))
      let moved : Outcome ReadError (Bool × ReadBuffer) = do
        b' ← move_tail_to_new b (4 * max_normal_msg_size)
        read_current b' ev
      if leb (b.current.size - b.last_msg_start) max_normal_msg_size
          then moved
          else read_current b ev)

abbrev is_some {ℓ} : {A : Type ℓ} → Option A → Bool
is_some none = false
is_some (some a) = true

-- Is it the end, and the buffer after the call
unfoldable pub read_more : ReadBuffer → Readv → Outcome ReadError (Bool × ReadBuffer)
read_more b ev = if is_some (b.old) then read_with_old b ev else read_fresh b ev

unfoldable pub pop_next_msg : ReadBuffer → Option Bytes × ReadBuffer
pop_next_msg b = elim (b.msg_queue) [
  | [] ↦ (none, b)
  | msg ∷ rest ↦ (some msg, record b { msg_queue = rest })
]

-- `advance` of a view
unfoldable pub advance : Bytes → ℕ → Outcome ReadError Bytes
advance data_ skip = do
  assert (skip % 4 == 0)
  assert (leb skip (length data_))
  ok (drop skip data_)
