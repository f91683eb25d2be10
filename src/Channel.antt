-- ===== src/Channel.antt =====
-- src/mainloop.rs: the queue of what is to be written into the channel, and its writes. A vector of
-- bytes is the list of its elements; the buffer of protocol data is its first `protocol_len` bytes,
-- which are all the code reads of it. The channel is the list of the bytes that were accepted.
mod Gather
mod Plan
mod Account
mod Loop
mod Rests
mod Write
mod Sends
mod Final
mod Finishes
mod Framing
mod Delivers
mod Acks
mod Tests
use waypipe.Base.{
  ℕ, ◌+◌, ◌-◌, ◌*◌, ◌%◌, ◌^◌, min, Bool, true, false, not, ◌&&◌, ◌||◌, Option, none, some, List, [],
  ◌∷◌, ◌++◌, ltb, leb, ◌==◌, if◌then◌else◌, Outcome, ok, err, panic, ◌>>=◌, ◌>>◌, assert, length,
  take, drop, to_le_bytes, map,
}
use waypipe.Util.{Total, build_wmsg_header, WmsgType, inject_rids, protocol, ack_nblocks}
use waypipe.Kernel.Construct.{Bytes}

-- A remote id is the bits of its i32.
pub record TransferQueue : Type 0 where
  pub protocol_data : Bytes
  pub protocol_header_added : Bool
  pub protocol_rids : List ℕ
  pub last_ack : ℕ
  pub needs_new_ack : Bool
  pub ack_msg_cur : Bytes
  pub ack_msg_nxt : Bytes
  pub ack_nwritten : ℕ
  pub other_messages : List Bytes
  pub expected_recvd_msgs : ℕ
  pub nbytes_written : ℕ

abbrev pub protocol_len : TransferQueue → ℕ
protocol_len q = length (q.protocol_data)

abbrev pub send_protocol : TransferQueue → Bool
send_protocol q = ltb 0 (protocol_len q) && (q.expected_recvd_msgs == 0)

-- The bytes of a list of vectors
abbrev pub flatten : List Bytes → Bytes
flatten [] = []
flatten (v ∷ vs) = v ++ flatten vs

-- The sum of the lengths, from `net_len` on
abbrev pub sum_lengths : ℕ → List Bytes → ℕ
sum_lengths net_len [] = net_len
sum_lengths net_len (v ∷ vs) = sum_lengths (net_len + length v) vs

abbrev pub net_len_of : TransferQueue → ℕ
net_len_of q = sum_lengths (if send_protocol q then protocol_len q else 0) (q.other_messages)

abbrev pub is_empty {ℓ} : {A : Type ℓ} → List A → Bool
is_empty [] = true
is_empty (v ∷ vs) = false

unfoldable pub has_from_way_output : TransferQueue → Bool
has_from_way_output q =
    not (is_empty (q.other_messages))
    || ((send_protocol q && ltb 0 (protocol_len q)) || (q.needs_new_ack || ltb 0 (q.ack_nwritten)))

unfoldable pub opt_whole_ack : TransferQueue → Option Bytes
opt_whole_ack q =
    if q.needs_new_ack
    then some (if ltb 0 (q.ack_nwritten) then q.ack_msg_nxt else q.ack_msg_cur)
    else none

-- What the loop over the messages leaves: what it pushed to `iovs`, and its variables.
pub record Gathered : Type 0 where
  pub iovs : List Bytes
  pub nwritten : ℕ
  pub injected_whole_ack : Bool
  pub first_partial_len : ℕ

abbrev pub push_front : List Bytes → Gathered → Gathered
push_front vs g = record g { iovs = vs ++ g.iovs }

-- May the whole acknowledgement be injected here?
abbrev pub injects : Option Bytes → Bool → ℕ → Bool
injects none injected nwritten = false
injects (some ack) injected nwritten = not injected && (nwritten == 0)

abbrev pub whole_ack : Option Bytes → List Bytes
whole_ack none = []
whole_ack (some ack) = ack ∷ []

unfoldable pub gather : Option Bytes → List Bytes → ℕ → Bool → ℕ → Gathered
gather opt [] nwritten injected partial = record {
  iovs = [];
  nwritten = nwritten;
  injected_whole_ack = injected;
  first_partial_len = partial;
}
gather opt (v ∷ vs) nwritten injected partial =
    let skipped = gather opt vs (nwritten - length v) injected partial in
    let now = injects opt injected nwritten in
    let pushed = push_front ((if now then whole_ack opt else []) ++ (drop nwritten v ∷ [])) (
      gather opt vs 0 (injected || now)
        (if ltb 0 nwritten then length v - nwritten else partial)) in
    if leb (length v) nwritten then skipped else pushed

-- What is pushed behind the loop
unfoldable pub complete : TransferQueue → Option Bytes → Gathered → Gathered
complete q opt g =
    let now = injects opt (g.injected_whole_ack) (g.nwritten) in
    record g {
      iovs =
          (if ltb 0 (q.ack_nwritten) then drop (q.ack_nwritten) (q.ack_msg_cur) ∷ [] else [])
          ++ (g.iovs
              ++ ((if now then whole_ack opt else [])
                  ++ (if send_protocol q && ltb (g.nwritten) (protocol_len q)
                      then drop (g.nwritten) (q.protocol_data) ∷ []
                      else [])));
      injected_whole_ack = g.injected_whole_ack || now;
    }

-- Everything that is handed to `writev`, and the variables that say how it is composed.
unfoldable pub plan : TransferQueue → Gathered
plan q =
    let opt = opt_whole_ack q in
    complete q opt (gather opt (q.other_messages) (q.nbytes_written) false 0)

-- What `writev` returns: a number of bytes, that the peer is gone, a call to repeat, or another
-- failure.
pub data Writev : Type 0 where
  wrote : ℕ → Writev
  peer_gone again failed : Writev

pub data ChannelError : Type 0 where
  write_failed : ChannelError

-- The steps of the accounting: the queue with the fields that a step changes, and the length that
-- is left.
abbrev completes_ack : TransferQueue → ℕ → Bool
completes_ack q len = ltb 0 (q.ack_nwritten) && (q.ack_nwritten + min (8 - q.ack_nwritten) len == 8)

unfoldable pub absorb_partial_ack : TransferQueue → ℕ → TransferQueue × ℕ
absorb_partial_ack q len =
    let absorbed = min (8 - q.ack_nwritten) len in
    (
      record q {
        ack_nwritten =
            if completes_ack q len
            then 0
            else if ltb 0 (q.ack_nwritten)
            then q.ack_nwritten + absorbed
            else q.ack_nwritten;
        ack_msg_cur = if completes_ack q len then q.ack_msg_nxt else q.ack_msg_cur;
      },
      if ltb 0 (q.ack_nwritten) then len - absorbed else len,
    )

-- With no partial message, nothing is absorbed.
unfoldable pub absorb_partial_message : ℕ → TransferQueue → ℕ → TransferQueue × ℕ
absorb_partial_message partial q len =
    let absorbed = min partial len in
    (record q { nbytes_written = q.nbytes_written + absorbed }, len - absorbed)

unfoldable pub absorb_whole_ack : Bool → TransferQueue → ℕ → TransferQueue × ℕ
absorb_whole_ack injected q len =
    let absorbed = min 8 len in
    (
      record q {
        ack_nwritten = if injected && ltb absorbed 8 then absorbed else q.ack_nwritten;
        needs_new_ack = if injected then false else q.needs_new_ack;
      },
      if injected then len - absorbed else len,
    )

-- When all is written, the queue is reset.
unfoldable pub absorb_rest : ℕ → Bool → TransferQueue → ℕ → TransferQueue
absorb_rest net_len send q len =
    let done = q.nbytes_written + len == net_len in
    record q {
      protocol_data = if done && send then [] else q.protocol_data;
      protocol_header_added = if done && send then false else q.protocol_header_added;
      other_messages = if done then [] else q.other_messages;
      nbytes_written = if done then 0 else q.nbytes_written + len;
    }

unfoldable pub account : TransferQueue → ℕ → TransferQueue
account q len =
    let p = plan q in
    let (q1, len1) = absorb_partial_ack q len in
    let (q2, len2) = absorb_partial_message (p.first_partial_len) q1 len1 in
    let (q3, len3) = absorb_whole_ack (p.injected_whole_ack) q2 len2 in
    absorb_rest (net_len_of q) (send_protocol q) q3 len3

-- What follows the call of `writev`
unfoldable pub written :
    Bytes → TransferQueue → Writev → Outcome ChannelError (Bool × Bytes × TransferQueue)
written chan q (wrote len) = ok (false, chan ++ take len (flatten ((plan q).iovs)), account q len)
written chan q peer_gone = ok (true, chan, q)
written chan q again = ok (false, chan, q)
written chan q failed = err write_failed

-- Is the peer gone, what the channel holds, and the queue after the call
unfoldable pub write_to_channel :
    Bytes → TransferQueue → Writev → Outcome ChannelError (Bool × Bytes × TransferQueue)
write_to_channel chan q ev = do
  assert (net_len_of q % 4 == 0)
  let some_ack = q.needs_new_ack || ltb 0 (q.ack_nwritten)
  let write : Outcome ChannelError (Bool × Bytes × TransferQueue) = do
    assert (ltb (q.nbytes_written) (net_len_of q) || some_ack)
    written chan q ev
  if (net_len_of q == 0) && not some_ack then ok (false, chan, q) else write

-- The part of the main loop that queues an acknowledgement
unfoldable pub queue_ack : ℕ → TransferQueue → Total TransferQueue
queue_ack message_counter q = do
  header ← build_wmsg_header ack_nblocks 8
  let val = message_counter % 2 ^ 32
  let msg = to_le_bytes header ++ to_le_bytes val
  let queued =
      record (if ltb 0 (q.ack_nwritten)
        then record q { ack_msg_nxt = msg }
        else record q { ack_msg_cur = msg }) { needs_new_ack = true; last_ack = val }
  ok (if val == q.last_ack then q else queued)

-- A message that the main loop puts into the queue, such as the signal of a timeline
unfoldable pub push_message : Bytes → TransferQueue → TransferQueue
push_message msg q = record q { other_messages = q.other_messages ++ (msg ∷ []) }
