-- ===== src/Channel/Tests.antt =====
-- Runs of the code of src/mainloop.rs that writes to the channel, and the theorems at concrete
-- inputs.
use waypipe.Base.{
  ℕ, zero, suc, ◌≡◌, refl, arith, true, false, List, [], ◌∷◌, replicate, ok, inl, inr, some, none,
  All, length, drop, ◌<◌, ◌++◌, ◌*◌, to_le_bytes, slice, read_word, from_le_bytes,
}
use waypipe.Kernel.Construct.{Bytes}
use waypipe.Channel.{
  TransferQueue, plan, gather, opt_whole_ack, complete, account, has_from_way_output,
  write_to_channel, wrote, push_message, queue_ack,
}
use waypipe.Util.{build_wmsg_header, parse_wmsg_header, code, of_code, version, align, align4}
use waypipe.Channel.Account.{IsWellFormed}
use waypipe.Channel.Plan.{net, offered}
use waypipe.Channel.Loop.{
  room, busy, closed, Round, events, end_loop, process_wayland_2, inject_rids_message,
}
use waypipe.Channel.Sends.{write_to_channel_sends}
use waypipe.Channel.Final.{all_bytes}
use waypipe.Channel.Finishes.{end_loop_finishes, IsWritable}
use waypipe.Reader.Frames.{Frames, rest, message}
use waypipe.Channel.Framing.{process_wayland_2-Frames, quiet, IsAnnounced}
use waypipe.Channel.Delivers.{
  take_messages, take_next, FromChannel, read_from_channel, take_messages_lem,
}
use waypipe.Reader.{
  ReadBuffer, max_normal_msg_size, get_message_padded_len, new_buffer, sent, read_more, read_fresh,
  read_current, read_inner, extract_messages, extract_loop, pop_next_msg,
}
use waypipe.Reader.Stream.{IsCut}
use waypipe.Reader.Ready.{holding}
use waypipe.Channel.Acks.{account_forgets, push_message_interrupts}

-- Two messages and protocol data
abbrev base_queue : TransferQueue
base_queue = record {
  protocol_data = 21 ∷ 22 ∷ 23 ∷ 24 ∷ [];
  protocol_header_added = true;
  protocol_rids = [];
  last_ack = 0;
  needs_new_ack = false;
  ack_msg_cur = replicate 8 7;
  ack_msg_nxt = replicate 8 8;
  ack_nwritten = 0;
  other_messages = (1 ∷ 2 ∷ 3 ∷ 4 ∷ []) ∷ (5 ∷ 6 ∷ 7 ∷ 8 ∷ []) ∷ [];
  expected_recvd_msgs = 0;
  nbytes_written = 2;
}

-- The first message is begun, and an acknowledgement is queued.
abbrev ack_queue : TransferQueue
ack_queue = record base_queue { needs_new_ack = true }

offered_ack :
    offered ack_queue
    ≡ 3 ∷ 4 ∷ 7 ∷ 7 ∷ 7 ∷ 7 ∷ 7 ∷ 7 ∷ 7 ∷ 7 ∷ 5 ∷ 6 ∷ 7 ∷ 8 ∷ 21 ∷ 22 ∷ 23 ∷ 24 ∷ []
unfolding plan gather opt_whole_ack complete
offered_ack = refl

sends_example :
    (chan' : Bytes) × (q' : TransferQueue) × (write_to_channel (99 ∷ []) ack_queue (wrote 5)
      ≡ ok (false, chan', q'))
    × (chan' ++ offered q' ≡ (99 ∷ []) ++ offered ack_queue)
    × (length (offered q') < length (offered ack_queue))
    × IsWellFormed q'
    × (q'.needs_new_ack ≡ false)
unfolding plan gather opt_whole_ack complete
sends_example =
    write_to_channel_sends (99 ∷ []) ack_queue 5 (refl, refl, omega arith, refl, inl (omega arith))
      (inr (refl, omega arith)) (omega arith) (omega arith)

abbrev endmsg : Bytes
endmsg = 18 ∷ 1 ∷ 0 ∷ 0 ∷ 0 ∷ 0 ∷ 0 ∷ 0 ∷ []

-- The channel takes five bytes, is then full, takes one, and its peer goes.
abbrev some_rounds : List Round
some_rounds =
    events (some (room 5)) false
    ∷ events (some busy) false
    ∷ events none false
    ∷ events (some (room 1)) false
    ∷ events (some closed) true
    ∷ []

abbrev good_rounds : List Round
good_rounds = replicate 20 (events (some (room 3)) false)

writable : (n : ℕ) → All IsWritable (replicate n (events (some (room 3)) false))
writable zero = tt
writable (suc n) = ((2, refl), writable n)

finishes_example :
    (q : TransferQueue) × (end_loop endmsg good_rounds (99 ∷ [], base_queue, 0)
      ≡ ok (all_bytes endmsg (99 ∷ [], base_queue, 0), q, 8))
    × (has_from_way_output q ≡ false)
unfolding plan gather opt_whole_ack complete
finishes_example =
    end_loop_finishes endmsg good_rounds (99 ∷ [], base_queue, 0)
      ((refl, refl, omega arith, refl, inl (omega arith)), refl, omega arith) (writable 20)
      (omega arith)

-- Two of the eight bytes of an acknowledgement are sent, and a second one is queued.
abbrev two_acks : TransferQueue
two_acks = record base_queue { needs_new_ack = true; ack_nwritten = 2; nbytes_written = 4 }

forgets_example :
    (offered (account two_acks 3) ≡ drop 4 (net two_acks))
    × ((account two_acks 3).ack_nwritten ≡ 0)
    × ((account two_acks 3).needs_new_ack ≡ false)
unfolding plan gather opt_whole_ack complete
forgets_example =
    account_forgets two_acks 3 (refl, refl, omega arith, refl, inl (omega arith)) refl (omega arith)

-- A byte of the protocol data is sent.
abbrev protocol_begun : TransferQueue
protocol_begun = record base_queue { nbytes_written = 9 }

interrupts_example :
    (offered protocol_begun ≡ 22 ∷ 23 ∷ 24 ∷ [])
    × (offered (push_message (31 ∷ 32 ∷ 33 ∷ 34 ∷ []) protocol_begun)
        ≡ 32 ∷ 33 ∷ 34 ∷ 21 ∷ 22 ∷ 23 ∷ 24 ∷ [])
interrupts_example =
    push_message_interrupts (31 ∷ 32 ∷ 33 ∷ 34 ∷ []) protocol_begun 1 refl refl refl (omega arith)

-- The ids and the header go in front of the protocol data.
wayland_run :
    process_wayland_2 (record base_queue {
      protocol_header_added = false;
      protocol_rids = 5 ∷ [];
      other_messages = [];
      nbytes_written = 0;
    })
    ≡ ok (record base_queue {
      other_messages = (1 ∷ 1 ∷ 0 ∷ 0 ∷ 5 ∷ 0 ∷ 0 ∷ 0 ∷ []) ∷ (0 ∷ 1 ∷ 0 ∷ 0 ∷ []) ∷ [];
      nbytes_written = 0;
    })
unfolding process_wayland_2 inject_rids_message build_wmsg_header code to_le_bytes
wayland_run = refl

queue_ack_run :
    queue_ack 5 base_queue
    ≡ ok (record base_queue {
      needs_new_ack = true;
      last_ack = 5;
      ack_msg_cur = 16 ∷ 1 ∷ 0 ∷ 0 ∷ 5 ∷ 0 ∷ 0 ∷ 0 ∷ [];
    })
unfolding queue_ack build_wmsg_header code to_le_bytes
queue_ack_run = refl

framing_example :
    (q' : TransferQueue) × (ms : List Bytes) × (process_wayland_2
        (quiet base_queue (5 ∷ []) (21 ∷ 22 ∷ 23 ∷ 24 ∷ []))
      ≡ ok q')
    × Frames (offered q') ms []
    × IsAnnounced (5 ∷ []) (21 ∷ 22 ∷ 23 ∷ 24 ∷ []) ms
framing_example =
    process_wayland_2-Frames base_queue (5 ∷ []) (21 ∷ 22 ∷ 23 ∷ 24 ∷ []) (omega arith) refl
      (omega arith)

-- A message of type `version`
abbrev version_msg : Bytes
version_msg = 23 ∷ 1 ∷ 0 ∷ 0 ∷ 5 ∷ 6 ∷ 7 ∷ 8 ∷ []

abbrev version_read : ReadBuffer
version_read = record {
  old = none;
  current = record { data_ = version_msg ++ version_msg; size = 4 * max_normal_msg_size };
  last_msg_start = 16;
  end = 16;
  msg_queue = version_msg ∷ [];
}

version_len : get_message_padded_len version_msg 0 ≡ ok 8
unfolding get_message_padded_len read_word slice from_le_bytes parse_wmsg_header of_code align4
    align
version_len = refl

-- Two messages, of which one is given out
version_read-IsCut : IsCut version_read (version_msg ++ (version_msg ++ [])) (version_msg ∷ [])
version_read-IsCut = record {
  left = [];
  frames =
      message version_msg (version_msg ++ []) [] (version_msg ∷ []) (omega arith) version_len
        (message version_msg [] [] [] (omega arith) version_len (rest [] (inl (omega arith))));
  ready =
      holding version_read (version_msg ++ version_msg) []
        (record {
          old_eq = refl;
          data_eq = refl;
          start_eq = refl;
          end_eq = refl;
          even = refl;
          room = omega arith;
          sized = refl;
          bytes = tt;
        })
        (inl (omega arith));
}

version_header : build_wmsg_header version 8 ≡ ok 279
unfolding build_wmsg_header code
version_header = refl

version_bytes : to_le_bytes 279 ≡ 23 ∷ 1 ∷ 0 ∷ 0 ∷ []
unfolding to_le_bytes
version_bytes = refl

abbrev body : Bytes
body = 5 ∷ 6 ∷ 7 ∷ 8 ∷ []

delivers_example : take_messages 2 (take_next version_read) ≡ ok ((version, body) ∷ [])
unfolding to_le_bytes
delivers_example =
    take_messages_lem version_read ((version, body) ∷ (version, body) ∷ [])
      (version_msg ∷ version_msg ∷ []) (version_msg ∷ [])
      (
        ((279, version_header, refl), refl, omega arith),
        (((279, version_header, refl), refl, omega arith), tt),
      )
      version_read-IsCut

abbrev waiting : FromChannel
waiting = record { input = new_buffer; next_msg = none }

read_from_channel_run :
    read_from_channel waiting (sent (version_msg ++ version_msg))
    ≡ ok (false, record { input = version_read; next_msg = some version_msg })
unfolding read_from_channel read_more read_fresh read_current read_inner extract_messages
    extract_loop get_message_padded_len read_word slice from_le_bytes parse_wmsg_header of_code
    align4 align pop_next_msg
read_from_channel_run = refl
