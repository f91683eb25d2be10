-- ===== src/Channel/Loop.antt =====
-- src/mainloop.rs: what goes into the queue in front of the protocol data, and the loop that ends the
-- connection, `loop_end_to_channel`.
use waypipe.Base.{
  ℕ, ◌+◌, ◌-◌, ◌*◌, min, Bool, true, false, not, ◌&&◌, ◌||◌, Option, none, some, List, [], ◌∷◌,
  ◌++◌, ltb, if◌then◌else◌, Outcome, ok, err, ◌>>=◌, length, take, drop, to_le_bytes, map,
}
use waypipe.Util.{Total, build_wmsg_header, inject_rids, protocol}
use waypipe.Kernel.Construct.{Bytes}
use waypipe.Channel.{
  TransferQueue, protocol_len, flatten, is_empty, plan, Writev, wrote, peer_gone, again, failed,
  ChannelError, write_failed, write_to_channel, has_from_way_output,
}

-- `process_wayland_2`: the ids of the file descriptors, and the header of the protocol data, go into
-- the queue.
unfoldable pub inject_rids_message : List ℕ → Total Bytes
inject_rids_message rids = do
  header ← build_wmsg_header inject_rids (length rids * 4 + 4)
  ok (to_le_bytes header ++ flatten (map to_le_bytes rids))

unfoldable pub process_wayland_2 : TransferQueue → Total TransferQueue
process_wayland_2 q = do
  let with_rids : Total TransferQueue = do
    v ← inject_rids_message (q.protocol_rids)
    ok (record q { other_messages = q.other_messages ++ (v ∷ []); protocol_rids = [] })
  q1 ← if is_empty (q.protocol_rids) then ok q else with_rids
  let with_header : Total TransferQueue = do
    header ← build_wmsg_header protocol (protocol_len q1 + 4)
    ok (record q1 {
      other_messages = q1.other_messages ++ (to_le_bytes header ∷ []);
      protocol_header_added = true;
    })
  if ltb 0 (protocol_len q1) && not (q1.protocol_header_added) then with_header else ok q1

-- What a call of `writev` meets that is offered a number of bytes
pub data Socket : Type 0 where
  room : ℕ → Socket
  closed busy broken : Socket

abbrev pub answer : Socket → ℕ → Writev
answer (room n) total = wrote (min n total)
answer closed total = peer_gone
answer busy total = again
answer broken total = failed

-- One return of `ppoll`: a signal that is noticed, or the events of the channel
pub data Round : Type 0 where
  sigint : Round
  events : Option Socket → Bool → Round

-- `write_bytes` of the final message from `nwritten_err` on
unfoldable pub write_bytes : Bytes → Bytes → ℕ → Socket → Outcome ChannelError (Bool × Bytes × ℕ)
write_bytes chan endmsg nwritten_err (room n) =
    let len = min n (length endmsg - nwritten_err) in
    ok (false, chan ++ take len (drop nwritten_err endmsg), nwritten_err + len)
write_bytes chan endmsg nwritten_err closed = ok (true, chan, nwritten_err)
write_bytes chan endmsg nwritten_err busy = ok (false, chan, nwritten_err)
write_bytes chan endmsg nwritten_err broken = err write_failed

-- The channel, the queue, and how much of the final message is written
abbrev pub Ending : Type 0
Ending = Bytes × TransferQueue × ℕ

-- One write, in the loop of `loop_end_to_channel`: is the peer gone, and the state
unfoldable pub end_write : Bytes → Ending → Socket → Outcome ChannelError (Bool × Ending)
end_write endmsg (chan, q, nwritten_err) s =
    let queued : Outcome ChannelError (Bool × Ending) = do
      (eof, chan', q') ← write_to_channel chan q (answer s (length (flatten ((plan q).iovs))))
      ok (eof, (chan', q', nwritten_err))
    in let final : Outcome ChannelError (Bool × Ending) = do
      (eof, chan', n) ← write_bytes chan endmsg nwritten_err s
      ok (eof, (chan', q, n))
      in if has_from_way_output q then queued else final

-- The loop, over the returns of `ppoll` that it meets: the state in which it ends, or waits.
unfoldable pub end_loop : Bytes → List Round → Ending → Outcome ChannelError Ending
end_loop endmsg [] st = ok st
end_loop endmsg (sigint ∷ rounds) st = ok st
end_loop endmsg (events none hangup ∷ rounds) (chan, q, n) =
    let rest = end_loop endmsg rounds (chan, q, n) in
    if not (has_from_way_output q || ltb n (length endmsg))
    then ok (chan, q, n)
    else if hangup
    then ok (chan, q, n)
    else rest
end_loop endmsg (events (some s) hangup ∷ rounds) (chan, q, n) =
    if not (has_from_way_output q || ltb n (length endmsg)) then ok (chan, q, n) else (do
      (eof, st) ← end_write endmsg (chan, q, n) s
      let rest = end_loop endmsg rounds st
      if eof || hangup then ok st else rest)
