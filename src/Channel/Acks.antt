-- ===== src/Channel/Acks.antt =====
-- `write_to_channel` of src/mainloop.rs: acknowledgements and messages that come in between.
use waypipe.Base.{
  ℕ, ◌+◌, ◌-◌, ◌≤◌, ◌<◌, ◌≡◌, refl, sym, ap, ◌∙◌, arith, true, false, List, [], ◌∷◌, ◌++◌,
  if◌then◌else◌, length, drop, drop-append_front, drop-append_back, append_assoc, append-nil,
}
use waypipe.Kernel.Construct.{Bytes}
use waypipe.Channel.{
  TransferQueue, send_protocol, flatten, plan, account, absorb_partial_ack, push_message,
}
use waypipe.Channel.Plan.{net, ack_rest, offered, offered_free}
use waypipe.Channel.Account.{IsWellFormed, injected_of, message_bytes, account-net, under_way}
use waypipe.Channel.Write.{first_part, account_injected}
use waypipe.Channel.Sends.{no_rest}
use waypipe.Channel.Rests.{message_bytes_none, forgotten}

plus_none : (n m : ℕ) → m ≡ 0 → n + m ≡ n
plus_none n m h = omega arith

-- If an acknowledgement is begun, a second one is injected, and the channel takes fewer bytes
-- than the rest of the first, then `write_to_channel` forgets both: no byte of either is offered
-- afterwards, though the other side has a part of the first.
pub account_forgets :
    (q : TransferQueue) (len : ℕ)
    → IsWellFormed q
    → injected_of q ≡ true
    → len < length (ack_rest q)
    → (offered (account q len) ≡ drop (q.nbytes_written) (net q))
      × ((account q len).ack_nwritten ≡ 0)
      × ((account q len).needs_new_ack ≡ false)
account_forgets q len (c, n, a, al, u) i short =
    let (r, l, _, _, _) = first_part q len (c, n, a, al, u) in
    let (ne, fa, _, _) = account_injected q len i in
    let z =
      forgotten _ _ ((plan q).first_partial_len) ((absorb_partial_ack q len).1) (omega (arith, l))
        fa in
    let mb =
      ap (λ b. message_bytes ((plan q).first_partial_len) b ((absorb_partial_ack q len).1)) i
      ∙ message_bytes_none ((plan q).first_partial_len) _ (omega arith) in
    let (d, _, _) = account-net q len (omega (arith, mb, under_way q u)) in
    (
      offered_free (account q len) ne
          ∙ ap (λ l. l ++ drop ((account q len).nbytes_written) (net (account q len)))
              (no_rest (account q len) (rw z refl))
          ∙ d
          ∙ ap (λ j. drop j (net q)) (plus_none _ _ mb),
      z,
      ne,
    )

drop_behind :
    (vs : List Bytes) (n k : ℕ) (ys : Bytes)
    → n ≡ length (flatten vs) + k
    → drop n (flatten vs ++ ys) ≡ drop k ys
drop_behind vs n k ys e =
    drop-append_back n (flatten vs) ys (omega arith) ∙ ap (λ j. drop j ys) (distance e)
  where
    distance : n ≡ length (flatten vs) + k → n - length (flatten vs) ≡ k
    distance e = omega arith

flatten-push :
    (vs : List Bytes) (v ys : Bytes) → flatten (vs ++ (v ∷ [])) ++ ys ≡ flatten vs ++ (v ++ ys)
flatten-push [] v ys = ap (λ l. l ++ ys) (append-nil v)
flatten-push (w ∷ vs) v ys =
    append_assoc w _ _ ∙ ap (λ l. w ++ l) (flatten-push vs v ys) ∙ sym (append_assoc w _ _)

-- If `k` bytes of the protocol data are sent already when a message of `k` bytes or more is
-- pushed, then the next write offers the message without its first `k` bytes and then all
-- protocol data again, in place of the rest of the protocol data.
pub push_message_interrupts :
    (msg : Bytes) (q : TransferQueue) (k : ℕ)
    → q.needs_new_ack ≡ false
    → send_protocol q ≡ true
    → q.nbytes_written ≡ length (flatten (q.other_messages)) + k
    → k ≤ length msg
    → (offered q ≡ ack_rest q ++ drop k (q.protocol_data))
      × (offered (push_message msg q) ≡ ack_rest q ++ (drop k msg ++ q.protocol_data))
unfolding push_message
push_message_interrupts msg q k free send at fits = (
  offered_free q free
      ∙ ap (λ l. ack_rest q ++ l)
          (drop_behind (q.other_messages) (q.nbytes_written) k _ at
            ∙ ap (λ b. drop k (if b then q.protocol_data else [])) send),
  offered_free (push_message msg q) free
      ∙ ap (λ l. ack_rest q ++ l)
          (ap (drop (q.nbytes_written)) (flatten-push (q.other_messages) msg _)
            ∙ drop_behind (q.other_messages) (q.nbytes_written) k _ at
            ∙ drop-append_front k msg _ fits
            ∙ ap (λ b. drop k msg ++ (if b then q.protocol_data else [])) send),
)
