-- ===== src/Channel/Sends.antt =====
-- `write_to_channel` of src/mainloop.rs: the bytes that the channel accepts, in order.
use waypipe.Base.{
  ℕ, ◌%◌, ◌≤◌, ◌<◌, ◌≡◌, refl, ap, ◌∙◌, arith, Bool, true, false, ◌&&◌, ◌||◌, [], ◌++◌, ltb, ◌==◌,
  length, take, length-drop, ok, ◌⊎◌, inl, inr, Bool-cases, append_assoc, take-append-drop, lt→ltb,
}
use waypipe.Kernel.Construct.{Bytes}
use waypipe.Channel.{TransferQueue, net_len_of, account, write_to_channel, written, wrote, Writev}
use waypipe.Channel.Plan.{net, length-net, ack_rest, offered, no_ack}
use waypipe.Channel.Account.{IsWellFormed}
use waypipe.Channel.Write.{ReachesAck, account-IsLeft, length-offered, not_injected}

-- Is an acknowledgement queued, or begun?
abbrev some_ack : TransferQueue → Bool
some_ack q = q.needs_new_ack || ltb 0 (q.ack_nwritten)

-- The write keeps the order of the acknowledgements: none is queued, or it reaches the one that is
-- injected.
abbrev pub IsOrderly : TransferQueue → ℕ → Type 0
IsOrderly q len = (q.needs_new_ack ≡ false) ⊎ ReachesAck q len

pub no_rest : (q : TransferQueue) → ltb 0 (q.ack_nwritten) ≡ false → ack_rest q ≡ []
no_rest q h = rw h

reaches-needs : (q : TransferQueue) (len : ℕ) → ReachesAck q len → q.needs_new_ack ≡ true
reaches-needs q len (i, _) = elim (Bool-cases (q.needs_new_ack)) [
  | inl h ↦ h
  | inr h ↦ absurd (ground (arith, not_injected q (no_ack q h), i))
]

pub active :
    (q : TransferQueue) (len : ℕ)
    → IsOrderly q len
    → 0 < length (offered q)
    → (some_ack q ≡ true) ⊎ (q.nbytes_written < length (net q))
active q len (inr reach) pos = inl (rw (reaches-needs q len reach))
active q len (inl free) pos = elim (Bool-cases (ltb 0 (q.ack_nwritten))) [
  | inl h ↦ inl (rw (free, h))
  | inr h ↦ inr (omega (arith, length-offered q free, ap length (no_rest q h)))
]

and_false : (b : Bool) → (b && false) ≡ false
and_false true = refl
and_false false = refl

or_true : (b : Bool) → (b || true) ≡ true
or_true true = refl
or_true false = refl

pub runs :
    (chan : Bytes) (q : TransferQueue) (ev : Writev)
    → net_len_of q % 4 ≡ 0
    → (some_ack q ≡ true) ⊎ (q.nbytes_written < length (net q))
    → write_to_channel chan q ev ≡ written chan q ev
unfolding write_to_channel
runs chan q ev aligned (inl ack) =
    rw
      (aligned, ack, and_false (net_len_of q == 0), or_true (ltb (q.nbytes_written) (net_len_of q)))
runs chan q ev aligned (inr h) =
    rw (aligned, nonzero, lt→ltb (q.nbytes_written) (net_len_of q) (omega (arith, length-net q)))
  where
    nonzero : (net_len_of q == 0) ≡ false
    nonzero = ground (arith, length-net q)

-- For a well-formed queue, and a write that the channel takes some bytes of, at most what was
-- offered: if no acknowledgement is queued, or the write reaches the one that is injected, then
-- `write_to_channel` returns, the bytes in the channel and then those offered next are the ones
-- from before, the queue is well formed with no acknowledgement queued, and fewer bytes are left.
pub write_to_channel_sends :
    (chan : Bytes) (q : TransferQueue) (len : ℕ)
    → IsWellFormed q
    → IsOrderly q len
    → 0 < len
    → len ≤ length (offered q)
    → (chan' : Bytes) × (q' : TransferQueue) × (write_to_channel chan q (wrote len)
        ≡ ok (false, chan', q'))
      × (chan' ++ offered q' ≡ chan ++ offered q)
      × (length (offered q') < length (offered q))
      × IsWellFormed q'
      × (q'.needs_new_ack ≡ false)
unfolding written
write_to_channel_sends chan q len (c, n, a, aligned, u) orderly pos fits =
    let (w', free, e) = account-IsLeft q len (c, n, a, aligned, u) orderly fits in
    (
      chan ++ take len (offered q),
      account q len,
      runs chan q (wrote len) aligned (active q len orderly (omega arith)),
      ap (λ l. (chan ++ take len (offered q)) ++ l) e
          ∙ append_assoc chan _ _
          ∙ ap (λ l. chan ++ l) (take-append-drop len (offered q)),
      omega (arith, ap length e, length-drop len (offered q)),
      w',
      free,
    )
