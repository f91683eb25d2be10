-- ===== src/Channel/Write.antt =====
-- `write_to_channel` of src/mainloop.rs: what is offered after a write is what the write left.
use waypipe.Base.{
  ℕ, ◌+◌, ◌-◌, ◌≤◌, ◌<◌, ◌≡◌, refl, sym, ap, ◌∙◌, arith, true, false, none, some, ◌++◌, ltb,
  if◌then◌else◌, length, drop, min, length-append, length-drop, ◌⊎◌, inl, inr,
}
use waypipe.Kernel.Construct.{Bytes}
use waypipe.Channel.{
  TransferQueue, opt_whole_ack, plan, account, absorb_partial_ack, absorb_partial_message,
  absorb_whole_ack, absorb_rest,
}
use waypipe.Channel.Plan.{net, ack_rest, offered, offered_free, plan-IsPlan, no_ack}
use waypipe.Channel.Rests.{
  none_injected, some_injected, message_bytes_free, rest_join, begun_ack, ack_count, behind_ack,
  behind_messages, message_bytes_injected,
}
use waypipe.Channel.Account.{
  IsWellFormed, under_way, partial_ack, injected_of, message_bytes, account-net,
}

pub not_injected : (q : TransferQueue) → opt_whole_ack q ≡ none → injected_of q ≡ false
not_injected q h =
    let (_, whole, _, _, _, _, injection) = plan-IsPlan q in
    none_injected (opt_whole_ack q) (injected_of q) whole _ _ h injection

-- The acknowledgement that is begun, after the write's first bytes
pub first_part :
    (q : TransferQueue) (len : ℕ)
    → IsWellFormed q
    → let (q1, len1) = absorb_partial_ack q len in
      ((ack_rest q1 ≡ drop len (ack_rest q))
        × (len1 ≡ len - length (ack_rest q))
        × (length (q1.ack_msg_cur) ≡ 8)
        × (q1.ack_nwritten < 8)
        × (length (ack_rest q) ≤ len
            → (q1.ack_nwritten ≡ 0)
              × (q1.ack_msg_cur
                  ≡ (if ltb 0 (q.ack_nwritten) then q.ack_msg_nxt else q.ack_msg_cur))))
unfolding absorb_partial_ack
first_part q len (c, n, a, _, m) =
    partial_ack (q.ack_msg_cur) (q.ack_msg_nxt) (q.ack_nwritten) len c n a

account_free :
    (q : TransferQueue) (len : ℕ)
    → IsWellFormed q
    → injected_of q ≡ false
    → let q' = account q len in
      let q1 = (absorb_partial_ack q len).0 in
      (ack_rest q' ≡ ack_rest q1)
      × (q'.needs_new_ack ≡ q.needs_new_ack)
      × (q'.ack_nwritten ≡ q1.ack_nwritten)
      × (q'.ack_msg_cur ≡ q1.ack_msg_cur)
      × (q'.ack_msg_nxt ≡ q.ack_msg_nxt)
unfolding account absorb_partial_message absorb_whole_ack absorb_rest absorb_partial_ack
account_free q len w i = (rw i, rw i, rw i, refl, refl)

pub length-offered :
    (q : TransferQueue)
    → q.needs_new_ack ≡ false
    → length (offered q) ≡ length (ack_rest q) + (length (net q) - q.nbytes_written)
length-offered q free =
    ap length (offered_free q free)
    ∙ omega (
      arith,
      length-append (ack_rest q) (drop (q.nbytes_written) (net q)),
      length-drop (q.nbytes_written) (net q),
    )

-- A queue after a write that left `rest` to be offered
abbrev pub IsLeft : TransferQueue → Bytes → Type 0
IsLeft q rest = IsWellFormed q × (q.needs_new_ack ≡ false) × (offered q ≡ rest)

write_free :
    (q : TransferQueue) (len : ℕ)
    → IsWellFormed q
    → q.needs_new_ack ≡ false
    → len ≤ length (offered q)
    → IsLeft (account q len) (drop len (offered q))
write_free q len (cu, nx, an, al, nb) free fits =
    let i = not_injected q (no_ack q free) in
    let (r, l, c, a, _) = first_part q len (cu, nx, an, al, nb) in
    let (fr, ne, fa, fc, fn) = account_free q len (cu, nx, an, al, nb) i in
    let e =
      ap (λ b. message_bytes ((plan q).first_partial_len) b ((absorb_partial_ack q len).1)) i
      ∙ message_bytes_free ((plan q).first_partial_len) _
      ∙ l in
    let (d, m, aligned) =
      account-net q len (omega (arith, under_way q nb, e, length-offered q free)) in
    let free' = ne ∙ free in
    (
      (ap length fc ∙ c, ap length fn ∙ nx, omega (arith, fa, a), aligned al, m),
      free',
      offered_free (account q len) free'
          ∙ ap (λ l. l ++ drop ((account q len).nbytes_written) (net (account q len))) (fr ∙ r)
          ∙ ap (λ l. drop len (ack_rest q) ++ l) d
          ∙ rest_join (ack_rest q) (net q) (q.nbytes_written) _ len e
          ∙ ap (drop len) (sym (offered_free q free)),
    )

-- The write reaches the acknowledgement that is injected.
abbrev pub ReachesAck : TransferQueue → ℕ → Type 0
ReachesAck q len = (injected_of q ≡ true) × (length (ack_rest q) + (plan q).first_partial_len < len)

pub account_injected :
    (q : TransferQueue) (len : ℕ)
    → injected_of q ≡ true
    → let q' = account q len in
      let (q1, len1) = absorb_partial_ack q len in
      let partial = (plan q).first_partial_len in
      let len2 = len1 - min partial len1 in
      ((q'.needs_new_ack ≡ false)
        × (q'.ack_nwritten ≡ (if ltb (min 8 len2) 8 then min 8 len2 else q1.ack_nwritten))
        × (q'.ack_msg_cur ≡ q1.ack_msg_cur)
        × (q'.ack_msg_nxt ≡ q.ack_msg_nxt))
unfolding account absorb_partial_message absorb_whole_ack absorb_rest absorb_partial_ack
account_injected q len i = (rw i, rw i, refl, refl)

-- The acknowledgement that would be injected next
abbrev next_ack : TransferQueue → Bytes
next_ack q = if ltb 0 (q.ack_nwritten) then q.ack_msg_nxt else q.ack_msg_cur

chosen : (q : TransferQueue) (whole : Bytes) → opt_whole_ack q ≡ some whole → next_ack q ≡ whole
unfolding opt_whole_ack
chosen q whole h = ground arith

write_ack :
    (q : TransferQueue) (len : ℕ)
    → IsWellFormed q
    → ReachesAck q len
    → len ≤ length (offered q)
    → IsLeft (account q len) (drop len (offered q))
write_ack q len (cu, nx, an, al, nb) (i, reach) fits =
    let (r, l, c, a, done) = first_part q len (cu, nx, an, al, nb) in
    let (pre, whole, post, de, e, p, injection) = plan-IsPlan q in
    let (ne, fa, fc, fn) = account_injected q len i in
    let ch =
      chosen q whole (some_injected (opt_whole_ack q) (injected_of q) whole _ _ i injection) in
    let (z, dc) = done (omega arith) in
    let k = len - length (ack_rest q) - length pre in
    let cw = fc ∙ dc ∙ ch in
    let w : length whole ≡ 8 = ap length (sym cw) ∙ ap length fc ∙ c in
    let lo = ap length e in
    let (b, lt) =
      begun_ack ((account q len).ack_nwritten) ((account q len).ack_msg_cur) k (omega arith)
        (ap length fc ∙ c) (ack_count _ _ _ k (omega arith) z fa) in
    let mb =
      ap (λ b. message_bytes ((plan q).first_partial_len) b ((absorb_partial_ack q len).1)) i
      ∙ message_bytes_injected ((plan q).first_partial_len) (length pre) _ k p (omega arith) in
    let (d, m, aligned) = account-net q len (
      omega (
        arith,
        under_way q nb,
        mb,
        w,
        ap length e,
        ap length de,
        length-drop (q.nbytes_written) (net q),
        length-append pre post,
        length-append whole post,
        length-append pre (whole ++ post),
        length-append (ack_rest q) (pre ++ (whole ++ post)),
      )) in
    (
      (ap length fc ∙ c, ap length fn ∙ nx, lt, aligned al, m),
      ne,
      offered_free (account q len) ne
          ∙ ap (λ l. l ++ drop ((account q len).nbytes_written) (net (account q len)))
              (b ∙ ap (drop k) cw)
          ∙ ap (λ l. drop k whole ++ l)
              (d ∙ behind_messages (q.nbytes_written) _ (k - 8) (net q) pre post de mb)
          ∙ sym (behind_ack (ack_rest q) pre whole post len k (omega arith) refl w)
          ∙ ap (drop len) (sym e),
    )

-- On a well-formed queue, a write that the channel takes some bytes of, at most what was offered,
-- leaves a well-formed queue that offers the rest, in order, if no acknowledgement is queued, or if
-- one is injected and the write reaches it; afterwards no whole acknowledgement waits.
pub account-IsLeft :
    (q : TransferQueue) (len : ℕ)
    → IsWellFormed q
    → (q.needs_new_ack ≡ false) ⊎ ReachesAck q len
    → len ≤ length (offered q)
    → IsLeft (account q len) (drop len (offered q))
account-IsLeft q len w (inl free) fits = write_free q len w free fits
account-IsLeft q len w (inr reach) fits = write_ack q len w reach fits
