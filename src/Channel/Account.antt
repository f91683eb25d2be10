-- ===== src/Channel/Account.antt =====
-- `write_to_channel` of src/mainloop.rs: the accounting of a write, field by field.
use waypipe.Base.{
  ℕ, zero, suc, ◌+◌, ◌-◌, ◌%◌, ◌≤◌, ◌<◌, ◌≡◌, refl, sym, ap, ◌∙◌, arith, Bool, true, false, ◌&&◌,
  [], ◌∷◌, ◌++◌, ltb, ◌==◌, if◌then◌else◌, length, length-drop, drop, drop-drop, min, drop-nil,
  le_or_lt, lt→ltb, ◌⊎◌, inl, inr,
}
use waypipe.Kernel.Construct.{Bytes}
use waypipe.Channel.{
  TransferQueue, protocol_len, send_protocol, net_len_of, plan, account, absorb_partial_ack,
  absorb_partial_message, absorb_whole_ack, absorb_rest,
}
use waypipe.Channel.Gather.{drop_all}
use waypipe.Channel.Plan.{net, length-net}

-- There is more to write, or all is written and the queue is reset.
abbrev pub IsUnderWay : TransferQueue → Type 0
IsUnderWay q =
    (q.nbytes_written < length (net q))
    ⊎ ((q.other_messages ≡ []) × (send_protocol q ≡ false) × (q.nbytes_written ≡ 0))

-- The lengths and the positions of a queue
abbrev pub IsWellFormed : TransferQueue → Type 0
IsWellFormed q =
    (length (q.ack_msg_cur) ≡ 8)
    × (length (q.ack_msg_nxt) ≡ 8)
    × (q.ack_nwritten < 8)
    × (net_len_of q % 4 ≡ 0)
    × IsUnderWay q

pub under_way : (q : TransferQueue) → IsUnderWay q → q.nbytes_written ≤ length (net q)
under_way q (inl h) = omega arith
under_way q (inr (_, _, z)) = omega arith

rest_when :
    (done send : Bool) (q : TransferQueue) (n : ℕ)
    → send ≡ send_protocol q
    → n ≤ length (net q)
    → (done ≡ true → n ≡ length (net q))
    → (done ≡ false → n < length (net q))
    → let q' = record q {
      protocol_data = if done && send then [] else q.protocol_data;
      other_messages = if done then [] else q.other_messages;
      nbytes_written = if done then 0 else n;
    } in
      ((drop (q'.nbytes_written) (net q') ≡ drop n (net q))
        × IsUnderWay q'
        × (net_len_of q % 4 ≡ 0 → net_len_of q' % 4 ≡ 0))
rest_when false send q n e k h h' = (refl, inl (h' refl), λ a. a)
rest_when true true q n e k h h' =
    (sym (drop_all n (net q) (omega (arith, h refl))), inr (refl, refl, refl), λ _. refl)
rest_when true false q n e k h h' = (
  sym (ap (λ b. if b then q.protocol_data else []) e)
      ∙ sym (drop_all n (net q) (omega (arith, h refl))),
  inr (refl, sym e, refl),
  λ _. ap (λ b. (if b then protocol_len q else 0) % 4) (sym e),
)

pub absorb_rest-net :
    (q : TransferQueue) (len : ℕ)
    → q.nbytes_written + len ≤ length (net q)
    → let q' = absorb_rest (net_len_of q) (send_protocol q) q len in
      ((drop (q'.nbytes_written) (net q') ≡ drop (q.nbytes_written + len) (net q))
        × IsUnderWay q'
        × (net_len_of q % 4 ≡ 0 → net_len_of q' % 4 ≡ 0))
unfolding absorb_rest
absorb_rest-net q len k =
    rest_when (q.nbytes_written + len == net_len_of q) (send_protocol q) q (q.nbytes_written + len)
      refl k (λ h. ground (arith, length-net q, h)) (λ h. ground (arith, length-net q, h))

minus_zero : (n : ℕ) → n - 0 ≡ n
minus_zero n = omega arith

suc_minus : (n m : ℕ) → n - m ≡ suc n - suc m
suc_minus n m = omega arith

zero_minus : (n : ℕ) → 0 ≡ 0 - n
zero_minus n = omega arith

pub drop_two :
    (len : ℕ) (xs ys : Bytes) → drop len (xs ++ ys) ≡ drop len xs ++ drop (len - length xs) ys
drop_two zero xs ys = ap (λ k. xs ++ drop k ys) (zero_minus (length xs))
drop_two (suc n) [] ys = ap (λ k. drop k ys) (sym (minus_zero (suc n)))
drop_two (suc n) (x ∷ xs) ys =
    drop_two n xs ys ∙ ap (λ k. drop n xs ++ drop k ys) (suc_minus n (length xs))

-- The acknowledgement that is begun, of which `a` bytes are sent, after `len` bytes more
abbrev pub IsPartialAck : Bytes → Bytes → ℕ → ℕ → Bool → Bool → Type 0
IsPartialAck cur nxt a len part full =
    let absorbed = min (8 - a) len in
    let cur' = if part && full then nxt else cur in
    let a' = if part && full then 0 else if part then a + absorbed else a in
    let rest = if part then drop a cur else [] in
    ((if ltb 0 a' then drop a' cur' else []) ≡ drop len rest)
    × ((if part then len - absorbed else len) ≡ len - length rest)
    × (length cur' ≡ 8)
    × (a' < 8)
    × (length rest ≤ len → (a' ≡ 0) × (cur' ≡ (if part then nxt else cur)))

pub partial_ack :
    (cur nxt : Bytes) (a len : ℕ)
    → length cur ≡ 8
    → length nxt ≡ 8
    → a < 8
    → IsPartialAck cur nxt a len (ltb 0 a) (a + min (8 - a) len == 8)
partial_ack cur nxt zero len c n h =
    (sym (drop-nil len), omega arith, c, omega arith, λ _. (refl, refl))
partial_ack cur nxt (suc a) len c n h = elim (le_or_lt (8 - suc a) len) [
  | inl k ↦
      rw (lt→ltb 0 (suc a) (omega arith), full k)
        (
          sym (drop_all len (drop (suc a) cur) (omega (arith, length-drop (suc a) cur, c))),
          omega (arith, length-drop (suc a) cur, c),
          n,
          omega arith,
          λ _. (refl, refl),
        )
  | inr k ↦
      rw (lt→ltb 0 (suc a) (omega arith), begun k)
        (
          rw (lt→ltb 0 (suc a + min (8 - suc a) len) (omega arith))
              (sym (drop-drop (suc a) len (suc a + min (8 - suc a) len) cur (omega arith))),
          omega (arith, length-drop (suc a) cur, c),
          c,
          omega arith,
          λ t. absurd (omega (arith, length-drop (suc a) cur, c)),
        )
]
  where
    full : 8 - suc a ≤ len → (suc a + min (8 - suc a) len == 8) ≡ true
    full k = ground arith

    begun : len < 8 - suc a → (suc a + min (8 - suc a) len == 8) ≡ false
    begun k = ground arith

abbrev pub injected_of : TransferQueue → Bool
injected_of q = (plan q).injected_whole_ack

-- Of `len1` bytes behind the acknowledgement that was begun, those that belong to messages
abbrev pub message_bytes : ℕ → Bool → ℕ → ℕ
message_bytes partial injected len1 =
    let len2 = len1 - min partial len1 in
    min partial len1 + (if injected then len2 - min 8 len2 else len2)

sum_of : (a b c : ℕ) → a + (b + c) ≡ a + b + c
sum_of a b c = omega arith

pub account-net :
    (q : TransferQueue) (len : ℕ)
    → let (q1, len1) = absorb_partial_ack q len in
      let n = message_bytes ((plan q).first_partial_len) (injected_of q) len1 in
      q.nbytes_written + n ≤ length (net q)
      → let q' = account q len in
        ((drop (q'.nbytes_written) (net q') ≡ drop (q.nbytes_written + n) (net q))
          × IsUnderWay q'
          × (net_len_of q % 4 ≡ 0 → net_len_of q' % 4 ≡ 0))
unfolding account absorb_partial_ack absorb_partial_message absorb_whole_ack
account-net q len k =
    let (d, w, l) = absorb_rest-net _ _ (omega arith) in
    (d ∙ ap (λ j. drop j (net q)) (sym (sum_of _ _ _)), w, l)
