-- ===== src/Channel/Final.antt =====
-- `loop_end_to_channel` of src/mainloop.rs: the queue and then the final message are written.
use waypipe.Base.{
  ℕ, ◌+◌, ◌-◌, ◌%◌, ◌≤◌, ◌<◌, ◌≡◌, refl, sym, ap, ◌∙◌, arith, Bool, true, false, not, ◌&&◌, ◌||◌,
  List, [], ◌∷◌, ◌++◌, ltb, if◌then◌else◌, length, take, drop, min, length-append, length-drop,
  Outcome, ok, err, panic, inl, inr, append_assoc, take-append-drop, le→ltb, if_cases, subst, ◌>>=◌,
  drop-drop,
}
use waypipe.Kernel.Construct.{Bytes}
use waypipe.Channel.{
  TransferQueue, net_len_of, send_protocol, protocol_len, ChannelError, flatten, write_to_channel,
  written, has_from_way_output, is_empty,
}
use waypipe.Channel.Plan.{ack_rest, offered}
use waypipe.Channel.Account.{IsWellFormed}
use waypipe.Channel.Write.{account-IsLeft, length-offered}
use waypipe.Channel.Sends.{runs, active, no_rest}
use waypipe.Channel.Loop.{
  Socket, room, closed, busy, broken, answer, write_bytes, Ending, end_write,
}

-- The tests of `has_from_way_output`
abbrev has_output : List Bytes → Bool → Bool → ℕ → ℕ → Bool
has_output others send needs p a =
    not (is_empty others) || ((send && ltb 0 p) || (needs || ltb 0 a))

output_cases :
    (others : List Bytes) (send needs : Bool) (p a : ℕ)
    → has_output others send needs p a ≡ false
    → (others ≡ []) × ((send && ltb 0 p) ≡ false) × (a ≡ 0)
output_cases [] false false p a h = (refl, refl, ground arith)
output_cases [] true false p a h = (refl, ground arith, ground arith)
output_cases [] false true p a h = absurd (ground arith)
output_cases [] true true p a h = absurd (ground arith)
output_cases (v ∷ vs) send needs p a h = absurd (ground arith)

output_ack :
    (others : List Bytes) (send needs : Bool) (p a : ℕ)
    → others ≡ []
    → send ≡ false
    → needs ≡ false
    → has_output others send needs p a ≡ true
    → 0 < a
output_ack [] false false p a e f g h = ground arith
output_ack [] false true p a e f g h = absurd (ground arith)
output_ack [] true needs p a e f g h = absurd (ground arith)
output_ack (v ∷ vs) send needs p a e f g h = absurd (ground arith)

nothing_left :
    (send : Bool) (vs : List Bytes) (xs : Bytes)
    → vs ≡ []
    → (send && ltb 0 (length xs)) ≡ false
    → length (flatten vs ++ (if send then xs else [])) ≡ 0
nothing_left false vs xs e h =
    omega (arith, ap (λ l. length (flatten l)) e, length-append (flatten vs) [])
nothing_left true vs xs e h =
    ground (arith, ap (λ l. length (flatten l)) e, length-append (flatten vs) xs)

pub output_nothing :
    (q : TransferQueue)
    → q.needs_new_ack ≡ false
    → has_from_way_output q ≡ false
    → length (offered q) ≡ 0
unfolding has_from_way_output
output_nothing q free h =
    let (e, s, z) =
      output_cases (q.other_messages) (send_protocol q) (q.needs_new_ack) (protocol_len q)
        (q.ack_nwritten) h in
    omega (
      arith,
      length-offered q free,
      nothing_left (send_protocol q) (q.other_messages) (q.protocol_data) e s,
      ap length (no_rest q (le→ltb 0 (q.ack_nwritten) (omega arith))),
    )

rest-some :
    (q : TransferQueue)
    → length (q.ack_msg_cur) ≡ 8
    → q.ack_nwritten < 8
    → 0 < q.ack_nwritten
    → 0 < length (ack_rest q)
rest-some q c a z = ground (arith, length-drop (q.ack_nwritten) (q.ack_msg_cur))

pub output_some :
    (q : TransferQueue)
    → IsWellFormed q
    → q.needs_new_ack ≡ false
    → has_from_way_output q ≡ true
    → 0 < length (offered q)
unfolding has_from_way_output
output_some q (c, n, a, al, inl h) free o = omega (arith, length-offered q free)
output_some q (c, n, a, al, inr (e, s, z)) free o = omega (
  arith,
  length-offered q free,
  rest-some q c a (output_ack (q.other_messages) _ (q.needs_new_ack) _ (q.ack_nwritten) e s free o),
)

-- What is in the channel, and what is still to come
abbrev pub all_bytes : Bytes → Ending → Bytes
all_bytes endmsg (chan, q, n) = chan ++ (offered q ++ drop n endmsg)

abbrev pub IsSound : Bytes → Ending → Type 0
IsSound endmsg (chan, q, n) = IsWellFormed q × (q.needs_new_ack ≡ false) × (n ≤ length endmsg)

-- A state that a step may lead to
abbrev pub Keeps : Bytes → Ending → Ending → Type 0
Keeps endmsg st st' = IsSound endmsg st' × (all_bytes endmsg st' ≡ all_bytes endmsg st)

-- The result is a value with a property, or an error; the code does not panic.
abbrev pub Returns {ℓ} : {A : Type ℓ} → (A → Type 0) → Outcome ChannelError A → Type 0
Returns P (ok a) = P a
Returns P (err e) = Unit
Returns P panic = ⊥

abbrev IsStep : Bytes → Ending → Bool × Ending → Type 0
IsStep endmsg st (eof, st') = Keeps endmsg st st'

queue-IsStep :
    (endmsg chan : Bytes) (q : TransferQueue) (n : ℕ) (s : Socket)
    → IsSound endmsg (chan, q, n)
    → Returns
        (λ (r : Bool × Bytes × TransferQueue). IsStep endmsg (chan, q, n) (r.0, (r.1, r.2, n)))
        (written chan q (answer s (length (offered q))))
unfolding written
queue-IsStep endmsg chan q n (room k) (w, free, fits) =
    let (w', free', e) = account-IsLeft q (min k (length (offered q))) w (inl free) (omega arith) in
    (
      (w', free', fits),
      ap (λ l. (chan ++ take (min k (length (offered q))) (offered q)) ++ (l ++ drop n endmsg)) e
          ∙ append_assoc chan _ _
          ∙ ap (λ l. chan ++ l)
              (sym (append_assoc (take (min k (length (offered q))) (offered q)) _ (drop n endmsg))
                ∙ ap (λ l. l ++ drop n endmsg)
                    (take-append-drop (min k (length (offered q))) (offered q))),
    )
queue-IsStep endmsg chan q n closed w = (w, refl)
queue-IsStep endmsg chan q n busy w = (w, refl)
queue-IsStep endmsg chan q n broken w = tt

pub empty_list : (xs : Bytes) → length xs ≡ 0 → xs ≡ []
empty_list [] h = refl
empty_list (x ∷ xs) h = absurd (omega arith)

final-IsStep :
    (endmsg chan : Bytes) (q : TransferQueue) (n : ℕ) (s : Socket)
    → IsSound endmsg (chan, q, n)
    → length (offered q) ≡ 0
    → Returns
        (λ (r : Bool × Bytes × ℕ). IsStep endmsg (chan, q, n) (r.0, (r.1, q, r.2)))
        (write_bytes chan endmsg n s)
unfolding write_bytes
final-IsStep endmsg chan q n (room k) (w, free, fits) z =
    let m = min k (length endmsg - n) in
    let e = empty_list (offered q) z in
    (
      (w, free, omega arith),
      ap (λ l. (chan ++ take m (drop n endmsg)) ++ (l ++ drop (n + m) endmsg)) e
          ∙ append_assoc chan _ _
          ∙ ap (λ l. chan ++ (take m (drop n endmsg) ++ l))
              (sym (drop-drop n m (n + m) endmsg refl))
          ∙ ap (λ l. chan ++ l) (take-append-drop m (drop n endmsg))
          ∙ ap (λ l. chan ++ (l ++ drop n endmsg)) (sym e),
    )
final-IsStep endmsg chan q n closed w z = (w, refl)
final-IsStep endmsg chan q n busy w z = (w, refl)
final-IsStep endmsg chan q n broken w z = tt

-- A result that is passed on with a value made of it
passed :
    {A B : Type 0} (P : A → Type 0) (Q : B → Type 0) (f : A → Outcome ChannelError B)
    (r : Outcome ChannelError A)
    → Returns P r
    → ((a : A) → P a → Returns Q (f a))
    → Returns Q (r >>= f)
passed P Q f (ok a) h g = g a h
passed P Q f (err e) h g = tt
passed P Q f panic h g = h

pub aligned_of : (q : TransferQueue) → IsWellFormed q → net_len_of q % 4 ≡ 0
aligned_of q (_, _, _, al, _) = al

pub end_write-IsStep :
    (endmsg : Bytes) (st : Ending) (s : Socket)
    → IsSound endmsg st
    → Returns (IsStep endmsg st) (end_write endmsg st s)
unfolding end_write
end_write-IsStep endmsg (chan, q, n) s (w, free, fits) =
    if_cases (Returns (IsStep endmsg (chan, q, n))) (has_from_way_output q)
      (λ o.
        passed _ (IsStep endmsg (chan, q, n)) _
          (write_to_channel chan q (answer s (length (offered q))))
          (subst (Returns _)
            (sym (
              runs chan q (answer s (length (offered q))) (aligned_of q w)
                (active q 0 (inl free) (output_some q w free o))))
            (queue-IsStep endmsg chan q n s (w, free, fits)))
          (λ r h. h))
      (λ o.
        passed _ (IsStep endmsg (chan, q, n)) _ (write_bytes chan endmsg n s)
          (final-IsStep endmsg chan q n s (w, free, fits) (output_nothing q free o)) (λ r h. h))
