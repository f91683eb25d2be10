-- ===== src/Channel/Plan.antt =====
-- `write_to_channel` of src/mainloop.rs: what is handed to `writev`.
use waypipe.Base.{
  ℕ, suc, ◌+◌, ◌-◌, ◌≤◌, ◌<◌, ◌≡◌, refl, sym, ap, ◌∙◌, arith, Bool, true, false, ◌&&◌, ◌||◌, not,
  Option, none, some, List, if_cases, subst, [], ◌∷◌, ◌++◌, ltb, if◌then◌else◌, length, drop,
  drop-nil, length-append, drop-append_front, drop-append_back, ◌⊎◌, inl, inr, le_or_lt, ltb,
  append_assoc, append-nil,
}
use waypipe.Kernel.Construct.{Bytes}
use waypipe.Channel.Gather.{
  still, IsWithin, behind, gather_upto, gather-behind, gather-none, drop_all,
}
use waypipe.Channel.{
  TransferQueue, send_protocol, flatten, sum_lengths, net_len_of, opt_whole_ack, complete, gather,
  plan, whole_ack, injects, Gathered,
}

pub sum_lengths_lem : (n : ℕ) (vs : List Bytes) → sum_lengths n vs ≡ length (flatten vs) + n
sum_lengths_lem n [] = omega arith
sum_lengths_lem n (v ∷ vs) =
    omega (arith, sum_lengths_lem (n + length v) vs, length-append v (flatten vs))

-- What is to be sent besides acknowledgements, sent or not
abbrev pub net : TransferQueue → Bytes
net q = flatten (q.other_messages) ++ (if send_protocol q then q.protocol_data else [])

length-net_of :
    (b : Bool) (vs : List Bytes) (xs : Bytes)
    → sum_lengths (if b then length xs else 0) vs ≡ length (flatten vs ++ (if b then xs else []))
length-net_of true vs xs =
    omega (arith, sum_lengths_lem (length xs) vs, length-append (flatten vs) xs)
length-net_of false vs xs = omega (arith, sum_lengths_lem 0 vs, length-append (flatten vs) [])

pub length-net : (q : TransferQueue) → net_len_of q ≡ length (net q)
length-net q = length-net_of (send_protocol q) (q.other_messages) (q.protocol_data)

-- The rest of an acknowledgement that is begun
abbrev pub ack_rest : TransferQueue → Bytes
ack_rest q = if ltb 0 (q.ack_nwritten) then drop (q.ack_nwritten) (q.ack_msg_cur) else []

-- What the next write offers to the channel
abbrev pub offered : TransferQueue → Bytes
offered q = flatten ((plan q).iovs)

-- The composition of what is offered: `whole` is the acknowledgement that is injected.
abbrev pub IsPlan : TransferQueue → Option Bytes → Gathered → Type 0
IsPlan q opt g =
    (pre : Bytes) × (whole : Bytes) × (post : Bytes) × (drop (q.nbytes_written) (net q)
      ≡ pre ++ post)
    × (flatten (g.iovs) ≡ ack_rest q ++ (pre ++ (whole ++ post)))
    × (g.first_partial_len ≡ length pre)
    × (((g.injected_whole_ack ≡ true) × (opt ≡ some whole))
        ⊎ ((g.injected_whole_ack ≡ false)
            × (whole ≡ [])
            × ((opt ≡ none) ⊎ (length (flatten (q.other_messages)) < q.nbytes_written))))

flatten-append : (xs ys : List Bytes) → flatten (xs ++ ys) ≡ flatten xs ++ flatten ys
flatten-append [] ys = refl
flatten-append (x ∷ xs) ys = ap (λ l. x ++ l) (flatten-append xs ys) ∙ sym (append_assoc x _ _)

protocol_rest :
    (b : Bool) (n : ℕ) (xs : Bytes)
    → flatten (if b && ltb n (length xs) then drop n xs ∷ [] else [])
      ≡ drop n (if b then xs else [])
protocol_rest false n xs = sym (drop-nil n)
protocol_rest true n xs =
    if_cases (λ l. flatten l ≡ drop n xs) (ltb n (length xs)) (λ _. append-nil (drop n xs))
      (λ h. sym (drop_all n xs (ground arith)))

rest_of_ack : (b : Bool) (xs : Bytes) → flatten (if b then xs ∷ [] else []) ≡ (if b then xs else [])
rest_of_ack true xs = append-nil xs
rest_of_ack false xs = refl

abbrev protocol_left : TransferQueue → Bytes
protocol_left q = if send_protocol q then q.protocol_data else []

flatten-complete :
    (q : TransferQueue) (opt : Option Bytes) (g : Gathered)
    → flatten ((complete q opt g).iovs)
      ≡ ack_rest q
        ++ (flatten (g.iovs)
            ++ (flatten
                  (if injects opt (g.injected_whole_ack) (g.nwritten) then whole_ack opt else [])
                ++ drop (g.nwritten) (protocol_left q)))
unfolding complete
flatten-complete q opt g = rw (
  flatten-append
      (if ltb 0 (q.ack_nwritten) then drop (q.ack_nwritten) (q.ack_msg_cur) ∷ [] else []),
  rest_of_ack (ltb 0 (q.ack_nwritten)),
  flatten-append (g.iovs),
  flatten-append (if injects opt (g.injected_whole_ack) (g.nwritten) then whole_ack opt else []),
  protocol_rest (send_protocol q) (g.nwritten) (q.protocol_data),
)

injects-still :
    (opt : Option Bytes) (inj : Bool)
    → flatten (if injects opt inj 0 then whole_ack opt else []) ≡ still opt inj
injects-still none inj = refl
injects-still (some ack) true = refl
injects-still (some ack) false = append-nil ack

complete_injected :
    (q : TransferQueue) (opt : Option Bytes) (g : Gathered)
    → g.nwritten ≡ 0
    → (opt ≡ none → g.injected_whole_ack ≡ false)
    → (((complete q opt g).injected_whole_ack ≡ true) × (opt ≡ some (still opt false)))
      ⊎ (((complete q opt g).injected_whole_ack ≡ false) × (still opt false ≡ []) × (opt ≡ none))
unfolding complete
complete_injected q none g z h = inr (rw (h refl), refl, refl)
complete_injected q (some ack) g z h = inl (rw z (injected (g.injected_whole_ack)), refl)
  where
    injected : (b : Bool) → (b || (not b && true)) ≡ true
    injected true = refl
    injected false = refl

net-drop :
    (q : TransferQueue) (n : ℕ)
    → n ≤ length (flatten (q.other_messages))
    → drop n (net q) ≡ drop n (flatten (q.other_messages)) ++ protocol_left q
net-drop q n h = drop-append_front n (flatten (q.other_messages)) _ h

partial :
    (q : TransferQueue) (opt : Option Bytes) (g : Gathered)
    → (complete q opt g).first_partial_len ≡ g.first_partial_len
unfolding complete
partial q opt g = refl

not_now : (opt : Option Bytes) (m : ℕ) → injects opt false (suc m) ≡ false
not_now none m = refl
not_now (some ack) m = ground arith

not_now' :
    (q : TransferQueue) (opt : Option Bytes) (m : ℕ)
    → (complete q opt (behind (suc m))).injected_whole_ack ≡ false
unfolding complete
not_now' q opt m = not_now opt m

module _ (q : TransferQueue) (opt : Option Bytes) where
  middle :
      (nw : ℕ) (inj : Bool) (iovs : Bytes) (pl pre post : Bytes)
      → nw ≡ 0
      → iovs ++ still opt inj ≡ pre ++ (still opt false ++ post)
      → iovs ++ (flatten (if injects opt inj nw then whole_ack opt else []) ++ drop nw pl)
        ≡ pre ++ (still opt false ++ (post ++ pl))
  middle nw inj iovs pl pre post z e =
      rw (z, injects-still opt inj)
        (sym (append_assoc iovs (still opt inj) pl)
          ∙ ap (λ l. l ++ pl) e
          ∙ append_assoc pre _ _
          ∙ ap (λ l. pre ++ l) (append_assoc (still opt false) post pl))

  complete_within :
      (g : Gathered)
      → q.nbytes_written ≤ length (flatten (q.other_messages))
      → (opt ≡ none → g.injected_whole_ack ≡ false)
      → IsWithin opt (q.other_messages) (q.nbytes_written) g
      → IsPlan q opt (complete q opt g)
  complete_within g h f (pre, post, d, z, p, e) = (
    pre,
    still opt false,
    post ++ protocol_left q,
    net-drop q (q.nbytes_written) h ∙ ap (λ l. l ++ protocol_left q) d ∙ append_assoc pre _ _,
    flatten-complete q opt g
        ∙ ap (λ l. ack_rest q ++ l)
            (middle (g.nwritten) (g.injected_whole_ack) (flatten (g.iovs)) (protocol_left q) pre
              post z e),
    partial q opt g ∙ p,
    ground (arith, complete_injected q opt g z f),
  )

  distance : (n k m : ℕ) → n ≡ k + suc m → n - k ≡ suc m
  distance n k m h = omega arith

  complete-behind :
      (m : ℕ)
      → q.nbytes_written ≡ length (flatten (q.other_messages)) + suc m
      → IsPlan q opt (complete q opt (behind (suc m)))
  complete-behind m h = (
    [],
    [],
    drop (suc m) (protocol_left q),
    drop-append_back (q.nbytes_written) (flatten (q.other_messages)) _ (omega arith)
        ∙ ap (λ k. drop k (protocol_left q)) (distance _ _ m h),
    flatten-complete q opt (behind (suc m)) ∙ ap (λ l. ack_rest q ++ l) (rw (not_now opt m)),
    partial q opt (behind (suc m)),
    inr (not_now' q opt m, refl, inr (omega arith)),
  )

pub plan-IsPlan : (q : TransferQueue) → IsPlan q (opt_whole_ack q) (plan q)
unfolding plan
plan-IsPlan q =
    let n = q.nbytes_written in
    let vs = q.other_messages in
    let opt = opt_whole_ack q in
    elim (le_or_lt n (length (flatten vs))) [
      | inl h ↦
          complete_within q opt _ h
            (λ e.
              subst (λ o. (gather o vs n false 0).injected_whole_ack ≡ false) (sym e)
                (gather-none vs n 0))
            (gather_upto opt vs n h)
      | inr h ↦
          subst (λ g. IsPlan q opt (complete q opt g))
            (sym (gather-behind opt vs n (suc (n - suc (length (flatten vs)))) (omega arith)))
            (complete-behind q opt (n - suc (length (flatten vs))) (omega arith))
    ]

pub no_ack : (q : TransferQueue) → q.needs_new_ack ≡ false → opt_whole_ack q ≡ none
unfolding opt_whole_ack
no_ack q h = rw h

-- With no acknowledgement to inject, the rest of the one that is begun is offered, and then the
-- rest of the messages.
pub offered_free :
    (q : TransferQueue)
    → q.needs_new_ack ≡ false
    → offered q ≡ ack_rest q ++ drop (q.nbytes_written) (net q)
offered_free q h =
    let (pre, whole, post, d, e, p, injection) = plan-IsPlan q in
    e ∙ ap (λ l. ack_rest q ++ l) (ap (λ w. pre ++ (w ++ post)) (none_whole injection) ∙ sym d)
  where
    none_whole :
        {whole : Bytes} {A B C : Type 0}
        → (A × (opt_whole_ack q ≡ some whole)) ⊎ (B × (whole ≡ []) × C)
        → whole ≡ []
    none_whole (inl (_, o)) = absurd (ground (arith, no_ack q h, o))
    none_whole (inr (_, w, _)) = w
