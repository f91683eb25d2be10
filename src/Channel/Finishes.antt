-- ===== src/Channel/Finishes.antt =====
-- `loop_end_to_channel` of src/mainloop.rs: the loop comes to its end.
use waypipe.Base.{
  ℕ, suc, ◌+◌, ◌-◌, ◌≤◌, ◌<◌, ◌≡◌, refl, sym, ap, ◌∙◌, arith, Bool, true, false, ◌||◌, ltb, min,
  List, [], ◌∷◌, ◌++◌, length, take, drop, length-drop, ok, append-nil, inl, inr, Bool-cases, some,
  All, subst, le→ltb,
}
use waypipe.Kernel.Construct.{Bytes}
use waypipe.Channel.{TransferQueue, account, written, has_from_way_output}
use waypipe.Channel.Gather.{drop_all}
use waypipe.Channel.Plan.{offered}
use waypipe.Channel.Write.{account-IsLeft}
use waypipe.Channel.Sends.{runs, active}
use waypipe.Channel.Loop.{room, answer, Round, events, write_bytes, Ending, end_write, end_loop}
use waypipe.Channel.Final.{
  output_nothing, output_some, empty_list, end_write-IsStep, aligned_of, all_bytes, IsSound,
  Returns,
}

-- The channel can be written, and takes a byte at least.
abbrev pub IsWritable : Round → Type 0
IsWritable r = (k : ℕ) × (r ≡ events (some (room (suc k))) false)

-- The bytes that are still to be written
abbrev pub remaining : Bytes → Ending → ℕ
remaining endmsg (chan, q, n) = length (offered q) + (length endmsg - n)

abbrev goes_on : Bytes → Ending → Bool
goes_on endmsg (chan, q, n) = has_from_way_output q || ltb n (length endmsg)

Progress : Bytes → Ending → ℕ → Type 0
Progress endmsg st k =
    (st' : Ending) × (end_write endmsg st (room (suc k)) ≡ ok (false, st'))
    × (remaining endmsg st' < remaining endmsg st)

progress :
    (endmsg : Bytes) (st : Ending) (k : ℕ)
    → IsSound endmsg st
    → goes_on endmsg st ≡ true
    → Progress endmsg st k
unfolding Progress end_write write_bytes written
progress endmsg (chan, q, n) k (w, free, fits) g = elim (Bool-cases (has_from_way_output q)) [
  | inl o ↦
      let some = output_some q w free o in
      let len = min (suc k) (length (offered q)) in
      let (_, _, e) = account-IsLeft q len w (inl free) (omega arith) in
      (
        (chan ++ take len (offered q), account q len, n),
        rw
            (
              o,
              runs chan q (answer (room (suc k)) (length (offered q))) (aligned_of q w)
                  (active q 0 (inl free) some),
            )
            refl,
        omega (arith, ap length e, length-drop len (offered q)),
      )
  | inr o ↦ (
    (
      chan ++ take (min (suc k) (length endmsg - n)) (drop n endmsg),
      q,
      n + min (suc k) (length endmsg - n),
    ),
    rw o refl,
    ground arith,
  )
]

-- When the loop stops, everything is written.
stopped :
    (endmsg : Bytes) (st : Ending)
    → IsSound endmsg st
    → goes_on endmsg st ≡ false
    → (st ≡ (all_bytes endmsg st, st.1, length endmsg)) × (has_from_way_output (st.1) ≡ false)
stopped endmsg (chan, q, n) (w, free, fits) g =
    let o = silent (has_from_way_output q) (ltb n (length endmsg)) g in
    (
      whole chan n
          (sym (
            ap (λ l. chan ++ (l ++ drop n endmsg))
              (empty_list (offered q) (output_nothing q free (o.0)))
            ∙ ap (λ l. chan ++ l) (drop_all n endmsg (ground (arith, o.1)))
            ∙ append-nil chan))
          (ground (arith, o.1)),
      o.0,
    )
  where
    silent : (a b : Bool) → (a || b) ≡ false → (a ≡ false) × (b ≡ false)
    silent false false h = (refl, refl)
    silent false true h = (refl, h)
    silent true b h = absurd (ground arith)

    whole :
        (c : Bytes) (m : ℕ)
        → c ≡ all_bytes endmsg (chan, q, n)
        → m ≡ length endmsg
        → ◌≡◌ {A = Ending} (c, q, m) (all_bytes endmsg (chan, q, n), q, length endmsg)
    whole c m e f = rw (e, f)

none_remaining :
    (endmsg : Bytes) (st : Ending)
    → IsSound endmsg st
    → remaining endmsg st ≤ 0
    → goes_on endmsg st ≡ false
none_remaining endmsg (chan, q, n) (w, free, fits) h = elim (Bool-cases (has_from_way_output q)) [
  | inl o ↦ absurd (omega (arith, output_some q w free o))
  | inr o ↦ rw (o, le→ltb n (length endmsg) (omega arith)) refl
]

round_over :
    (endmsg : Bytes) (rounds : List Round) (st : Ending) (k : ℕ)
    → goes_on endmsg st ≡ false
    → end_loop endmsg (events (some (room (suc k))) false ∷ rounds) st ≡ ok st
unfolding end_loop
round_over endmsg rounds (chan, q, n) k h = rw h

round_on :
    (endmsg : Bytes) (rounds : List Round) (st st' : Ending) (k : ℕ)
    → goes_on endmsg st ≡ true
    → end_write endmsg st (room (suc k)) ≡ ok (false, st')
    → end_loop endmsg (events (some (room (suc k))) false ∷ rounds) st ≡ end_loop endmsg rounds st'
unfolding end_loop
round_on endmsg rounds (chan, q, n) st' k h e = rw (h, e)

ends : (endmsg : Bytes) (st : Ending) → end_loop endmsg [] st ≡ ok st
unfolding end_loop
ends endmsg st = refl

-- From a well-formed queue with no acknowledgement queued, when at each return of `ppoll` the
-- channel can be written and takes a byte at least, and there are as many returns as bytes to be
-- written: the loop of `loop_end_to_channel` ends with no error, the channel holds in this order
-- what it held, what the queue offered and the rest of the final message, and the queue has no
-- more output.
pub end_loop_finishes :
    (endmsg : Bytes) (rounds : List Round) (st : Ending)
    → IsSound endmsg st
    → All IsWritable rounds
    → remaining endmsg st ≤ length rounds
    → (q : TransferQueue) × (end_loop endmsg rounds st ≡ ok (all_bytes endmsg st, q, length endmsg))
      × (has_from_way_output q ≡ false)
unfolding Progress
end_loop_finishes endmsg [] st w a k =
    let (e, o) = stopped endmsg st w (none_remaining endmsg st w k) in
    (st.1, ends endmsg st ∙ ap ok e, o)
end_loop_finishes endmsg (r ∷ rounds) st w ((k, e), a) fits =
    elim (Bool-cases (goes_on endmsg st)) [
      | inl g ↦
          let (st', run, less) = progress endmsg st k w g in
          let (w', same) = subst (Returns _) run (end_write-IsStep endmsg st (room (suc k)) w) in
          let (q, f, o) = end_loop_finishes endmsg rounds st' w' a (omega arith) in
          (
            q,
            ap (λ r. end_loop endmsg (r ∷ rounds) st) e
                ∙ round_on endmsg rounds st st' k g run
                ∙ f
                ∙ ap (λ l. ok (l, q, length endmsg)) same,
            o,
          )
      | inr g ↦
          let (f, o) = stopped endmsg st w g in
          (
            st.1,
            ap (λ r. end_loop endmsg (r ∷ rounds) st) e ∙ round_over endmsg rounds st k g ∙ ap ok f,
            o,
          )
    ]
