-- ===== src/Channel/Gather.antt =====
-- `write_to_channel` of src/mainloop.rs: what the loop over the messages pushes.
use waypipe.Base.{
  ℕ, zero, suc, ◌+◌, ◌-◌, ◌≤◌, ◌<◌, ◌≡◌, refl, sym, ap, ◌∙◌, arith, Bool, true, false, Option, none,
  some, List, if_cases, subst, [], ◌∷◌, ◌++◌, leb, length, drop, length-drop, length-append,
  drop-append_front, drop-append_back, inl, inr, le_or_lt, le→leb, lt→leb, lt→ltb, append_assoc,
  append-nil,
}
use waypipe.Kernel.Construct.{Bytes}
use waypipe.Channel.{flatten, gather, push_front, Gathered}

-- The part of the acknowledgement that is still to be injected
abbrev pub still : Option Bytes → Bool → Bytes
still none inj = []
still (some ack) true = []
still (some ack) false = ack

-- At the boundary of a message: `bytes` follow, and what is still to be injected before them.
abbrev IsAtBoundary : Option Bytes → Bool → ℕ → Bytes → Gathered → Type 0
IsAtBoundary opt inj p bytes g =
    (g.nwritten ≡ 0)
    × (g.first_partial_len ≡ p)
    × (flatten (g.iovs) ++ still opt (g.injected_whole_ack) ≡ still opt inj ++ bytes)

gather_boundary :
    (opt : Option Bytes) (vs : List Bytes) (inj : Bool) (p : ℕ)
    → IsAtBoundary opt inj p (flatten vs) (gather opt vs 0 inj p)
unfolding gather
gather_boundary opt [] inj p = (refl, refl, sym (append-nil (still opt inj)))
gather_boundary opt ([] ∷ vs) inj p = gather_boundary opt vs inj p
gather_boundary none ((b ∷ v) ∷ vs) false p =
    let (n, q, e) = gather_boundary none vs false p in
    if_cases (IsAtBoundary none false p (flatten ((b ∷ v) ∷ vs))) (leb (suc (length v)) 0)
      (λ h. absurd (ground arith))
      (λ _. (n, q, ap (λ l. b ∷ l) (append_assoc v _ _ ∙ ap (λ l. v ++ l) e)))
gather_boundary none ((b ∷ v) ∷ vs) true p =
    let (n, q, e) = gather_boundary none vs true p in
    if_cases (IsAtBoundary none true p (flatten ((b ∷ v) ∷ vs))) (leb (suc (length v)) 0)
      (λ h. absurd (ground arith))
      (λ _. (n, q, ap (λ l. b ∷ l) (append_assoc v _ _ ∙ ap (λ l. v ++ l) e)))
gather_boundary (some ack) ((b ∷ v) ∷ vs) false p =
    let (n, q, e) = gather_boundary (some ack) vs true p in
    if_cases (IsAtBoundary (some ack) false p (flatten ((b ∷ v) ∷ vs))) (leb (suc (length v)) 0)
      (λ h. absurd (ground arith))
      (λ _. (
        n,
        q,
        append_assoc ack _ _ ∙ ap (λ l. ack ++ (b ∷ l)) (append_assoc v _ _ ∙ ap (λ l. v ++ l) e),
      ))
gather_boundary (some ack) ((b ∷ v) ∷ vs) true p =
    let (n, q, e) = gather_boundary (some ack) vs true p in
    if_cases (IsAtBoundary (some ack) true p (flatten ((b ∷ v) ∷ vs))) (leb (suc (length v)) 0)
      (λ h. absurd (ground arith))
      (λ _. (n, q, ap (λ l. b ∷ l) (append_assoc v _ _ ∙ ap (λ l. v ++ l) e)))

-- From `n` bytes on, within the messages: `pre` is the rest of a message that is begun.
abbrev pub IsWithin : Option Bytes → List Bytes → ℕ → Gathered → Type 0
IsWithin opt vs n g =
    (pre : Bytes) × (post : Bytes) × (drop n (flatten vs) ≡ pre ++ post)
    × (g.nwritten ≡ 0)
    × (g.first_partial_len ≡ length pre)
    × (flatten (g.iovs) ++ still opt (g.injected_whole_ack) ≡ pre ++ (still opt false ++ post))

begun :
    (opt : Option Bytes) (v : Bytes) (vs : List Bytes) (n : ℕ)
    → leb (length v) (suc n) ≡ false
    → push_front (drop (suc n) v ∷ []) (gather opt vs 0 false (length v - suc n))
      ≡ gather opt (v ∷ vs) (suc n) false 0
unfolding gather
begun none v vs n t = rw (t, lt→ltb 0 (suc n) (omega arith))
begun (some ack) v vs n t = ground arith

skipped :
    (opt : Option Bytes) (v : Bytes) (vs : List Bytes) (n : ℕ)
    → leb (length v) n ≡ true
    → gather opt vs (n - length v) false 0 ≡ gather opt (v ∷ vs) n false 0
unfolding gather
skipped opt v vs n t = rw t

gather-IsWithin :
    (opt : Option Bytes) (vs : List Bytes) (n : ℕ)
    → n < length (flatten vs)
    → IsWithin opt vs n (gather opt vs n false 0)
gather-IsWithin opt [] n h = absurd (omega arith)
gather-IsWithin opt (v ∷ vs) zero h =
    let (n, q, e) = gather_boundary opt (v ∷ vs) false 0 in ([], flatten (v ∷ vs), refl, n, q, e)
gather-IsWithin opt (v ∷ vs) (suc n) h = elim (le_or_lt (length v) (suc n)) [
  | inl t ↦
      let (pre, post, d, z, q, e) =
        gather-IsWithin opt vs (suc n - length v) (omega (arith, length-append v (flatten vs))) in
      subst (IsWithin opt (v ∷ vs) (suc n)) (skipped opt v vs (suc n) (le→leb _ _ t))
        (pre, post, drop-append_back (suc n) v (flatten vs) t ∙ d, z, q, e)
  | inr t ↦
      let (z, q, e) = gather_boundary opt vs false (length v - suc n) in
      subst (IsWithin opt (v ∷ vs) (suc n)) (begun opt v vs n (lt→leb _ _ t)) (
        drop (suc n) v,
        flatten vs,
        drop-append_front (suc n) v (flatten vs) (omega arith),
        z,
        omega (arith, q, length-drop (suc n) v),
        append_assoc (drop (suc n) v) _ _ ∙ ap (λ l. drop (suc n) v ++ l) e,
      )
]

abbrev pub behind : ℕ → Gathered
behind n = record { iovs = []; nwritten = n; injected_whole_ack = false; first_partial_len = 0 }

-- Behind the messages nothing of them is left.
pub gather-behind :
    (opt : Option Bytes) (vs : List Bytes) (n m : ℕ)
    → n ≡ length (flatten vs) + m
    → gather opt vs n false 0 ≡ behind m
unfolding gather
gather-behind opt [] n m h = ap behind (omega arith)
gather-behind opt (v ∷ vs) n m h =
    sym (skipped opt v vs n (le→leb _ _ (omega (arith, length-append v (flatten vs)))))
    ∙ gather-behind opt vs (n - length v) m (omega (arith, length-append v (flatten vs)))

pub drop_all : (n : ℕ) (xs : Bytes) → length xs ≤ n → drop n xs ≡ []
drop_all zero [] h = refl
drop_all (suc n) [] h = refl
drop_all zero (x ∷ xs) h = absurd (omega arith)
drop_all (suc n) (x ∷ xs) h = drop_all n xs (omega arith)

-- Behind the messages, or within them
pub gather_upto :
    (opt : Option Bytes) (vs : List Bytes) (n : ℕ)
    → n ≤ length (flatten vs)
    → IsWithin opt vs n (gather opt vs n false 0)
gather_upto opt vs n h = elim (le_or_lt (length (flatten vs)) n) [
  | inl k ↦
      subst (IsWithin opt vs n) (sym (gather-behind opt vs n 0 (omega arith)))
        ([], [], drop_all n (flatten vs) k, refl, refl, sym (append-nil (still opt false)))
  | inr k ↦ gather-IsWithin opt vs n k
]

pub gather-none :
    (vs : List Bytes) (n p : ℕ) → (gather none vs n false p).injected_whole_ack ≡ false
unfolding gather
gather-none [] n p = refl
gather-none (v ∷ vs) n p =
    if_cases (λ (g : Gathered). g.injected_whole_ack ≡ false) (leb (length v) n)
      (λ _. gather-none vs (n - length v) p) (λ _. gather-none vs 0 _)
