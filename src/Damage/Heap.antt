-- ===== src/Damage/Heap.antt =====
-- The heap of `process_group` in src/damage.rs: what `pop` takes, and what it leaves.
use waypipe.Base.{
  ℕ, ◌+◌, ◌≤◌, ◌≡◌, refl, arith, true, false, List, [], ◌∷◌, All, ◌⊎◌, inl, inr, if_cases,
}
use waypipe.Damage.Rects.{Entry, above, extract}

abbrev pub Any : (Entry → Type 0) → List Entry → Type 0
Any R [] = ⊥
Any R (e ∷ h) = R e ⊎ Any R h

abbrev pub sum_of : (Entry → ℕ) → List Entry → ℕ
sum_of w [] = 0
sum_of w (e ∷ h) = w e + sum_of w h

pub extract-All :
    (Q : Entry → Type 0) (e : Entry) (h : List Entry)
    → All Q (e ∷ h)
    → let (top, rest) = extract e h in (Q top × All Q rest)
unfolding extract
extract-All Q e [] (q, qs) = (q, tt)
extract-All Q e (f ∷ h) (q, qs) =
    let (t, r) = extract-All Q f h qs in
    let (top, rest) = extract f h in
    if_cases (λ (x : Entry × List Entry). Q (x.0) × All Q (x.1)) (above top e) (λ _. (t, (q, r)))
      (λ _. (q, (t, r)))

pub extract-Any :
    (R : Entry → Type 0) (e : Entry) (h : List Entry)
    → Any R (e ∷ h)
    → let (top, rest) = extract e h in (R top ⊎ Any R rest)
unfolding extract
extract-Any R e [] a = a
extract-Any R e (f ∷ h) a =
    let ih = extract-Any R f h in
    let (top, rest) = extract f h in
    if_cases (λ (x : Entry × List Entry). R (x.0) ⊎ Any R (x.1)) (above top e) (λ _. first a ih)
      (λ _. second a ih)
  where
    first : {A B T S : Type 0} → A ⊎ B → (B → T ⊎ S) → T ⊎ (A ⊎ S)
    first (inl x) ih = inr (inl x)
    first (inr y) ih = elim (ih y) [ inl t ↦ inl t | inr s ↦ inr (inr s) ]

    second : {A B T S : Type 0} → A ⊎ B → (B → T ⊎ S) → A ⊎ (T ⊎ S)
    second (inl x) ih = inl x
    second (inr y) ih = inr (ih y)

pub extract-sum_of :
    (w : Entry → ℕ) (e : Entry) (h : List Entry)
    → let (top, rest) = extract e h in sum_of w (e ∷ h) ≡ w top + sum_of w rest
unfolding extract
extract-sum_of w e [] = refl
extract-sum_of w e (f ∷ h) =
    let ih = extract-sum_of w f h in
    let (top, rest) = extract f h in
    if_cases (λ (x : Entry × List Entry). sum_of w (e ∷ f ∷ h) ≡ w (x.0) + sum_of w (x.1))
      (above top e) (λ _. omega (arith, ih)) (λ _. omega (arith, ih))

-- The entry that is taken starts first.
abbrev pub IsFirst : Entry → List Entry → Type 0
IsFirst top rest = All (λ f. top.start ≤ f.start) rest

not_above : (a b : Entry) → above a b ≡ false → b.start ≤ a.start
not_above a b h = ground arith

is_above : (a b : Entry) → above a b ≡ true → a.start ≤ b.start
is_above a b h = ground arith

IsFirst-trans : (a b : Entry) (h : List Entry) → a.start ≤ b.start → IsFirst b h → IsFirst a h
IsFirst-trans a b [] l f = tt
IsFirst-trans a b (e ∷ h) l (f, fs) = (omega arith, IsFirst-trans a b h l fs)

pub extract-IsFirst :
    (e : Entry) (h : List Entry) → let (top, rest) = extract e h in IsFirst top rest
unfolding extract
extract-IsFirst e [] = tt
extract-IsFirst e (f ∷ h) =
    let ih = extract-IsFirst f h in
    let (top, rest) = extract f h in
    if_cases (λ (x : Entry × List Entry). IsFirst (x.0) (x.1)) (above top e)
      (λ a. (is_above top e a, ih))
      (λ a. (not_above top e a, IsFirst-trans e top rest (not_above top e a) ih))
