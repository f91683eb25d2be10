-- ===== src/Base/Slices.antt =====
-- Rust's slices of a buffer, and writes into one; `none` is an index out of range.
use Prim.Native.Nat.{ℕ, ◌+◌, ◌-◌, ◌≤◌}
use mathlib.Core.Path.{◌≡◌, sym, ap, ◌∙◌}
use mathlib.Core.Bool.{◌&&◌}
use mathlib.Core.List.{List, [], ◌++◌, append_assoc, append-nil}
use mathlib.Core.Option.{Option, none, some}
use native.Mathlib.Omega.{arith}
use waypipe.Base.Tests.{leb, le→leb, if◌then◌else◌}
use waypipe.Base.Lists.{
  length, take, drop, length-append, length-take, length-drop, take-append, drop-append,
  take-append-drop, drop-drop,
}

module _ {ℓ} {A : Type ℓ} where
  -- `xs[a..b]`
  unfoldable pub slice : List A → ℕ → ℕ → Option (List A)
  slice xs a b = if leb a b && leb b (length xs) then some (take (b - a) (drop a xs)) else none

  -- `xs[pos..pos + src.len()].copy_from_slice(src)`
  unfoldable pub copy_at : List A → ℕ → List A → Option (List A)
  copy_at xs pos src =
      if leb (pos + length src) (length xs)
      then some (take pos xs ++ (src ++ drop (pos + length src) xs))
      else none

  pub slice_in :
      (xs : List A) (a b : ℕ)
      → a ≤ b
      → b ≤ length xs
      → slice xs a b ≡ some (take (b - a) (drop a xs))
  unfolding slice
  slice_in xs a b h k = rw (le→leb a b h, le→leb b (length xs) k)

  drop-append_two :
      (xs ys zs : List A) (n : ℕ) → n ≡ length xs + length ys → drop n (xs ++ (ys ++ zs)) ≡ zs
  drop-append_two xs ys zs n e =
      ap (λ l. drop n l) (sym (append_assoc xs ys zs))
      ∙ drop-append (xs ++ ys) zs n (omega (arith, length-append xs ys))

  -- The slice at the place of `ys` is `ys`.
  pub slice_mid :
      (xs ys zs : List A) (a b : ℕ)
      → a ≡ length xs
      → b ≡ a + length ys
      → slice (xs ++ (ys ++ zs)) a b ≡ some ys
  unfolding slice
  slice_mid xs ys zs a b ha hb = rw (
    le→leb a b (omega arith),
    le→leb b (length (xs ++ (ys ++ zs)))
        (omega (arith, length-append xs (ys ++ zs), length-append ys zs)),
    drop-append xs (ys ++ zs) a ha,
    take-append ys zs (b - a) (omega arith),
  )

  -- A write over `ys` leaves what stands before and behind it.
  pub copy_at_mid :
      (xs ys zs : List A) (pos : ℕ) (src : List A)
      → pos ≡ length xs
      → length src ≡ length ys
      → copy_at (xs ++ (ys ++ zs)) pos src ≡ some (xs ++ (src ++ zs))
  unfolding copy_at
  copy_at_mid xs ys zs pos src hp hs = rw (
    le→leb (pos + length src) (length (xs ++ (ys ++ zs)))
        (omega (arith, length-append xs (ys ++ zs), length-append ys zs)),
    take-append xs (ys ++ zs) pos hp,
    drop-append_two xs ys zs (pos + length src) (omega arith),
  )

  -- A write in range keeps the length.
  pub length-copy_at :
      (xs : List A) (pos : ℕ) (src : List A) {ys : List A}
      → copy_at xs pos src ≡ some ys
      → length ys ≡ length xs
  unfolding copy_at
  length-copy_at xs pos src e = ground (
    arith,
    length-append (take pos xs) (src ++ drop (pos + length src) xs),
    length-append src (drop (pos + length src) xs),
    length-take pos xs,
    length-drop (pos + length src) xs,
  )

  -- A write behind `front`, over as much of `xs` as it needs.
  pub copy_at_behind :
      (front xs : List A) (pos : ℕ) (src : List A)
      → pos ≡ length front
      → length src ≤ length xs
      → copy_at (front ++ xs) pos src ≡ some (front ++ (src ++ drop (length src) xs))
  copy_at_behind front xs pos src hp fits =
      ap (λ l. copy_at (front ++ l) pos src) (sym (take-append-drop (length src) xs))
      ∙ copy_at_mid front (take (length src) xs) (drop (length src) xs) pos src hp
          (omega (arith, length-take (length src) xs))

  pub slice_end :
      (xs ys : List A) (a b : ℕ)
      → a ≡ length xs
      → b ≡ a + length ys
      → slice (xs ++ ys) a b ≡ some ys
  slice_end xs ys a b ha hb =
      ap (λ l. slice (xs ++ l) a b) (sym (append-nil ys)) ∙ slice_mid xs ys [] a b ha hb

  pub copy_at_end :
      (xs old : List A) (pos : ℕ) (src : List A)
      → pos ≡ length xs
      → length src ≡ length old
      → copy_at (xs ++ old) pos src ≡ some (xs ++ src)
  copy_at_end xs old pos src hp hs =
      ap (λ l. copy_at (xs ++ l) pos src) (sym (append-nil old))
      ∙ copy_at_mid xs old [] pos src hp hs
      ∙ ap (λ l. some (xs ++ l)) (append-nil src)

  -- A list is what stands before `a`, the slice `a..b`, and what stands from `b` on.
  pub split_three :
      (xs : List A) (a b : ℕ) → a ≤ b → xs ≡ take a xs ++ (take (b - a) (drop a xs) ++ drop b xs)
  split_three xs a b h =
      sym (take-append-drop a xs)
      ∙ ap (λ l. take a xs ++ l)
          (sym (take-append-drop (b - a) (drop a xs))
            ∙ ap (λ l. take (b - a) (drop a xs) ++ l) (drop-drop a (b - a) b xs (omega arith)))
