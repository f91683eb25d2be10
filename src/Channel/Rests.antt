-- ===== src/Channel/Rests.antt =====
-- `write_to_channel` of src/mainloop.rs: lemmas on bytes and counts for the accounting of a write.
use waypipe.Base.{
  ℕ, ◌+◌, ◌-◌, ◌≤◌, ◌<◌, ◌≡◌, refl, sym, ap, ◌∙◌, arith, Bool, true, false, Option, none, some, [],
  ◌++◌, ltb, if◌then◌else◌, length, le_or_lt, lt→ltb, drop, min, drop-drop, drop-append_back, ◌⊎◌,
  inl, inr,
}
use waypipe.Kernel.Construct.{Bytes}
use waypipe.Channel.Gather.{drop_all}
use waypipe.Channel.Account.{drop_two, message_bytes}

pub none_injected :
    (opt : Option Bytes) (b : Bool) (whole : Bytes) (B C : Type 0)
    → opt ≡ none
    → ((b ≡ true) × (opt ≡ some whole)) ⊎ ((b ≡ false) × B × C)
    → b ≡ false
none_injected opt b whole B C h (inl (_, o)) = absurd (ground (arith, h, o))
none_injected opt b whole B C h (inr (i, _, _)) = i

pub some_injected :
    (opt : Option Bytes) (b : Bool) (whole : Bytes) (B C : Type 0)
    → b ≡ true
    → ((b ≡ true) × (opt ≡ some whole)) ⊎ ((b ≡ false) × B × C)
    → opt ≡ some whole
some_injected opt b whole B C h (inl (_, o)) = o
some_injected opt b whole B C h (inr (i, _, _)) = absurd (ground (arith, h, i))

pub message_bytes_free : (partial len1 : ℕ) → message_bytes partial false len1 ≡ len1
message_bytes_free partial len1 = omega arith

pub rest_join :
    (xs ys : Bytes) (n m len : ℕ)
    → m ≡ len - length xs
    → drop len xs ++ drop (n + m) ys ≡ drop len (xs ++ drop n ys)
rest_join xs ys n m len e = sym (
    drop_two len xs (drop n ys)
    ∙ ap (λ k. drop len xs ++ drop k (drop n ys)) (sym e)
    ∙ ap (λ l. drop len xs ++ l) (drop-drop n m (n + m) ys refl))

-- The acknowledgement, after `k` of its bytes are sent
pub begun_ack :
    (a : ℕ) (cur : Bytes) (k : ℕ)
    → 0 < k
    → length cur ≡ 8
    → a ≡ (if ltb (min 8 k) 8 then min 8 k else 0)
    → ((if ltb 0 a then drop a cur else []) ≡ drop k cur) × (a < 8)
begun_ack a cur k pos c e = elim (le_or_lt 8 k) [
  | inl h ↦ rw (none_begun h) (sym (drop_all k cur (omega arith)), omega arith)
  | inr h ↦ rw (some_begun h, lt→ltb 0 k pos) (refl, h)
]
  where
    none_begun : 8 ≤ k → a ≡ 0
    none_begun h = ground arith

    some_begun : k < 8 → a ≡ k
    some_begun h = ground arith

pub ack_count :
    (a a1 len2 k : ℕ)
    → len2 ≡ k
    → a1 ≡ 0
    → a ≡ (if ltb (min 8 len2) 8 then min 8 len2 else a1)
    → a ≡ (if ltb (min 8 k) 8 then min 8 k else 0)
ack_count a a1 len2 k e z h = ground arith

-- The rest behind the acknowledgement, and behind the messages that are sent with it
pub behind_ack :
    (rest pre whole post : Bytes) (len k : ℕ)
    → length rest + length pre ≤ len
    → k ≡ len - length rest - length pre
    → length whole ≡ 8
    → drop len (rest ++ (pre ++ (whole ++ post))) ≡ drop k whole ++ drop (k - 8) post
behind_ack rest pre whole post len k h e w =
    drop-append_back len rest _ (omega arith)
    ∙ drop-append_back (len - length rest) pre _ (omega arith)
    ∙ ap (λ j. drop j (whole ++ post)) (sym e)
    ∙ drop_two k whole post
    ∙ ap (λ j. drop k whole ++ drop (k - j) post) w

pub behind_messages :
    (n m k : ℕ) (xs pre post : Bytes)
    → drop n xs ≡ pre ++ post
    → m ≡ length pre + k
    → drop (n + m) xs ≡ drop k post
behind_messages n m k xs pre post d e =
    sym (drop-drop n m (n + m) xs refl)
    ∙ ap (drop m) d
    ∙ drop-append_back m pre post (omega arith)
    ∙ ap (λ j. drop j post) (distance e)
  where
    distance : m ≡ length pre + k → m - length pre ≡ k
    distance e = omega arith

pub message_bytes_injected :
    (partial n len1 k : ℕ)
    → partial ≡ n
    → len1 ≡ n + k
    → message_bytes partial true len1 ≡ n + (k - 8)
message_bytes_injected partial n len1 k e f = omega arith

pub message_bytes_none : (partial len1 : ℕ) → len1 ≡ 0 → message_bytes partial true len1 ≡ 0
message_bytes_none partial len1 z = omega arith

pub forgotten :
    (a a1 partial len1 : ℕ)
    → len1 ≡ 0
    → let len2 = len1 - min partial len1 in
      (a ≡ (if ltb (min 8 len2) 8 then min 8 len2 else a1) → a ≡ 0)
forgotten a a1 partial len1 z h = ground arith
