-- ===== src/Reader/Frames.antt =====
-- The specification of the reader of src/read.rs: a stream of bytes, cut into the messages that its
-- headers announce. How the bytes arrive plays no part in it.
use waypipe.Base.{ℕ, ◌≤◌, ◌<◌, ◌≡◌, ◌⊎◌, List, [], ◌∷◌, ◌++◌, ok, length, append_assoc, All}
use waypipe.Kernel.Construct.{Bytes}
use waypipe.Reader.{get_message_padded_len}

-- The first message of the bytes is not complete.
abbrev pub IsIncomplete : Bytes → Type 0
IsIncomplete s =
    (length s < 4)
    ⊎ ((n : ℕ) × (4 ≤ length s) × (get_message_padded_len s 0 ≡ ok n) × (length s < n))

-- The stream consists of the messages, each as long as its header says, and an incomplete rest.
pub data Frames : Bytes → List Bytes → Bytes → Type 0 where
  rest : (s : Bytes) → IsIncomplete s → Frames s [] s
  message :
      (m s r : Bytes) (ms : List Bytes)
      → 4 ≤ length m
      → get_message_padded_len m 0 ≡ ok (length m)
      → Frames s ms r
      → Frames (m ++ s) (m ∷ ms) r

-- Bytes that arrive later are cut behind the rest.
pub Frames-append :
    {s r r' : Bytes} {ms ms' : List Bytes} (t : Bytes)
    → Frames s ms r
    → Frames (r ++ t) ms' r'
    → Frames (s ++ t) (ms ++ ms') r'
Frames-append t (rest s h) g = g
Frames-append t (message m s r ms h e f) g =
    rw (append_assoc m s t) (message m (s ++ t) _ _ h e (Frames-append t f g))

pub Frames-IsIncomplete : {s r : Bytes} {ms : List Bytes} → Frames s ms r → IsIncomplete r
Frames-IsIncomplete (rest s h) = h
Frames-IsIncomplete (message m s r ms h e f) = Frames-IsIncomplete f

pub Frames-All :
    (P : ℕ → Type 0) {s r : Bytes} {ms : List Bytes} → Frames s ms r → All P s → All P r
Frames-All P (rest s h) a = a
Frames-All P (message m s r ms h e f) a = Frames-All P f (behind m s a)
  where
    behind : (m s : Bytes) → All P (m ++ s) → All P s
    behind [] s a = a
    behind (x ∷ m) s (p, a) = behind m s a
