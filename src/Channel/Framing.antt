-- ===== src/Channel/Framing.antt =====
-- `process_wayland_2` of src/mainloop.rs, and the reader of src/read.rs at the other end: what is put
-- into the queue are messages that the reader cuts again.
use waypipe.Base.{
  ℕ, suc, ◌+◌, ◌*◌, ◌%◌, ◌^◌, ◌≤◌, ◌<◌, ◌≡◌, refl, sym, ap, ◌∙◌, arith, true, false, List, [], ◌∷◌,
  ◌++◌, length, map, ok, to_le_bytes, length-to_le_bytes, length-append, read_word_behind,
  append_assoc, append-nil, inl, le→leb, lt→ltb, subst,
}
use waypipe.Kernel.Construct.{Bytes}
use waypipe.Util.{WmsgType, build_wmsg_header, inject_rids, protocol, align4}
use waypipe.Util.Header.{parse_wmsg_header-build_wmsg_header}
use waypipe.Util.Interval.{align_lem}
use waypipe.Reader.{get_message_padded_len}
use waypipe.Reader.Frames.{Frames, rest, message}
use waypipe.Channel.{TransferQueue, flatten}
use waypipe.Channel.Plan.{offered, offered_free}
use waypipe.Channel.Loop.{process_wayland_2, inject_rids_message}

-- A message of a type, with its header
abbrev pub IsMessage : WmsgType → Bytes → Bytes → Type 0
IsMessage t body m =
    (h : ℕ) × (build_wmsg_header t (length body + 4) ≡ ok h) × (m ≡ to_le_bytes h ++ body)

pub message_of :
    (t : WmsgType) (body : Bytes)
    → length body % 4 ≡ 0
    → length body + 4 < 2 ^ 27
    → (h : ℕ) × (build_wmsg_header t (length body + 4) ≡ ok h)
      × (get_message_padded_len (to_le_bytes h ++ body) 0 ≡ ok (length (to_le_bytes h ++ body)))
      × (4 ≤ length (to_le_bytes h ++ body))
unfolding get_message_padded_len align4
message_of t body even fits =
    let (h, build, u, parse) = parse_wmsg_header-build_wmsg_header t (length body + 4) fits in
    let (k, run, low, high) = align_lem (length body + 4) 4 (omega arith) (omega arith) in
    let len = length-append (to_le_bytes h) body in
    (
      h,
      build,
      rw (read_word_behind [] body h 0 u refl, parse, le→leb 4 (length body + 4) (omega arith), run)
          (ap ok (omega (arith, len, length-to_le_bytes h))),
      omega (arith, len, length-to_le_bytes h),
    )

-- Four bytes for each word
length-words : (rids : List ℕ) → length (flatten (map to_le_bytes rids)) ≡ length rids * 4
length-words [] = refl
length-words (r ∷ rids) = omega (
  arith,
  length-append (to_le_bytes r) (flatten (map to_le_bytes rids)),
  length-to_le_bytes r,
  length-words rids,
)

-- A queue with ids and protocol data, and nothing else to be written
abbrev pub quiet : TransferQueue → List ℕ → Bytes → TransferQueue
quiet q rids wire = record q {
  protocol_data = wire;
  protocol_header_added = false;
  protocol_rids = rids;
  needs_new_ack = false;
  ack_nwritten = 0;
  other_messages = [];
  expected_recvd_msgs = 0;
  nbytes_written = 0;
}

-- The messages of ids and protocol data, where there are any
abbrev pub IsAnnounced : List ℕ → Bytes → List Bytes → Type 0
IsAnnounced [] [] ms = ms ≡ []
IsAnnounced (r ∷ rs) [] ms =
    (m : Bytes) × (ms ≡ m ∷ []) × IsMessage inject_rids (flatten (map to_le_bytes (r ∷ rs))) m
IsAnnounced [] (b ∷ d) ms = (m : Bytes) × (ms ≡ m ∷ []) × IsMessage protocol (b ∷ d) m
IsAnnounced (r ∷ rs) (b ∷ d) ms =
    (m : Bytes) × (m' : Bytes) × (ms ≡ m ∷ m' ∷ [])
    × IsMessage inject_rids (flatten (map to_le_bytes (r ∷ rs))) m
    × IsMessage protocol (b ∷ d) m'

-- Four bytes of header, and the words of the ids
rids_of :
    (rids : List ℕ)
    → length rids * 4 + 4 < 2 ^ 27
    → (v : Bytes) × (inject_rids_message rids ≡ ok v)
      × IsMessage inject_rids (flatten (map to_le_bytes rids)) v
      × (get_message_padded_len v 0 ≡ ok (length v))
      × (4 ≤ length v)
unfolding inject_rids_message
rids_of rids fits =
    let words = length-words rids in
    let (h, build, len, four) =
      message_of inject_rids (flatten (map to_le_bytes rids)) (omega arith) (omega arith) in
    (
      to_le_bytes h ++ flatten (map to_le_bytes rids),
      rw (ap (λ n. build_wmsg_header inject_rids (n + 4)) (sym words) ∙ build) refl,
      (h, build, refl),
      len,
      four,
    )

nothing_left : Frames [] [] []
nothing_left = rest [] (inl (omega arith))

one_message :
    (m : Bytes) → get_message_padded_len m 0 ≡ ok (length m) → 4 ≤ length m → Frames m (m ∷ []) []
one_message m len four =
    subst (λ s. Frames s (m ∷ []) []) (append-nil m) (message m [] [] [] four len nothing_left)

-- On a queue with no other messages, no acknowledgement and nothing written, whose protocol data
-- is a whole number of words and whose ids and data fit in a header's length, process_wayland_2
-- returns, and the bytes that are then to be written are cut by the lengths in their headers, as
-- the reader at the other end cuts them, into exactly these messages with nothing left over: one
-- with the ids, where there are any, and then one with the protocol data, where there is any.
pub process_wayland_2-Frames :
    (q : TransferQueue) (rids : List ℕ) (wire : Bytes)
    → length rids * 4 + 4 < 2 ^ 27
    → length wire % 4 ≡ 0
    → length wire + 4 < 2 ^ 27
    → (q' : TransferQueue) × (ms : List Bytes) × (process_wayland_2 (quiet q rids wire) ≡ ok q')
      × Frames (offered q') ms []
      × IsAnnounced rids wire ms
unfolding process_wayland_2
process_wayland_2-Frames q [] [] f e g = (
  quiet q [] [],
  [],
  refl,
  subst (λ s. Frames s [] []) (sym (offered_free (quiet q [] []) refl)) nothing_left,
  refl,
)
process_wayland_2-Frames q (r ∷ rs) [] f e g =
    let (v, run, is, len, four) = rids_of (r ∷ rs) f in
    let q' : TransferQueue = record (quiet q [] []) { other_messages = v ∷ [] } in
    (
      q',
      v ∷ [],
      rw run refl,
      rw (offered_free q' refl, append-nil v, append-nil v) (one_message v len four),
      (v, refl, is),
    )
process_wayland_2-Frames q [] (b ∷ d) f e g =
    let (h, build, len, four) = message_of protocol (b ∷ d) e g in
    let m : Bytes = to_le_bytes h ++ b ∷ d in
    let q' : TransferQueue = record (quiet q [] (b ∷ d)) {
      protocol_header_added = true;
      other_messages = to_le_bytes h ∷ [];
    } in
    (
      q',
      m ∷ [],
      rw (lt→ltb 0 (suc (length d)) (omega arith), build) refl,
      rw (offered_free q' refl, lt→ltb 0 (suc (length d)) (omega arith), append-nil (to_le_bytes h))
          (one_message m len four),
      (m, refl, (h, build, refl)),
    )
process_wayland_2-Frames q (r ∷ rs) (b ∷ d) f e g =
    let (v, run, is, len, four) = rids_of (r ∷ rs) f in
    let (h, build, len', four') = message_of protocol (b ∷ d) e g in
    let m : Bytes = to_le_bytes h ++ b ∷ d in
    let q' : TransferQueue = record (quiet q [] (b ∷ d)) {
      protocol_header_added = true;
      other_messages = v ∷ to_le_bytes h ∷ [];
    } in
    (
      q',
      v ∷ m ∷ [],
      rw (run, lt→ltb 0 (suc (length d)) (omega arith), build) refl,
      rw
          (
            offered_free q' refl,
            lt→ltb 0 (suc (length d)) (omega arith),
            append-nil (to_le_bytes h),
            append_assoc v (to_le_bytes h) (b ∷ d),
          )
          (message v m [] (m ∷ []) four len (one_message m len' four')),
      (v, m, refl, is, (h, build, refl)),
    )
