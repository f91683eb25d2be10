-- ===== src/Reader/Tests.antt =====
-- Runs of the reader of src/read.rs, and the theorems at a concrete stream.
use waypipe.Base.{
  ℕ, ◌*◌, ◌<◌, ◌≡◌, refl, ◌⊎◌, inl, [], ◌∷◌, ◌++◌, ok, err, take, arith, none, some, false, slice,
  read_word, from_le_bytes,
}
use waypipe.Util.{parse_wmsg_header, of_code, align, align4}
use waypipe.Kernel.Construct.{Bytes}
use waypipe.Reader.{
  ReadBuffer, sent, again, max_normal_msg_size, new_buffer, unknown_header, get_message_padded_len,
  read_more, read_fresh, read_current, read_inner, extract_messages, extract_loop, pop_next_msg,
  advance,
}
use waypipe.Reader.Frames.{Frames, rest, message}
use waypipe.Reader.Header.{Answers}
use waypipe.Reader.Ready.{offered, holding}
use waypipe.Reader.Stream.{IsCut, read_more-IsCut, pop_next_msg-IsCut}

-- A message of type `version` and length 8
abbrev version_msg : Bytes
version_msg = 23 ∷ 1 ∷ 0 ∷ 0 ∷ 5 ∷ 6 ∷ 7 ∷ 8 ∷ []

-- One message, and three bytes of the next
abbrev arrived : Bytes
arrived = version_msg ++ (23 ∷ 1 ∷ 0 ∷ [])

abbrev one_read : ReadBuffer
one_read = record {
  old = none;
  current = record { data_ = arrived; size = 4 * max_normal_msg_size };
  last_msg_start = 8;
  end = 11;
  msg_queue = version_msg ∷ [];
}

header_len : get_message_padded_len version_msg 0 ≡ ok 8
unfolding get_message_padded_len read_word slice from_le_bytes parse_wmsg_header of_code align4
    align
header_len = refl

read_one : read_more new_buffer (sent arrived) ≡ ok (false, one_read)
unfolding read_more read_fresh read_current read_inner extract_messages extract_loop
    get_message_padded_len read_word slice from_le_bytes parse_wmsg_header of_code align4 align
read_one = refl

read_again : read_more one_read again ≡ ok (false, one_read)
unfolding read_more read_fresh read_current read_inner extract_messages extract_loop
read_again = refl

-- No message type has the code 31.
read_unknown : read_more new_buffer (sent (31 ∷ 1 ∷ 0 ∷ 0 ∷ [])) ≡ err unknown_header
unfolding read_more read_fresh read_current read_inner extract_messages extract_loop
    get_message_padded_len read_word slice from_le_bytes parse_wmsg_header of_code
read_unknown = refl

advance_four : advance version_msg 4 ≡ ok (5 ∷ 6 ∷ 7 ∷ 8 ∷ [])
unfolding advance
advance_four = refl

arrived-Frames : Frames arrived (version_msg ∷ []) (23 ∷ 1 ∷ 0 ∷ [])
arrived-Frames =
    message version_msg (23 ∷ 1 ∷ 0 ∷ []) (23 ∷ 1 ∷ 0 ∷ []) [] (omega arith) header_len
      (rest (23 ∷ 1 ∷ 0 ∷ []) (inl (omega arith)))

one_read-IsCut : IsCut one_read arrived []
one_read-IsCut = record {
  left = 23 ∷ 1 ∷ 0 ∷ [];
  frames = arrived-Frames;
  ready =
      holding one_read version_msg (23 ∷ 1 ∷ 0 ∷ [])
        (record {
          old_eq = refl;
          data_eq = refl;
          start_eq = refl;
          end_eq = refl;
          even = refl;
          room = omega arith;
          sized = refl;
          bytes = ground arith;
        })
        (inl (omega arith));
}

read_example :
    Answers
      (λ out. (n : ℕ) × (0 < n) × IsCut out.1 (arrived ++ take n (offered (sent (0 ∷ 5 ∷ [])))) [])
      (read_more one_read (sent (0 ∷ 5 ∷ [])))
read_example = read_more-IsCut one_read arrived [] (sent (0 ∷ 5 ∷ [])) one_read-IsCut (ground arith)

pop_example :
    ((pop_next_msg one_read ≡ (none, one_read)) × ((left : Bytes) × Frames arrived [] left))
    ⊎ ((m : Bytes) × (b' : ReadBuffer) × (pop_next_msg one_read ≡ (some m, b'))
        × IsCut b' arrived (m ∷ []))
pop_example = pop_next_msg-IsCut one_read arrived [] one_read-IsCut
