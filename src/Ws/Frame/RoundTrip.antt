-- ===== src/Ws/Frame/RoundTrip.antt =====
-- What `sendFrame` writes, `parseFrames` reads (core/ws/connection.ts).
use pilots_hq.Prelude.{
  ℕ, zero, suc, ◌+◌, ◌/◌, ◌%◌, ◌^◌, ◌≤◌, ◌<◌, ◌≡◌, refl, ap, subst, ◌∙◌, false, some, List, [], ◌∷◌,
  ◌++◌, map, arith, length, append_assoc, append-nil, ltb, ◌==◌, inl, inr, Bool-cases,
}
use pilots_hq.Ws.Frame.{
  Conn, text, split_at, read_be, write_be, read_field, payload_length, payload_bytes, parse_frame,
  build_frame, dispatch, parse_frames, receive,
}
use pilots_hq.Ws.Frame.Bytes.{
  split_at-exact, length-write_be, read-write_two, read-write_eight, parse_frame-append,
}
use pilots_hq.Ws.Frame.Stream.{with_buffer, parse_frames-none, parse_frames-some}

read_field-write_be :
    (k n : ℕ) (rest : List ℕ)
    → read_be 0 (write_be k n) ≡ n
    → read_field k (write_be k n ++ rest) ≡ some (n, rest)
unfolding read_field
read_field-write_be k n rest e =
    let exact : split_at k (write_be k n ++ rest) ≡ some (write_be k n, rest) =
      subst (λ m. split_at m (write_be k n ++ rest) ≡ some (write_be k n, rest))
        (length-write_be k n) (split_at-exact (write_be k n) rest) in
    rw (exact, e) refl

-- A frame with no mask whose length field reads as the payload's length.
parse_unmasked :
    (b0 b1 : ℕ) (bs payload rest : List ℕ)
    → b1 < 128
    → payload_length b1 bs ≡ some (length payload, payload ++ rest)
    → parse_frame (b0 ∷ b1 ∷ bs) ≡ some (b0 % 16, payload, rest)
unfolding parse_frame payload_bytes
parse_unmasked b0 b1 bs payload rest lt field =
    let low : b1 % 128 ≡ b1 = omega arith in
    let bit : (b1 / 128 % 2 == 1) ≡ false = ground arith in
    rw (low, field, bit, split_at-exact payload rest) refl

-- A frame that was built is parsed to its opcode and payload, whatever follows it, for every
-- opcode below 16 and every payload shorter than 2 ^ 64 bytes, in each of the three forms of the
-- length.
pub parse-build_frame :
    (opcode : ℕ) (payload rest : List ℕ)
    → opcode < 16
    → length payload < 256 ^ 8
    → parse_frame (build_frame opcode payload ++ rest) ≡ some (opcode, payload, rest)
unfolding build_frame payload_length
parse-build_frame opcode payload rest op fits =
    let n = length payload in
    let code : (128 + opcode) % 16 ≡ opcode = omega arith in
    elim (Bool-cases (ltb n 126)) [
      | inl small ↦ rw small (
          parse_unmasked (128 + opcode) n (payload ++ rest) payload rest (ground arith)
            (ground arith)
          ∙ ap (λ o. some (o, payload, rest)) code)
      | inr not_small ↦ elim (Bool-cases (ltb n 65536)) [
        | inl medium ↦
            rw (not_small, medium)
              (parse_unmasked (128 + opcode) 126 ((write_be 2 n ++ payload) ++ rest) payload rest
                  (omega arith)
                  (rw (append_assoc (write_be 2 n) payload rest)
                    (read_field-write_be 2 n (payload ++ rest) (read-write_two n (ground arith))))
                ∙ ap (λ o. some (o, payload, rest)) code)
        | inr large ↦
            rw (not_small, large)
              (parse_unmasked (128 + opcode) 127 ((write_be 8 n ++ payload) ++ rest) payload rest
                  (omega arith)
                  (rw (append_assoc (write_be 8 n) payload rest)
                    (read_field-write_be 8 n (payload ++ rest) (read-write_eight n fits)))
                ∙ ap (λ o. some (o, payload, rest)) code)
      ]
    ]

-- The bytes that `send` writes for each message, one after the other.
abbrev pub frames : List (List ℕ) → List ℕ
frames [] = []
frames (m ∷ ms) = build_frame 1 m ++ frames ms

abbrev pub AllShort : List (List ℕ) → Type 0
AllShort [] = Unit
AllShort (m ∷ ms) = (length m < 256 ^ 8) × AllShort ms

abbrev pub with_texts : List (List ℕ) → Conn → Conn
with_texts ms c = record c { emitted = c.emitted ++ map text ms }

dispatch_text :
    (m r : List ℕ) (c : Conn)
    → with_buffer r (dispatch 1 m c)
      ≡ with_buffer r (record c { emitted = c.emitted ++ text m ∷ [] })
unfolding dispatch
dispatch_text m r c = refl

parse_frames-frames :
    (f : ℕ) (ms : List (List ℕ)) (c : Conn)
    → AllShort ms
    → length (frames ms) ≤ f
    → parse_frames f (with_buffer (frames ms) c) ≡ (with_buffer [] (with_texts ms c), false)
parse_frames-frames f [] c short le =
    rw (append-nil c.emitted) (parse_frames-none f [] c (unfold parse_frame in refl))
parse_frames-frames zero (m ∷ ms) c short le = absurd (
    omega (
      arith,
      parse_frame-append _ [] 1 m (frames ms)
          (parse-build_frame 1 m (frames ms) (omega arith) short.0),
    ))
parse_frames-frames (suc f) (m ∷ ms) c short le =
    let e = parse-build_frame 1 m (frames ms) (omega arith) short.0 in
    let c' = record c { emitted = c.emitted ++ text m ∷ [] } in
    parse_frames-some f (frames (m ∷ ms)) c 1 m (frames ms) e
    ∙ ap (parse_frames f) (dispatch_text m (frames ms) c)
    ∙ parse_frames-frames f ms c' short.1
        (omega (arith, parse_frame-append (frames (m ∷ ms)) [] 1 m (frames ms) e))
    ∙ ap (λ es. (with_buffer [] (record c { emitted = es }), false))
        (append_assoc c.emitted (text m ∷ []) (map text ms))

-- Messages that one side sends arrive at the other: receiving the bytes that `send` writes for any
-- texts, with no bytes pending, emits these texts in order, changes nothing else and leaves no
-- byte unread.
pub receive-frames :
    (ms : List (List ℕ)) (c : Conn)
    → AllShort ms
    → c.buffer ≡ []
    → receive (frames ms) c ≡ (with_buffer [] (with_texts ms c), false)
unfolding receive
receive-frames ms c short e =
    rw e (parse_frames-frames (length (frames ms)) ms c short (omega arith))
