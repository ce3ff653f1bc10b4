-- ===== src/Ws/Frame/Stream.antt =====
-- The frames that are found do not depend on how the bytes arrive (parseFrames of
-- core/ws/connection.ts).
use pilots_hq.Prelude.{
  ℕ, zero, suc, ◌+◌, ◌≤◌, ◌≡◌, refl, sym, ap, ◌∙◌, Bool, true, false, none, some, List, [], ◌∷◌,
  ◌++◌, arith, length, length-append, append_assoc, ◌==◌, if◌then◌else◌, inl, inr, Option-cases,
  Bool-cases,
}
use pilots_hq.Ws.Frame.{Conn, dispatch, parse_frame, parse_frames, receive}
use pilots_hq.Ws.Frame.Bytes.{parse_frame-append}

abbrev pub with_buffer : List ℕ → Conn → Conn
with_buffer b c = record c { buffer = b }

-- Dispatching does not look at the buffer.
dispatch-buffer :
    (op : ℕ) (p b : List ℕ) (c : Conn)
    → dispatch op p (with_buffer b c) ≡ with_buffer b (dispatch op p c)
unfolding dispatch
dispatch-buffer op p b c = ground arith

pub parse_frames-none :
    (f : ℕ) (b : List ℕ) (c : Conn)
    → parse_frame b ≡ none
    → parse_frames f (with_buffer b c) ≡ (with_buffer b c, false)
unfolding parse_frames
parse_frames-none zero b c e = refl
parse_frames-none (suc f) b c e = rw (e, parse_frames)

pub parse_frames-some :
    (f : ℕ) (b : List ℕ) (c : Conn) (op : ℕ) (p r : List ℕ)
    → parse_frame b ≡ some (op, p, r)
    → parse_frames (suc f) (with_buffer b c) ≡ (
        if op == 8
        then (with_buffer r (dispatch op p c), true)
        else parse_frames f (with_buffer r (dispatch op p c)))
unfolding parse_frames
parse_frames-some f b c op p r e = rw (e, parse_frames) (rw (dispatch-buffer op p r c) refl)

-- With the buffer's length as fuel the loop ends by itself: more fuel changes nothing.
pub parse_frames_enough :
    (f g : ℕ) (b : List ℕ) (c : Conn)
    → length b ≤ f
    → length b ≤ g
    → parse_frames f (with_buffer b c) ≡ parse_frames g (with_buffer b c)
parse_frames_enough zero g [] c h k =
    parse_frames-none zero [] c (unfold parse_frame in refl)
    ∙ sym (parse_frames-none g [] c (unfold parse_frame in refl))
parse_frames_enough zero g (x ∷ b) c h k = absurd (omega arith)
parse_frames_enough (suc f) zero [] c h k =
    parse_frames-none (suc f) [] c (unfold parse_frame in refl)
    ∙ sym (parse_frames-none zero [] c (unfold parse_frame in refl))
parse_frames_enough (suc f) zero (x ∷ b) c h k = absurd (omega arith)
parse_frames_enough (suc f) (suc g) b c h k = elim (Option-cases (parse_frame b)) [
  | inl e ↦ parse_frames-none (suc f) b c e ∙ sym (parse_frames-none (suc g) b c e)
  | inr ((op, p, r), e) ↦
      rw (parse_frames-some f b c op p r e, parse_frames-some g b c op p r e)
        (ap (λ more. if op == 8 then (with_buffer r (dispatch op p c), true) else more)
          (parse_frames_enough f g r (dispatch op p c)
            (omega (arith, parse_frame-append b [] op p r e))
            (omega (arith, parse_frame-append b [] op p r e))))
]

-- The loop goes on with more bytes where it stopped, unless it ended at a close frame.
abbrev pub resume : ℕ → List ℕ → Conn × Bool → Conn × Bool
resume g more (c, true) = (with_buffer (c.buffer ++ more) c, true)
resume g more (c, false) = parse_frames g (with_buffer (c.buffer ++ more) c)

parse_frames-append :
    (f g : ℕ) (b more : List ℕ) (c : Conn)
    → length b ≤ f
    → length (b ++ more) ≤ g
    → parse_frames g (with_buffer (b ++ more) c) ≡ resume g more (parse_frames f (with_buffer b c))
parse_frames-append zero g [] more c h k =
    rw (parse_frames-none zero [] c (unfold parse_frame in refl)) refl
parse_frames-append zero g (x ∷ b) more c h k = absurd (omega arith)
parse_frames-append (suc f) zero [] more c h k =
    rw (parse_frames-none (suc f) [] c (unfold parse_frame in refl)) refl
parse_frames-append (suc f) zero (x ∷ b) more c h k = absurd (omega arith)
parse_frames-append (suc f) (suc g) b more c h k = elim (Option-cases (parse_frame b)) [
  | inl e ↦ rw (parse_frames-none (suc f) b c e) refl
  | inr ((op, p, r), e) ↦
      let (e', shorter) = parse_frame-append b more op p r e in
      let d = dispatch op p c in
      rw (parse_frames-some f b c op p r e, parse_frames-some g (b ++ more) c op p (r ++ more) e')
        (elim (Bool-cases (op == 8)) [
          | inl ends ↦ rw ends refl
          | inr goes_on ↦ rw goes_on (
              parse_frames_enough g (suc g) (r ++ more) d (fits r shorter) (later r shorter)
              ∙ parse_frames-append f (suc g) r more d (omega arith) (later r shorter))
        ])
]
  where
    fits : (r : List ℕ) → length r + 2 ≤ length b → length (r ++ more) ≤ g
    fits r s = omega (arith, length-append r more, length-append b more)

    later : (r : List ℕ) → length r + 2 ≤ length b → length (r ++ more) ≤ suc g
    later r s = omega (arith, length-append r more, length-append b more)

resume_open :
    (g : ℕ) (more : List ℕ) (q : Conn × Bool)
    → q.1 ≡ false
    → parse_frames g (with_buffer (q.0.buffer ++ more) q.0) ≡ resume g more q
resume_open g more (c, true) e = absurd (cc e)
resume_open g more (c, false) e = refl

-- Chunking does not matter: receiving some bytes and then more has the effect of receiving them all
-- at once, on the messages emitted, the frames written and the bytes kept, unless a close frame
-- was among the first.
pub receive-append :
    (xs ys : List ℕ) (c : Conn)
    → (receive xs c).1 ≡ false
    → receive ys (receive xs c).0 ≡ receive (xs ++ ys) c
unfolding receive
receive-append xs ys c open_ =
    let b = c.buffer ++ xs in
    let q = parse_frames (length b) (with_buffer b c) in
    let d = q.0 in
    let g = length (b ++ ys) + length (d.buffer ++ ys) in
    parse_frames_enough (length (d.buffer ++ ys)) g (d.buffer ++ ys) d (omega arith) (omega arith)
    ∙ resume_open g ys q open_
    ∙ sym (parse_frames-append (length b) g b ys c (omega arith) (omega arith))
    ∙ parse_frames_enough g (length (b ++ ys)) (b ++ ys) c (omega arith) (omega arith)
    ∙ ap (λ all. parse_frames (length all) (with_buffer all c)) (append_assoc c.buffer xs ys)
