-- ===== src/Ws/Frame/Bytes.antt =====
-- Lemmas on the bytes of a frame.
use pilots_hq.Prelude.{
  ℕ, zero, suc, ◌+◌, ◌/◌, ◌%◌, ◌^◌, ◌≤◌, ◌<◌, ◌≡◌, refl, ap, Bool, true, false, some, List, [], ◌∷◌,
  ◌++◌, arith, length, ◌==◌, inl, inr, Option-cases, Bool-cases,
}
use pilots_hq.Ws.Frame.{
  read_field, read_masked, split_at, read_be, write_be, payload_length, payload_bytes, parse_frame,
}

split_at-suc :
    (n b : ℕ) (bs x y : List ℕ)
    → split_at (suc n) (b ∷ bs) ≡ some (x, y)
    → (x' : List ℕ) × (x ≡ b ∷ x') × (split_at n bs ≡ some (x', y))
unfolding split_at
split_at-suc n b bs x y e = elim (Option-cases (split_at n bs)) [
  | inl h ↦ absurd (ground arith)
  | inr ((x', y'), h) ↦ (x', ground arith, ground arith)
]

-- More bytes behind do not change what is split off.
pub split_at-append :
    (n : ℕ) (bs more x y : List ℕ)
    → split_at n bs ≡ some (x, y)
    → split_at n (bs ++ more) ≡ some (x, y ++ more)
unfolding split_at
split_at-append zero bs more x y e = ground arith
split_at-append (suc n) [] more x y e = absurd (cc e)
split_at-append (suc n) (b ∷ bs) more x y e =
    let (x', ex, es) = split_at-suc n b bs x y e in
    ground (arith, split_at-append n bs more x' y es)

pub split_at-length :
    (n : ℕ) (bs x y : List ℕ)
    → split_at n bs ≡ some (x, y)
    → (length bs ≡ length x + length y) × (length x ≡ n)
unfolding split_at
split_at-length zero bs x y e = ground arith
split_at-length (suc n) [] x y e = absurd (cc e)
split_at-length (suc n) (b ∷ bs) x y e =
    let (x', ex, es) = split_at-suc n b bs x y e in ground (arith, split_at-length n bs x' y es)

pub split_at-exact : (xs ys : List ℕ) → split_at (length xs) (xs ++ ys) ≡ some (xs, ys)
unfolding split_at
split_at-exact [] ys = refl
split_at-exact (x ∷ xs) ys = rw (split_at-exact xs ys)

pub length-write_be : (k n : ℕ) → length (write_be k n) ≡ k
unfolding write_be
length-write_be zero n = refl
length-write_be (suc k) n = ap suc (length-write_be k n)

pub read-write_two : (n : ℕ) → n < 65536 → read_be 0 (write_be 2 n) ≡ n
unfolding read_be write_be
read-write_two n h = omega arith

pub read-write_eight : (n : ℕ) → n < 256 ^ 8 → read_be 0 (write_be 8 n) ≡ n
unfolding read_be write_be
read-write_eight n h = omega arith

-- More bytes behind do not change what is read in front, and nothing is read twice.
read_field-append :
    (k : ℕ) (bs more : List ℕ) (m : ℕ) (r : List ℕ)
    → read_field k bs ≡ some (m, r)
    → (read_field k (bs ++ more) ≡ some (m, r ++ more)) × (length r ≤ length bs)
unfolding read_field
read_field-append k bs more m r e = elim (Option-cases (split_at k bs)) [
  | inl h ↦ absurd (ground arith)
  | inr ((x, y), h) ↦ ground (arith, split_at-append k bs more x y h, split_at-length k bs x y h)
]

pub payload_length-append :
    (n : ℕ) (bs more : List ℕ) (m : ℕ) (r : List ℕ)
    → payload_length n bs ≡ some (m, r)
    → (payload_length n (bs ++ more) ≡ some (m, r ++ more)) × (length r ≤ length bs)
unfolding payload_length
payload_length-append n bs more m r e = elim (Bool-cases (n == 126)) [
  | inl short ↦ rw short (read_field-append 2 bs more m r (rw short at e))
  | inr f ↦ elim (Bool-cases (n == 127)) [
    | inl long ↦ rw (f, long) (read_field-append 8 bs more m r (rw (f, long) at e))
    | inr g ↦ ground arith
  ]
]

read_masked-append :
    (n : ℕ) (key bs more p r : List ℕ)
    → read_masked n key bs ≡ some (p, r)
    → (read_masked n key (bs ++ more) ≡ some (p, r ++ more)) × (length r ≤ length bs)
unfolding read_masked
read_masked-append n key bs more p r e = elim (Option-cases (split_at n bs)) [
  | inl h ↦ absurd (ground arith)
  | inr ((x, y), h) ↦ ground (arith, split_at-append n bs more x y h, split_at-length n bs x y h)
]

pub payload_bytes-append :
    (masked : Bool) (n : ℕ) (bs more p r : List ℕ)
    → payload_bytes masked n bs ≡ some (p, r)
    → (payload_bytes masked n (bs ++ more) ≡ some (p, r ++ more)) × (length r ≤ length bs)
unfolding payload_bytes
payload_bytes-append false n bs more p r e =
    ground (arith, split_at-append n bs more p r e, split_at-length n bs p r e)
payload_bytes-append true n bs more p r e = elim (Option-cases (split_at 4 bs)) [
  | inl h ↦ absurd (ground arith)
  | inr ((x, y), h) ↦ ground (
    arith,
    split_at-append 4 bs more x y h,
    split_at-length 4 bs x y h,
    read_masked-append n x y more p r,
  )
]

-- A frame in front is parsed the same whatever follows it, and has at least two bytes.
pub parse_frame-append :
    (bs more : List ℕ) (op : ℕ) (p r : List ℕ)
    → parse_frame bs ≡ some (op, p, r)
    → (parse_frame (bs ++ more) ≡ some (op, p, r ++ more)) × (length r + 2 ≤ length bs)
unfolding parse_frame
parse_frame-append [] more op p r e = absurd (cc e)
parse_frame-append (b ∷ []) more op p r e = absurd (cc e)
parse_frame-append (b0 ∷ b1 ∷ bs) more op p r e =
    elim (Option-cases (payload_length (b1 % 128) bs)) [
      | inl h ↦ absurd (ground arith)
      | inr ((n, y), h) ↦ elim (Option-cases (payload_bytes (b1 / 128 % 2 == 1) n y)) [
        | inl g ↦ absurd (ground arith)
        | inr ((x, z), g) ↦ ground (
          arith,
          payload_length-append (b1 % 128) bs more n y h,
          payload_bytes-append (b1 / 128 % 2 == 1) n y more x z g,
        )
      ]
    ]
