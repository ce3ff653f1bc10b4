-- ===== src/Ws/Frame.antt =====
-- core/ws/connection.ts: `parseFrames` and `sendFrame` over bytes, numbers below 256. Where the
-- code tests the buffer's length and then slices it, `split_at` does both. A 64-bit length is read
-- exactly, which `Number` does below 2 ^ 53; a text is kept as its UTF-8 bytes.
pub mod Bytes
pub mod RoundTrip
pub mod Stream
use Prim.Native.Nat.{bit_xor}
use pilots_hq.Prelude.{
  ℕ, zero, suc, ◌+◌, ◌*◌, ◌/◌, ◌%◌, ◌^◌, Bool, true, false, Option, none, some, List, [], ◌∷◌, ◌++◌,
  length, get_or, ltb, ◌==◌, if◌then◌else◌,
}

pub data Emitted : Type 0 where
  text binary : List ℕ → Emitted
  close pong : Emitted

pub record Conn : Type 0 where
  pub buffer : List ℕ
  pub alive : Bool
  pub writable : Bool  -- of the socket
  pub written : List (List ℕ)  -- to the socket
  pub emitted : List Emitted

infixl 5 ◌>>=◌
abbrev ◌>>=◌ {ℓ κ} : {A : Type ℓ} {B : Type κ} → Option A → (A → Option B) → Option B
none >>= f = none
some a >>= f = f a

-- The first n bytes and the rest, if there are so many.
unfoldable pub split_at : ℕ → List ℕ → Option (List ℕ × List ℕ)
split_at zero bs = some ([], bs)
split_at (suc n) [] = none
split_at (suc n) (b ∷ bs) = elim (split_at n bs) [ none ↦ none | some (x, y) ↦ some (b ∷ x, y) ]

-- `readUInt16BE`, `readBigUInt64BE`
unfoldable pub read_be : ℕ → List ℕ → ℕ
read_be acc [] = acc
read_be acc (b ∷ bs) = read_be (acc * 256 + b) bs

-- `writeUInt16BE`, `writeBigUInt64BE`, with the number of bytes
unfoldable pub write_be : ℕ → ℕ → List ℕ
write_be zero n = []
write_be (suc k) n = n / 256 ^ k % 256 ∷ write_be k n

-- `rawPayload[i] ^ maskKey[i % 4]`
unfoldable pub unmask : List ℕ → ℕ → List ℕ → List ℕ
unmask key i [] = []
unmask key i (b ∷ bs) = bit_xor b (get_or key (i % 4) 0) ∷ unmask key (i + 1) bs

-- a number of k bytes off the front
unfoldable pub read_field : ℕ → List ℕ → Option (ℕ × List ℕ)
read_field k bs = split_at k bs >>= λ p. some (read_be 0 p.0, p.1)

-- n masked bytes off the front
unfoldable pub read_masked : ℕ → List ℕ → List ℕ → Option (List ℕ × List ℕ)
read_masked n key bs = split_at n bs >>= λ p. some (unmask key 0 p.0, p.1)

-- the length field after the two bytes of the header
unfoldable pub payload_length : ℕ → List ℕ → Option (ℕ × List ℕ)
payload_length n bs =
    if n == 126 then read_field 2 bs else if n == 127 then read_field 8 bs else some (n, bs)

-- the masking key, if there is one, and the payload
unfoldable pub payload_bytes : Bool → ℕ → List ℕ → Option (List ℕ × List ℕ)
payload_bytes masked n bs =
    if masked then (split_at 4 bs >>= λ k. read_masked n k.0 k.1) else split_at n bs

-- One frame off the front: its opcode and payload, and the rest; nothing while bytes are missing.
-- `byte & 0x0f`, `byte & 0x80` and `byte & 0x7f` are arithmetic here.
unfoldable pub parse_frame : List ℕ → Option (ℕ × List ℕ × List ℕ)
parse_frame [] = none
parse_frame (byte0 ∷ []) = none
parse_frame (byte0 ∷ byte1 ∷ bs) = payload_length (byte1 % 128) bs >>= λ l.
    payload_bytes (byte1 / 128 % 2 == 1) l.0 l.1 >>= λ p. some (byte0 % 16, p.0, p.1)

-- the header and payload that `sendFrame` writes; `0x80 | opcode` for an opcode below 128
unfoldable pub build_frame : ℕ → List ℕ → List ℕ
build_frame opcode payload =
    let len = length payload in
    (if ltb len 126
      then (128 + opcode) ∷ len ∷ []
      else if ltb len 65536
      then (128 + opcode) ∷ 126 ∷ write_be 2 len
      else (128 + opcode) ∷ 127 ∷ write_be 8 len)
    ++ payload

unfoldable pub send_frame : ℕ → List ℕ → Conn → Conn
send_frame opcode payload c =
    if c.writable then record c { written = c.written ++ build_frame opcode payload ∷ [] } else c

unfoldable pub emit : Emitted → Conn → Conn
emit e c = record c { emitted = c.emitted ++ e ∷ [] }

-- `send` and `ping`
unfoldable pub send : List ℕ → Conn → Conn
send message c = send_frame 1 message c

unfoldable pub ping : Conn → Conn
ping c = send_frame 9 [] c

-- `close(code, reason)`: the status code and the reason's bytes, then the socket is destroyed
unfoldable pub close_conn : ℕ → List ℕ → Conn → Conn
unfolding send_frame write_be
close_conn code reason c =
    if c.writable
    then record (send_frame 8 (write_be 2 code ++ reason) c) { alive = false; writable = false }
    else c

-- the `switch` on the opcode; 8 also ends the loop
unfoldable pub dispatch : ℕ → List ℕ → Conn → Conn
unfolding emit send_frame close_conn
dispatch opcode payload c =
    if opcode == 1
    then emit (text payload) c
    else if opcode == 2
    then emit (binary payload) c
    else if opcode == 8
    then close_conn 1000 [] (emit close c)
    else if opcode == 9
    then send_frame 10 payload c
    else if opcode == 10
    then emit pong (record c { alive = true })
    else c

-- `parseFrames` on fuel, and whether it ended at a close frame
unfoldable pub parse_frames : ℕ → Conn → Conn × Bool
parse_frames zero c = (c, false)
parse_frames (suc fuel) c = elim (parse_frame c.buffer) [
  | none ↦ (c, false)
  | some (opcode, payload, rest) ↦
      let c' = dispatch opcode payload (record c { buffer = rest }) in
      let more = parse_frames fuel c' in if opcode == 8 then (c', true) else more
]

-- The handler of `data`. A frame has at least two bytes, so the buffer's length is enough fuel.
unfoldable pub receive : List ℕ → Conn → Conn × Bool
receive chunk c =
    let buffer = c.buffer ++ chunk in parse_frames (length buffer) (record c { buffer = buffer })
