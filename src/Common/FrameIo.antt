-- ===== src/Common/FrameIo.antt =====
-- common/src/io.rs: frames on a stream, a length of four bytes in big-endian order and then the
-- body. `encode` and `decode` are calls of the MessagePack library and are not modelled.
use quicfs.Base.{
  ℕ, ◌+◌, ◌*◌, ◌/◌, ◌%◌, ◌^◌, ◌≤◌, ◌<◌, ◌≡◌, List, [], ◌∷◌, ◌++◌, arith, ltb, if◌then◌else◌, length,
  take, drop, length-append, take-append, drop-append, All, take-append-drop, le→ltb, ◌↔◌,
  length-take,
}

abbrev pub max_frame_size : ℕ
max_frame_size = 16 * 1024 * 1024

pub data FrameError : Type 0 where
  too_large read_prefix read_body : FrameError

pub data Result {ℓ} (A : Type ℓ) : Type ℓ where
  ok : A → Result A
  err : FrameError → Result A

-- `write_u32`: big-endian.
unfoldable pub be32 : ℕ → List ℕ
be32 n = (n / 2 ^ 24 % 256) ∷ (n / 2 ^ 16 % 256) ∷ (n / 2 ^ 8 % 256) ∷ (n % 256) ∷ []

-- What `write_frame` puts on the stream; the length is cast to `u32`.
unfoldable pub write_frame : List ℕ → Result (List ℕ)
unfolding be32
write_frame body =
    if ltb max_frame_size (length body)
    then err too_large
    else ok (be32 (length body % 2 ^ 32) ++ body)

-- `read_exact` into a buffer of `len` bytes, on what is left of the stream.
unfoldable pub read_exact : ℕ → List ℕ → Result (List ℕ × List ℕ)
read_exact len stream =
    if ltb (length stream) len then err read_body else ok (take len stream, drop len stream)

-- `read_frame`: the body and the rest of the stream.
unfoldable pub read_frame : List ℕ → Result (List ℕ × List ℕ)
unfolding read_exact
read_frame (a ∷ b ∷ c ∷ d ∷ stream) =
    let len : ℕ = a * 2 ^ 24 + b * 2 ^ 16 + c * 2 ^ 8 + d in
    if ltb max_frame_size len then err too_large else read_exact len stream
read_frame _ = err read_prefix

read_exact-append : (body rest : List ℕ) → read_exact (length body) (body ++ rest) ≡ ok (body, rest)
unfolding read_exact
read_exact-append body rest =
    ground (arith, length-append body rest, take-append body rest, drop-append body rest)

written :
    (body out : List ℕ)
    → write_frame body ≡ ok out
    → (length body ≤ max_frame_size) × (be32 (length body % 2 ^ 32) ++ body ≡ out)
unfolding write_frame
written body out e = ground arith

be32_value :
    (n : ℕ)
    → n < 2 ^ 32
    → (n / 2 ^ 24 % 256) * 2 ^ 24
        + (n / 2 ^ 16 % 256) * 2 ^ 16
        + (n / 2 ^ 8 % 256) * 2 ^ 8
        + n % 256
      ≡ n
be32_value n h = omega arith

-- Reading after writing gives the body back and leaves exactly what follows the frame.
pub read_frame-write_frame :
    (body rest out : List ℕ)
    → write_frame body ≡ ok out
    → read_frame (out ++ rest) ≡ ok (body, rest)
unfolding write_frame read_frame
read_frame-write_frame body rest out e =
    let (small, o) = written body out e in
    let n : length body % 2 ^ 32 ≡ length body = omega arith in
    rw (← o, n, be32_value (length body) (omega arith), le→ltb max_frame_size (length body) small)
      (read_exact-append body rest)

-- A frame is written exactly when its body is within the limit.
pub write_frame-ok_iff :
    (body : List ℕ)
    → ((out : List ℕ) × (write_frame body ≡ ok out)) ↔ (length body ≤ max_frame_size)
unfolding write_frame
write_frame-ok_iff body =
    (λ p. (written body p.0 p.1).0, λ h. (be32 (length body % 2 ^ 32) ++ body, ground arith))

read_exact_sound :
    (len : ℕ) (stream body rest : List ℕ)
    → read_exact len stream ≡ ok (body, rest)
    → (length body ≡ len) × (stream ≡ body ++ rest)
unfolding read_exact
read_exact_sound len stream body rest e =
    ground (arith, length-take len stream, take-append-drop len stream)

read_body_sound :
    (a b c d : ℕ) (stream body rest : List ℕ)
    → read_frame (a ∷ b ∷ c ∷ d ∷ stream) ≡ ok (body, rest)
    → (length body ≤ max_frame_size)
      × (length body ≡ a * 2 ^ 24 + b * 2 ^ 16 + c * 2 ^ 8 + d)
      × (stream ≡ body ++ rest)
unfolding read_frame
read_body_sound a b c d stream body rest e =
    let len : ℕ = a * 2 ^ 24 + b * 2 ^ 16 + c * 2 ^ 8 + d in
    ground (arith, read_exact_sound len stream body rest)

be32_digits :
    (a b c d n : ℕ)
    → a < 256
    → b < 256
    → c < 256
    → d < 256
    → n ≡ a * 2 ^ 24 + b * 2 ^ 16 + c * 2 ^ 8 + d
    → (a ≡ n / 2 ^ 24 % 256) × (b ≡ n / 2 ^ 16 % 256) × (c ≡ n / 2 ^ 8 % 256) × (d ≡ n % 256)
be32_digits a b c d n ha hb hc hd e = omega arith

-- Whatever bytes a peer sends, a body that is read is within the limit, and the stream was its frame
-- followed by the rest.
pub read_frame_sound :
    (stream body rest : List ℕ)
    → All (λ x. x < 256) stream
    → read_frame stream ≡ ok (body, rest)
    → (length body ≤ max_frame_size) × (stream ≡ (be32 (length body) ++ body) ++ rest)
unfolding read_frame be32
read_frame_sound (a ∷ b ∷ c ∷ d ∷ stream) body rest bs e =
    let (small, n, split) = read_body_sound a b c d stream body rest e in
    let (pa, pb, pc, pd) = be32_digits a b c d (length body) bs.0 bs.1.0 bs.1.1.0 bs.1.1.1.0 n in
    (small, cc)
read_frame_sound _ body rest bs e = absurd (cc)
