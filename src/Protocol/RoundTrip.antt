-- ===== src/Protocol/RoundTrip.antt =====
use my_ngrok.Base.{
  ℕ, ◌+◌, ◌*◌, ◌/◌, ◌%◌, ◌<◌, ◌≡◌, ap, false, ◌∷◌, ◌++◌, Bytes, IsBytes, length, take, drop, ok,
  arith, length-append, take-append, drop-append, take-append-drop, length-take, length-drop, ◌∙◌,
}
use my_ngrok.Protocol.{
  BinaryFrame, IsFrame, IsU32, wire, marshal_binary, parse_binary_frame, unsupported,
}
use my_ngrok.Protocol.Wire.{drop-add, uint16_lem, uint32_lem}

-- Marshalling accepts exactly the well-formed frames.
pub marshal_binary_ok : (f : BinaryFrame) → IsFrame f → marshal_binary f ≡ ok (wire f)
unfolding marshal_binary
marshal_binary_ok f v = ground arith

pub marshal_binary-IsFrame :
    (f : BinaryFrame) {bs : Bytes} → marshal_binary f ≡ ok bs → IsFrame f × (bs ≡ wire f)
unfolding marshal_binary
marshal_binary-IsFrame f h = ground arith

-- The parser reads a header's fields, and splits what follows at the ID's length.
parse_fields :
    (f : BinaryFrame) (i0 i1 s0 s1 s2 s3 p0 p1 p2 p3 : ℕ)
    → IsFrame f
    → i0 * 256 + i1 ≡ length f.request_id
    → s0 * 16777216 + s1 * 65536 + s2 * 256 + s3 ≡ f.sequence
    → p0 * 16777216 + p1 * 65536 + p2 * 256 + p3 ≡ length f.payload
    → parse_binary_frame (
        1
        ∷ f.frame_type
        ∷ i0
        ∷ i1
        ∷ s0
        ∷ s1
        ∷ s2
        ∷ s3
        ∷ p0
        ∷ p1
        ∷ p2
        ∷ p3
        ∷ (f.request_id ++ f.payload))
      ≡ ok f
unfolding parse_binary_frame
parse_fields f i0 i1 s0 s1 s2 s3 p0 p1 p2 p3 v i s p =
    rw
      (
        i,
        s,
        p,
        drop-add 12 (length f.request_id),
        take-append f.request_id f.payload,
        drop-append f.request_id f.payload,
      )
      (ground (arith, length-append f.request_id f.payload))

-- The parser reads back what the marshaller lays out.
pub parse-wire :
    (f : BinaryFrame) → IsFrame f → IsU32 f.sequence → parse_binary_frame (wire f) ≡ ok f
parse-wire f v s =
    let i = length f.request_id % 65536 in
    let p = length f.payload % 4294967296 in
    let q = f.sequence in
    parse_fields f (i / 256 % 256) (i % 256) (q / 16777216 % 256) (q / 65536 % 256) (q / 256 % 256)
      (q % 256) (p / 16777216 % 256) (p / 65536 % 256) (p / 256 % 256) (p % 256) v
      (uint16_lem (length f.request_id) v.id_bound) (uint32_lem f.sequence s)
      (let h = v.payload_bound in omega arith)

-- A frame that was marshalled with a uint32 sequence number is parsed back to itself.
pub parse-marshal :
    (f : BinaryFrame) {bs : Bytes}
    → IsU32 f.sequence
    → marshal_binary f ≡ ok bs
    → parse_binary_frame bs ≡ ok f
parse-marshal f s h = let (v, e) = marshal_binary-IsFrame f h in rw e (parse-wire f v s)

-- What the parser has checked of a slice with a whole header, and the frame that it returns.
record Accepted (b0 t n q m : ℕ) (rest : Bytes) (f : BinaryFrame) : Type 0 where
  version : b0 ≡ 1
  known_type : unsupported t ≡ false
  id_pos : 0 < n
  payload_bound : m < 32769
  total : length rest ≡ n + m
  frame :
      f ≡ record { frame_type = t; request_id = take n rest; sequence = q; payload = drop n rest }

parse_inv :
    (b0 t i0 i1 s0 s1 s2 s3 p0 p1 p2 p3 : ℕ) (rest : Bytes) {f : BinaryFrame}
    → parse_binary_frame (b0 ∷ t ∷ i0 ∷ i1 ∷ s0 ∷ s1 ∷ s2 ∷ s3 ∷ p0 ∷ p1 ∷ p2 ∷ p3 ∷ rest) ≡ ok f
    → Accepted b0 t
        (i0 * 256 + i1)
        (s0 * 16777216 + s1 * 65536 + s2 * 256 + s3)
        (p0 * 16777216 + p1 * 65536 + p2 * 256 + p3)
        rest
        f
unfolding parse_binary_frame
parse_inv b0 t i0 i1 s0 s1 s2 s3 p0 p1 p2 p3 rest h =
    let bs = b0 ∷ t ∷ i0 ∷ i1 ∷ s0 ∷ s1 ∷ s2 ∷ s3 ∷ p0 ∷ p1 ∷ p2 ∷ p3 ∷ rest in
    ground (arith, drop-add 12 (i0 * 256 + i1) bs)

Accepted-IsFrame :
    {b0 t n q m : ℕ} {rest : Bytes} {f : BinaryFrame}
    → n < 65536
    → Accepted b0 t n q m rest f
    → IsFrame f
Accepted-IsFrame {n = n} {m = m} {rest = rest} h a =
    let total = a.total in
    rw (a.frame) (record {
      known_type = a.known_type;
      id_pos = rw (length-take n rest (omega arith)) a.id_pos;
      id_bound = rw (length-take n rest (omega arith)) h;
      payload_bound = let b = a.payload_bound in omega (arith, length-drop n rest);
    })

-- What the parser accepts is a frame that the marshaller accepts, and its fields fit their widths.
pub parse_binary_frame-IsFrame :
    (bs : Bytes) {f : BinaryFrame}
    → IsBytes bs
    → parse_binary_frame bs ≡ ok f
    → IsFrame f × IsU32 f.sequence
unfolding parse_binary_frame
parse_binary_frame-IsFrame (b0 ∷ t ∷ i0 ∷ i1 ∷ s0 ∷ s1 ∷ s2 ∷ s3 ∷ p0 ∷ p1 ∷ p2 ∷ p3 ∷ rest) w h =
    let a = parse_inv b0 t i0 i1 s0 s1 s2 s3 p0 p1 p2 p3 rest h in
    (Accepted-IsFrame (omega arith) a, rw (a.frame) (omega arith))
parse_binary_frame-IsFrame _ w h = ground arith

-- The encoding is canonical: a slice that parses is the one that its frame is marshalled to.
pub marshal-parse :
    (bs : Bytes) {f : BinaryFrame}
    → IsBytes bs
    → parse_binary_frame bs ≡ ok f
    → marshal_binary f ≡ ok bs
unfolding parse_binary_frame
marshal-parse (b0 ∷ t ∷ i0 ∷ i1 ∷ s0 ∷ s1 ∷ s2 ∷ s3 ∷ p0 ∷ p1 ∷ p2 ∷ p3 ∷ rest) {f} w h =
    let a = parse_inv b0 t i0 i1 s0 s1 s2 s3 p0 p1 p2 p3 rest h in
    let n = i0 * 256 + i1 in
    let total = a.total in
    let bound = a.payload_bound in
    let one = a.version in
    marshal_binary_ok f (Accepted-IsFrame (omega arith) a)
    ∙ ap ok (
        rw (a.frame) (
          ground
            (arith, length-take n rest (omega arith), length-drop n rest, take-append-drop n rest)))
marshal-parse _ w h = ground arith
