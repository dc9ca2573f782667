-- ===== src/Protocol.antt =====
-- backend/internal/protocol/frame.go: the binary frame that carries one chunk of a body, as the
-- gateway writes and reads it. Slices are lists, and integer fields stay numbers: a field's width is
-- a hypothesis where it matters.
pub mod Messages
pub mod Wire
pub mod RoundTrip
mod Examples
use my_ngrok.Base.{
  ℕ, ◌+◌, ◌*◌, ◌/◌, ◌%◌, ◌<◌, ◌≡◌, Bool, false, not, ◌&&◌, ◌||◌, List, [], ◌∷◌, ◌++◌, Bytes, length,
  get_or, take, drop, Result, ok, err, ltb, ◌==◌, if◌then◌else◌,
}

abbrev pub binary_frame_version : ℕ
binary_frame_version = 1

abbrev pub request_body_chunk : ℕ
request_body_chunk = 1

abbrev pub response_body_chunk : ℕ
response_body_chunk = 2

abbrev pub binary_frame_header : ℕ
binary_frame_header = 12

-- 32 << 10
abbrev pub max_binary_frame_payload : ℕ
max_binary_frame_payload = 32768

pub record BinaryFrame : Type 0 where
  pub frame_type : ℕ
  pub request_id : Bytes
  pub sequence : ℕ
  pub payload : Bytes

pub data FrameError : Type 0 where
  unsupported_type : ℕ → FrameError
  invalid_id_length : ℕ → FrameError
  payload_too_large invalid_frame invalid_length : FrameError

-- binary.BigEndian.PutUint16 and PutUint32
abbrev pub put_uint16 : ℕ → Bytes
put_uint16 n = n / 256 % 256 ∷ n % 256 ∷ []

abbrev pub put_uint32 : ℕ → Bytes
put_uint32 n = n / 16777216 % 256 ∷ n / 65536 % 256 ∷ n / 256 % 256 ∷ n % 256 ∷ []

-- binary.BigEndian.Uint16(data[i:i+2]) and Uint32(data[i:i+4])
abbrev pub uint16_at : Bytes → ℕ → ℕ
uint16_at bs i = get_or (drop i bs) 0 0 * 256 + get_or (drop i bs) 1 0

abbrev pub uint32_at : Bytes → ℕ → ℕ
uint32_at bs i =
    get_or (drop i bs) 0 0 * 16777216
    + get_or (drop i bs) 1 0 * 65536
    + get_or (drop i bs) 2 0 * 256
    + get_or (drop i bs) 3 0

-- `t != RequestBodyChunk && t != ResponseBodyChunk`
abbrev pub unsupported : ℕ → Bool
unsupported t = not (t == request_body_chunk) && not (t == response_body_chunk)

-- The slice that the two marshallers fill in.
abbrev pub wire : BinaryFrame → Bytes
wire f =
    binary_frame_version
    ∷ f.frame_type
    ∷ (put_uint16 (length f.request_id % 65536)
        ++ (put_uint32 f.sequence
            ++ (put_uint32 (length f.payload % 4294967296) ++ (f.request_id ++ f.payload))))

unfoldable pub marshal_binary : BinaryFrame → Result FrameError Bytes
marshal_binary f =
    if unsupported f.frame_type
    then err (unsupported_type f.frame_type)
    else if length f.request_id == 0 || ltb 65535 (length f.request_id)
    then err (invalid_id_length (length f.request_id))
    else if ltb max_binary_frame_payload (length f.payload)
    then err payload_too_large
    else ok (wire f)

unfoldable pub parse_binary_frame : Bytes → Result FrameError BinaryFrame
parse_binary_frame bs =
    if ltb (length bs) binary_frame_header || not (get_or bs 0 0 == binary_frame_version)
    then err invalid_frame
    else if unsupported (get_or bs 1 0)
    then err (unsupported_type (get_or bs 1 0))
    else let id_length = uint16_at bs 2 in
      let payload_length = uint32_at bs 8 in
      if ltb max_binary_frame_payload payload_length
      then err payload_too_large
      else if id_length == 0 || not (length bs == binary_frame_header + id_length + payload_length)
      then err invalid_length
      else ok (record {
        frame_type = get_or bs 1 0;
        request_id = take id_length (drop 12 bs);
        sequence = uint32_at bs 4;
        payload = drop (12 + id_length) bs;
      })

-- What a marshaller accepts: a body chunk with a request ID that fits its length field.
pub record IsFrame (f : BinaryFrame) : Type 0 where
  pub known_type : unsupported f.frame_type ≡ false
  pub id_pos : 0 < length f.request_id
  pub id_bound : length f.request_id < 65536
  pub payload_bound : length f.payload < 32769

-- The value of the uint32 field fits its width.
abbrev pub IsU32 : ℕ → Type 0
IsU32 n = n < 4294967296

-- The chunks of a run of frames, joined.
abbrev pub payloads : List BinaryFrame → Bytes
payloads [] = []
payloads (f ∷ fs) = f.payload ++ payloads fs
