-- ===== src/Agent/Frame.antt =====
-- agent/internal/gatewayclient/frame.go: the agent's own copy of the frame codec. A frame is the
-- gateway's record; the parser makes its checks in another order, and merges two of its errors.
pub mod Interop
mod Examples
use my_ngrok.Base.{
  ◌+◌, not, ◌||◌, Bytes, length, get_or, take, drop, Result, ok, err, ltb, ◌==◌, if◌then◌else◌,
}
use my_ngrok.Protocol.{
  BinaryFrame, FrameError, unsupported_type, invalid_id_length, payload_too_large, invalid_frame,
  invalid_length, unsupported, wire, uint16_at, uint32_at, binary_frame_version,
  binary_frame_header, max_binary_frame_payload,
}

unfoldable pub marshal_binary : BinaryFrame → Result FrameError Bytes
marshal_binary f =
    if unsupported f.frame_type
    then err (unsupported_type f.frame_type)
    else if length f.request_id == 0 || ltb 65535 (length f.request_id)
    then err (invalid_id_length (length f.request_id))
    else if ltb max_binary_frame_payload (length f.payload)
    then err payload_too_large
    else ok (wire f)

unfoldable pub parse_binary_frame : Bytes → Result FrameError BinaryFrame
parse_binary_frame bs =
    if ltb (length bs) binary_frame_header || not (get_or bs 0 0 == binary_frame_version)
    then err invalid_frame
    else let id_length = uint16_at bs 2 in
      let payload_length = uint32_at bs 8 in
      if ltb max_binary_frame_payload payload_length
      then err payload_too_large
      else if unsupported (get_or bs 1 0)
          || (id_length == 0 || not (length bs == binary_frame_header + id_length + payload_length))
      then err invalid_length
      else ok (record {
        frame_type = get_or bs 1 0;
        request_id = take id_length (drop 12 bs);
        sequence = uint32_at bs 4;
        payload = drop (12 + id_length) bs;
      })
