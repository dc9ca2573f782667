-- ===== src/Protocol/Examples.antt =====
-- One frame of three bytes.
use my_ngrok.Base.{◌≡◌, refl, [], ◌∷◌, Bytes, IsBytes, ok, arith}
use my_ngrok.Protocol.{BinaryFrame, marshal_binary, parse_binary_frame, wire}
use my_ngrok.Protocol.RoundTrip.{parse-marshal, marshal-parse}

abbrev frame : BinaryFrame
frame = record { frame_type = 2; request_id = 7 ∷ []; sequence = 258; payload = 1 ∷ 2 ∷ 3 ∷ [] }

abbrev slice : Bytes
slice = wire frame

slice-IsBytes : IsBytes slice
slice-IsBytes = omega arith

parse-marshal_example : parse_binary_frame slice ≡ ok frame
unfolding marshal_binary
parse-marshal_example = parse-marshal frame (omega arith) refl

marshal-parse_example : marshal_binary frame ≡ ok slice
unfolding parse_binary_frame
marshal-parse_example = marshal-parse slice {f = frame} slice-IsBytes refl
