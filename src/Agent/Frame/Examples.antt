-- ===== src/Agent/Frame/Examples.antt =====
-- One frame of three bytes, across the wire.
use my_ngrok.Base.{◌≡◌, ◌↔◌, [], ◌∷◌, Bytes, ok, arith}
use my_ngrok.Protocol.{BinaryFrame, wire}
use my_ngrok.Protocol
use my_ngrok.Agent.Frame.{marshal_binary, parse_binary_frame}
use my_ngrok.Agent.Frame.Interop.{parse-marshal_across, parse_binary_frame_agree}

abbrev frame : BinaryFrame
frame = record { frame_type = 1; request_id = 7 ∷ []; sequence = 258; payload = 1 ∷ 2 ∷ 3 ∷ [] }

abbrev slice : Bytes
slice = wire frame

parse-marshal_across_example :
    (Protocol.marshal_binary frame ≡ ok slice → parse_binary_frame slice ≡ ok frame)
    × (marshal_binary frame ≡ ok slice → Protocol.parse_binary_frame slice ≡ ok frame)
parse-marshal_across_example = parse-marshal_across frame slice (omega arith)

parse_binary_frame_agree_example :
    (parse_binary_frame slice ≡ ok frame) ↔ (Protocol.parse_binary_frame slice ≡ ok frame)
parse_binary_frame_agree_example = parse_binary_frame_agree slice frame
