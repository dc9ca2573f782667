-- ===== src/Agent/Frame/Interop.antt =====
-- The gateway's codec and the agent's agree.
use my_ngrok.Base.{◌≡◌, ◌↔◌, Bytes, ok, arith}
use my_ngrok.Protocol.{BinaryFrame, IsU32}
use my_ngrok.Protocol
use my_ngrok.Protocol.RoundTrip.{parse-marshal}
use my_ngrok.Agent.Frame.{marshal_binary, parse_binary_frame}

-- The two parsers accept the same slices, and return the same frame for each.
pub parse_binary_frame_agree :
    (bs : Bytes) (f : BinaryFrame)
    → (parse_binary_frame bs ≡ ok f) ↔ (Protocol.parse_binary_frame bs ≡ ok f)
unfolding parse_binary_frame Protocol.parse_binary_frame
parse_binary_frame_agree bs f = ground arith

-- The two marshallers are one function.
pub marshal_binary_agree : (f : BinaryFrame) → marshal_binary f ≡ Protocol.marshal_binary f
unfolding marshal_binary Protocol.marshal_binary
marshal_binary_agree f = ground arith

-- What one side marshals, the other side parses back, both ways.
pub parse-marshal_across :
    (f : BinaryFrame) (bs : Bytes)
    → IsU32 f.sequence
    → (Protocol.marshal_binary f ≡ ok bs → parse_binary_frame bs ≡ ok f)
      × (marshal_binary f ≡ ok bs → Protocol.parse_binary_frame bs ≡ ok f)
parse-marshal_across f bs u = (
  λ h. (parse_binary_frame_agree bs f).1 (parse-marshal f u h),
  λ h. parse-marshal f u (rw (marshal_binary_agree f) at h),
)
