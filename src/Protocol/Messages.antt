-- ===== src/Protocol/Messages.antt =====
-- backend/internal/protocol/messages.go and agent/internal/gatewayclient/protocol.go: the payloads
-- of the control messages that carry requests, responses and tunnels.
use my_ngrok.Base.{List, Bytes, ℤ}
use my_ngrok.Map.{Map}

-- `map[string][]string`
abbrev pub Headers : Type 0
Headers = Map (List Bytes)

pub record OpenTunnelPayload : Type 0 where
  pub request_id : Bytes
  pub local_address : Bytes

pub record TunnelOpenedPayload : Type 0 where
  pub request_id : Bytes
  pub tunnel_id : Bytes
  pub subdomain : Bytes
  pub public_url : Bytes

pub record HttpRequestPayload : Type 0 where
  pub request_id : Bytes
  pub method : Bytes
  pub path : Bytes
  pub headers : Headers
  pub content_length : ℤ

pub record HttpRequestEndPayload : Type 0 where
  pub request_id : Bytes

pub record HttpResponsePayload : Type 0 where
  pub request_id : Bytes
  pub status_code : ℤ
  pub headers : Headers
  pub content_length : ℤ
  pub error : Bytes

pub record HttpResponseEndPayload : Type 0 where
  pub request_id : Bytes

pub record CancelRequestPayload : Type 0 where
  pub request_id : Bytes
