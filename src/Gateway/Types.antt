-- ===== src/Gateway/Types.antt =====
-- The data of backend/internal/gateway/session_manager.go. The manager's maps hold references to
-- channels and to cancellable contexts; these live in a store beside the maps, under numbers.
use my_ngrok.Base.{ℕ, Bool, List, Option, Bytes, ℤ, ◌==◌, if◌then◌else◌}
use my_ngrok.Map.{Map}

-- websocket.MessageType
pub data MessageType : Type 0 where
  message_text message_binary : MessageType

pub record OutboundMessage : Type 0 where
  pub message_type : MessageType
  pub content : Bytes

-- `last_seen` is 0 for the zero time; `outbound` and `cancel` are `none` for nil.
pub record Session : Type 0 where
  pub id : Bytes
  pub agent_id : Bytes
  pub agent_token_hash : Bytes
  pub last_seen : ℕ
  pub outbound : Option ℕ
  pub cancel : Option ℕ

pub record PendingRequest : Type 0 where
  pub session_id : Bytes
  pub response : ℕ

pub record Response : Type 0 where
  pub status_code : ℤ
  pub headers : Map (List Bytes)
  pub body : Bytes
  pub error : Bytes

-- The four fields of the struct, then the store: what each outbound channel and each response
-- channel buffers, which contexts are cancelled, and the first response channel not yet made.
pub record SessionManager : Type 0 where
  pub sessions : Map Session
  pub pending : Map PendingRequest
  pub connections_total : ℕ
  pub disconnections_total : ℕ
  pub outbound_buffers : ℕ → List OutboundMessage
  pub response_buffers : ℕ → List Response
  pub cancelled : ℕ → Bool
  pub next_channel : ℕ

pub record MetricsSnapshot : Type 0 where
  pub active_sessions : ℕ
  pub pending_requests : ℕ
  pub connections_total : ℕ
  pub disconnections_total : ℕ

-- A write to one cell of the store.
abbrev pub update {ℓ} : {A : Type ℓ} → (ℕ → A) → ℕ → A → ℕ → A
update f c v i = if c == i then v else f i
