-- ===== src/Gateway/Sessions/Removal.antt =====
-- What a disconnect, a revoked token and a shutdown do to the sessions and to their requests.
use my_ngrok.Base.{
  ℕ, ◌≡◌, Bool, true, not, [], ◌∷◌, none, some, Bytes, bytes_eq, bytes_eq_iff, bytes_eq_refl,
  Bool-cases, Option-cases, refl, if◌then◌else◌, arith, ◌↔◌, ◌⊎◌, inl, inr,
}
use my_ngrok.Map.{Map, get, Distinct, kept}
use my_ngrok.Map.Laws.{get-delete, get-retain}
use my_ngrok.Gateway.Types.{Session, SessionManager, PendingRequest}
use my_ngrok.Gateway.Sessions.{
  agent_disconnected, cancel_sessions, cancel_context, close_all, disconnect_token_hash, remove,
}
use my_ngrok.Gateway.Sessions.Pending.{get-owner, fail_all-owner}
use my_ngrok.Gateway.Sessions.Invariant.{Inv}

pub remove_sessions :
    (m : SessionManager) (id j : Bytes)
    → get (remove m id).sessions j ≡ (if bytes_eq id j then none else get m.sessions j)
unfolding remove
remove_sessions m id j = ground (arith, get-delete m.sessions id j, bytes_eq_iff id j)

pub remove_pending :
    (m : SessionManager) (id request : Bytes)
    → Distinct m.pending
    → get (remove m id).pending request
      ≡ kept (λ _ p. not (bytes_eq p.session_id id)) request (get m.pending request)
unfolding remove
remove_pending m id request d =
    get-retain (λ (_ : Bytes) (q : PendingRequest). not (bytes_eq q.session_id id)) m.pending
      request d

pub remove_cancelled : (m : SessionManager) (id : Bytes) → (remove m id).cancelled ≡ m.cancelled
unfolding remove
remove_cancelled m id = elim (Option-cases (get m.sessions id)) [
  | inl gone ↦ rw gone refl
  | inr (s, there) ↦ rw there refl
]

-- Removing a session takes it, and nothing else, out of the sessions. Each pending request of that
-- session is taken out and its channel gets the error; each other request stays, its channel
-- empty.
pub remove_lem :
    (m : SessionManager) (id request : Bytes) {p : PendingRequest}
    → Inv m
    → get m.pending request ≡ some p
    → let n = remove m id in
      ((j : Bytes) → get n.sessions j ≡ (if bytes_eq id j then none else get m.sessions j))
      × (get n.pending request ≡ (if bytes_eq p.session_id id then none else some p))
      × (n.response_buffers p.response
          ≡ (if bytes_eq p.session_id id then agent_disconnected ∷ [] else []))
unfolding remove
remove_lem m id request {p} v h = (
  remove_sessions m id,
  ground (
    arith,
    get-retain (λ (_ : Bytes) (q : PendingRequest). not (bytes_eq q.session_id id)) m.pending
        request v.pending_distinct,
  ),
  ground (
    arith,
    get-owner m.next_channel m.response_buffers m.pending request v.waiting h,
    fail_all-owner m.next_channel id m.pending m.response_buffers m.response_buffers p.response
        v.waiting,
  ),
)

-- A session of the map that passes the test and holds the context.
abbrev pub Holder : (Session → Bool) → Map Session → ℕ → Type 0
Holder test m c =
    (k : Bytes) × (s : Session) × (get m k ≡ some s) × (test s ≡ true) × (s.cancel ≡ some c)

cancel_sessions_mono :
    (test : Session → Bool) (m : Map Session) (cancelled : ℕ → Bool) (c : ℕ)
    → cancelled c ≡ true
    → cancel_sessions test m cancelled c ≡ true
unfolding cancel_sessions
cancel_sessions_mono test [] cancelled c h = h
cancel_sessions_mono test ((k, s) ∷ m) cancelled c h =
    cancel_sessions_mono test m _ c (ground arith)

cancel_sessions-Holder :
    (test : Session → Bool) (m : Map Session) (cancelled : ℕ → Bool) (c : ℕ)
    → Holder test m c
    → cancel_sessions test m cancelled c ≡ true
unfolding cancel_sessions get
cancel_sessions-Holder test [] cancelled c (k, s, h, t, e) = cc
cancel_sessions-Holder test ((j, q) ∷ m) cancelled c (k, s, h, t, e) =
    elim (Bool-cases (bytes_eq j k)) [
      | inl hit ↦ cancel_sessions_mono test m _ c (ground arith)
      | inr miss ↦ cancel_sessions-Holder test m _ c (k, s, ground arith, t, e)
    ]

Holder-cons :
    (test : Session → Bool) (j : Bytes) (q : Session) (m : Map Session) (c : ℕ)
    → get m j ≡ none
    → Holder test m c
    → Holder test ((j, q) ∷ m) c
unfolding get
Holder-cons test j q m c fresh (k, s, h, t, e) = (k, s, ground (arith, bytes_eq_iff j k), t, e)

cancel_one :
    (test : Session → Bool) (q : Session) (cancelled : ℕ → Bool) (c : ℕ)
    → (if test q then cancel_context q.cancel cancelled else cancelled) c ≡ true
    → (cancelled c ≡ true) ⊎ ((test q ≡ true) × (q.cancel ≡ some c))
cancel_one test q cancelled c h = ground arith

Holder-cancelled :
    (test : Session → Bool) (m : Map Session) (cancelled : ℕ → Bool) (c : ℕ)
    → Distinct m
    → cancel_sessions test m cancelled c ≡ true
    → (cancelled c ≡ true) ⊎ Holder test m c
unfolding cancel_sessions get
Holder-cancelled test [] cancelled c d h = inl h
Holder-cancelled test ((j, q) ∷ m) cancelled c d h = elim (Holder-cancelled test m _ c d.1 h) [
  | inl now ↦ elim (cancel_one test q cancelled c now) [
    | inl before ↦ inl before
    | inr (t, e) ↦ inr (j, q, rw (bytes_eq_refl j), t, e)
  ]
  | inr there ↦ inr (Holder-cons test j q m c d.0 there)
]

cancel_sessions_iff :
    (test : Session → Bool) (m : Map Session) (cancelled : ℕ → Bool) (c : ℕ)
    → Distinct m
    → (cancel_sessions test m cancelled c ≡ true) ↔ ((cancelled c ≡ true) ⊎ Holder test m c)
cancel_sessions_iff test m cancelled c d = (
  Holder-cancelled test m cancelled c d,
  elim [
    | inl before ↦ cancel_sessions_mono test m cancelled c before
    | inr there ↦ cancel_sessions-Holder test m cancelled c there
  ],
)

-- Revoking a token cancels the contexts of the sessions that were opened with it, and no other.
pub disconnect_token_hash_iff :
    (m : SessionManager) (token_hash : Bytes) (c : ℕ)
    → Inv m
    → ((disconnect_token_hash m token_hash).cancelled c ≡ true)
      ↔ ((m.cancelled c ≡ true) ⊎ Holder (λ s. bytes_eq s.agent_token_hash token_hash) m.sessions c)
unfolding disconnect_token_hash
disconnect_token_hash_iff m token_hash c v =
    cancel_sessions_iff (λ s. bytes_eq s.agent_token_hash token_hash) m.sessions m.cancelled c
      v.sessions_distinct

-- A shutdown cancels the context of every session.
pub close_all_iff :
    (m : SessionManager) (c : ℕ)
    → Inv m
    → ((close_all m).cancelled c ≡ true)
      ↔ ((m.cancelled c ≡ true) ⊎ Holder (λ _. true) m.sessions c)
unfolding close_all
close_all_iff m c v = cancel_sessions_iff (λ _. true) m.sessions m.cancelled c v.sessions_distinct
