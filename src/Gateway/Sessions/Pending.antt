-- ===== src/Gateway/Sessions/Pending.antt =====
-- The pending requests of a manager and the response channels that they wait on.
use my_ngrok.Base.{
  ℕ, suc, ◌≤◌, ◌<◌, ◌≡◌, refl, Bool, not, List, [], ◌∷◌, ◌++◌, Option, none, some, Bytes, bytes_eq,
  length, Option-cases, inl, inr, ◌==◌, if◌then◌else◌, arith,
}
use my_ngrok.Map.{Map, get, delete, retain}
use my_ngrok.Gateway.Types.{PendingRequest, Response, update}
use my_ngrok.Gateway.Sessions.{fail_all, respond, agent_disconnected}

-- The request that waits on a channel.
pub owner : Map PendingRequest → ℕ → Option PendingRequest
owner [] c = none
owner ((k, p) ∷ m) c = if p.response == c then some p else owner m c

-- Every request waits on a channel of its own, which is made and still empty.
abbrev pub Waiting : ℕ → (ℕ → List Response) → Map PendingRequest → Type 0
Waiting next buffers [] = Unit {0}
Waiting next buffers ((k, p) ∷ m) =
    (p.response < next)
    × (buffers p.response ≡ [])
    × (owner m p.response ≡ none)
    × Waiting next buffers m

owner-delete_fresh :
    (m : Map PendingRequest) (k : Bytes) (c : ℕ) → owner m c ≡ none → owner (delete m k) c ≡ none
unfolding owner delete
owner-delete_fresh [] k c h = refl
owner-delete_fresh ((j, p) ∷ m) k c h = ground (arith, owner-delete_fresh m k c)

pub Waiting-delete :
    (next : ℕ) (buffers : ℕ → List Response) (m : Map PendingRequest) (k : Bytes)
    → Waiting next buffers m
    → Waiting next buffers (delete m k)
unfolding delete
Waiting-delete next buffers [] k w = tt
Waiting-delete next buffers ((j, p) ∷ m) k w =
    ground (arith, Waiting-delete next buffers m k w.3, owner-delete_fresh m k p.response)

owner-retain_fresh :
    (keep : Bytes → PendingRequest → Bool) (m : Map PendingRequest) (c : ℕ)
    → owner m c ≡ none
    → owner (retain keep m) c ≡ none
unfolding owner retain
owner-retain_fresh keep [] c h = refl
owner-retain_fresh keep ((j, p) ∷ m) c h = ground (arith, owner-retain_fresh keep m c)

-- A channel that no request waits on may change.
pub Waiting-update :
    (next : ℕ) (buffers : ℕ → List Response) (m : Map PendingRequest) (c : ℕ) (v : List Response)
    → owner m c ≡ none
    → Waiting next buffers m
    → Waiting next (update buffers c v) m
unfolding owner
Waiting-update next buffers [] c v h w = tt
Waiting-update next buffers ((j, p) ∷ m) c v h w = ground (arith, Waiting-update next buffers m c v)

pub owner_fresh :
    (next : ℕ) (buffers : ℕ → List Response) (m : Map PendingRequest) (c : ℕ)
    → Waiting next buffers m
    → next ≤ c
    → owner m c ≡ none
unfolding owner
owner_fresh next buffers [] c w h = refl
owner_fresh next buffers ((j, p) ∷ m) c w h = ground (arith, owner_fresh next buffers m c w.3)

pub Waiting-suc :
    (next : ℕ) (buffers : ℕ → List Response) (m : Map PendingRequest)
    → Waiting next buffers m
    → Waiting (suc next) buffers m
Waiting-suc next buffers [] w = tt
Waiting-suc next buffers ((j, p) ∷ m) w = ground (arith, Waiting-suc next buffers m w.3)

-- The request found under an ID waits on its channel, which is made and empty.
pub get-owner :
    (next : ℕ) (buffers : ℕ → List Response) (m : Map PendingRequest) (k : Bytes)
    {p : PendingRequest}
    → Waiting next buffers m
    → get m k ≡ some p
    → (owner m p.response ≡ some p) × (p.response < next) × (buffers p.response ≡ [])
unfolding get owner
get-owner next buffers [] k w h = cc
get-owner next buffers ((j, q) ∷ m) k {p} w h =
    ground (arith, get-owner next buffers m k {p = p} w.3)

pub owner-delete_self :
    (next : ℕ) (buffers : ℕ → List Response) (m : Map PendingRequest) (k : Bytes)
    {p : PendingRequest}
    → Waiting next buffers m
    → get m k ≡ some p
    → owner (delete m k) p.response ≡ none
unfolding get owner delete
owner-delete_self next buffers [] k w h = refl
owner-delete_self next buffers ((j, q) ∷ m) k {p} w h = ground (
  arith,
  owner-delete_self next buffers m k {p = p} w.3,
  owner-delete_fresh m k p.response,
  get-owner next buffers m k {p = p} w.3,
)

abbrev fail_one : Bytes → Option PendingRequest → List Response → List Response
fail_one id none buffer = buffer
fail_one id (some p) buffer =
    if bytes_eq p.session_id id then buffer ++ agent_disconnected ∷ [] else buffer

-- The order of the map's entries does not show: each channel gets the error of its own request.
pub fail_all-owner :
    (next : ℕ) (id : Bytes) (m : Map PendingRequest) (start buffers : ℕ → List Response) (c : ℕ)
    → Waiting next start m
    → fail_all id m buffers c ≡ fail_one id (owner m c) (buffers c)
unfolding fail_all owner
fail_all-owner next id [] start buffers c w = refl
fail_all-owner next id ((k, p) ∷ m) start buffers c w = ground (
  arith,
  fail_all-owner next id m start (respond buffers p.response agent_disconnected) c w.3,
  fail_all-owner next id m start buffers c w.3,
)

-- Each request of the second map is the one that waits on its channel in the first.
abbrev Owned : Map PendingRequest → Map PendingRequest → Type 0
Owned m [] = Unit {0}
Owned m ((k, p) ∷ r) = (owner m p.response ≡ some p) × Owned m r

Owned-cons :
    (k : Bytes) (q : PendingRequest) (m r : Map PendingRequest)
    → owner m q.response ≡ none
    → Owned m r
    → Owned ((k, q) ∷ m) r
unfolding owner
Owned-cons k q m [] h o = tt
Owned-cons k q m ((j, p) ∷ r) h o = ground (arith, Owned-cons k q m r h o.1)

Owned_lem :
    (next : ℕ) (buffers : ℕ → List Response) (m : Map PendingRequest)
    → Waiting next buffers m
    → Owned m m
unfolding owner
Owned_lem next buffers [] w = tt
Owned_lem next buffers ((k, p) ∷ m) w =
    let tail = Owned-cons k p m m w.2 (Owned_lem next buffers m w.3) in ground arith

abbrev elsewhere : Bytes → Bytes → PendingRequest → Bool
elsewhere id k p = not (bytes_eq p.session_id id)

Waiting-kept :
    (next : ℕ) (id : Bytes) (m r : Map PendingRequest) (before after : ℕ → List Response)
    → ((c : ℕ) → after c ≡ fail_one id (owner m c) (before c))
    → Owned m r
    → Waiting next before r
    → Waiting next after (retain (elsewhere id) r)
unfolding retain
Waiting-kept next id m [] before after e o w = tt
Waiting-kept next id m ((k, p) ∷ r) before after e o w = ground (
  arith,
  e p.response,
  Waiting-kept next id m r before after e o.1 w.3,
  owner-retain_fresh (elsewhere id) r p.response,
)

-- After a session's requests have failed, the others wait as before.
pub Waiting-fail_all :
    (next : ℕ) (id : Bytes) (m : Map PendingRequest) (buffers : ℕ → List Response)
    → Waiting next buffers m
    → Waiting next (fail_all id m buffers) (retain (λ _ p. not (bytes_eq p.session_id id)) m)
Waiting-fail_all next id m buffers w =
    Waiting-kept next id m m buffers (fail_all id m buffers)
      (λ c. fail_all-owner next id m buffers buffers c w) (Owned_lem next buffers m w) w

pub owner-buffer :
    (next : ℕ) (buffers : ℕ → List Response) (m : Map PendingRequest) (c : ℕ) {p : PendingRequest}
    → Waiting next buffers m
    → owner m c ≡ some p
    → (buffers c ≡ []) × (p.response ≡ c)
unfolding owner
owner-buffer next buffers [] c w h = cc
owner-buffer next buffers ((j, q) ∷ m) c {p} w h =
    ground (arith, owner-buffer next buffers m c {p = p} w.3)

-- A channel that buffers one response at most still does so.
pub fail_all-buffered :
    (next : ℕ) (id : Bytes) (m : Map PendingRequest) (buffers : ℕ → List Response) (c : ℕ)
    → Waiting next buffers m
    → length (buffers c) ≤ 1
    → length (fail_all id m buffers c) ≤ 1
fail_all-buffered next id m buffers c w h =
    rw (fail_all-owner next id m buffers buffers c w) (elim (Option-cases (owner m c)) [
      | inl e ↦ rw e h
      | inr (p, e) ↦ rw e (ground (arith, owner-buffer next buffers m c w e))
    ])

-- A channel may be emptied at any time.
pub Waiting_emptied :
    (next : ℕ) (buffers : ℕ → List Response) (m : Map PendingRequest) (c : ℕ)
    → Waiting next buffers m
    → Waiting next (update buffers c []) m
Waiting_emptied next buffers [] c w = tt
Waiting_emptied next buffers ((j, p) ∷ m) c w = ground (arith, Waiting_emptied next buffers m c w.3)
