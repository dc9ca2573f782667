-- ===== src/Tunnels/Registry/Books.antt =====
-- The books that are kept beside a registry: what was recorded, and what the drains have handed out.
use my_ngrok.Base.{
  pos_part, Option, none, Bool-cases, if◌then◌else◌, u64, ℕ, ◌+◌, ◌≡◌, ◌≢◌, refl, List, [], ◌∷◌,
  some, Bytes, bytes_eq, bytes_eq_iff, arith, inl, inr, ℤ,
}
use my_ngrok.Map.{Map, get, put, delete, Distinct, value_or}
use my_ngrok.Map.Laws.{get-put, delete_absent}
use my_ngrok.Tunnels.Registry.{
  ActiveTunnel, TrafficMetrics, Registry, new_registry, open_tunnel, close_tunnel, close_session,
  record_traffic, drain_user_deltas, no_traffic, bump, add_bytes,
}
use my_ngrok.Tunnels.Registry.Routes.{CanOpen}

-- A counter of every user, added up.
unfoldable pub sum : (TrafficMetrics → ℕ) → Map TrafficMetrics → ℕ
sum f [] = 0
sum f ((k, t) ∷ m) = f t + sum f m

sum-delete :
    (f : TrafficMetrics → ℕ) (m : Map TrafficMetrics) (k : Bytes)
    → f no_traffic ≡ 0
    → Distinct m
    → sum f (delete m k) + f (value_or no_traffic (get m k)) ≡ sum f m
unfolding sum delete get
sum-delete f [] k z d = omega arith
sum-delete f ((j, t) ∷ m) k z d =
    ground (arith, sum-delete f m k z d.1, delete_absent m k, bytes_eq_iff j k)

sum-put :
    (f : TrafficMetrics → ℕ) (m : Map TrafficMetrics) (k : Bytes) (t : TrafficMetrics)
    → f no_traffic ≡ 0
    → Distinct m
    → sum f (put m k t) + f (value_or no_traffic (get m k)) ≡ f t + sum f m
unfolding sum put
sum-put f m k t z d = omega (arith, sum-delete f m k z d)

-- A registry with what has been drained from it so far, in all and for each user, and with what has been
-- recorded on each user's tunnels, all in unbounded numbers.
pub record Books : Type 0 where
  pub registry : Registry
  pub drained : TrafficMetrics
  pub drained_for : Bytes → TrafficMetrics
  pub recorded_for : Bytes → TrafficMetrics

abbrev pub add_sums : TrafficMetrics → Map TrafficMetrics → TrafficMetrics
add_sums t m = record {
  requests_total = t.requests_total + sum (λ x. x.requests_total) m;
  request_bytes = t.request_bytes + sum (λ x. x.request_bytes) m;
  response_bytes = t.response_bytes + sum (λ x. x.response_bytes) m;
}

abbrev pub new_books : Books
new_books = record {
  registry = new_registry;
  drained = no_traffic;
  drained_for = λ user. no_traffic;
  recorded_for = λ user. no_traffic;
}

-- What the registry holds for a user, and that added to what was drained before.
abbrev pub held_for : Registry → Bytes → TrafficMetrics
held_for r user = value_or no_traffic (get r.per_user user)

abbrev pub with_delta : TrafficMetrics → TrafficMetrics → TrafficMetrics
with_delta t delta = record {
  requests_total = t.requests_total + delta.requests_total;
  request_bytes = t.request_bytes + delta.request_bytes;
  response_bytes = t.response_bytes + delta.response_bytes;
}

-- One more request, whose sizes count if they are known.
abbrev pub with_request : TrafficMetrics → ℤ → ℤ → TrafficMetrics
with_request t request_bytes response_bytes = record {
  requests_total = t.requests_total + 1;
  request_bytes = t.request_bytes + pos_part request_bytes;
  response_bytes = t.response_bytes + pos_part response_bytes;
}

-- The user of the open tunnel with an ID.
abbrev pub user_of : Option ActiveTunnel → Option Bytes
user_of none = none
user_of (some t) = some t.user_id

abbrev pub user_at : Registry → Option Bytes → Option Bytes
user_at r none = none
user_at r (some subdomain) = user_of (get r.by_subdomain subdomain)

abbrev pub recorded : (Bytes → TrafficMetrics) → Option Bytes → ℤ → ℤ → Bytes → TrafficMetrics
recorded before none p q user = before user
recorded before (some owner) p q user =
    if bytes_eq owner user then with_request (before user) p q else before user

abbrev pub on_registry : Books → Registry → Books
on_registry b r = record b { registry = r }

-- A call on the registry. Every tunnel that is opened has a user.
pub data Step (b : Books) : Books → Type 0 where
  opens :
      (t : ActiveTunnel)
      → CanOpen b.registry t
      → t.user_id ≢ []
      → Step b (on_registry b (open_tunnel b.registry t))
  closes : (id : Bytes) → Step b (on_registry b (close_tunnel b.registry id).0)
  ends :
      (order : List Bytes) (session_id : Bytes)
      → Step b (on_registry b (close_session order b.registry session_id))
  records :
      (tunnel_id : Bytes) (request_bytes response_bytes : ℤ)
      → Step b (record b {
        registry = record_traffic b.registry tunnel_id request_bytes response_bytes;
        recorded_for =
            recorded b.recorded_for
              (user_at b.registry (get b.registry.by_id tunnel_id))
              request_bytes
              response_bytes;
      })
  drains : Step b (record b {
    registry = (drain_user_deltas b.registry).0;
    drained = add_sums b.drained (drain_user_deltas b.registry).1;
    drained_for = λ user.
        with_delta
          (b.drained_for user)
          (value_or no_traffic (get (drain_user_deltas b.registry).1 user));
  })

pub data Reach (b : Books) : Books → Type 0 where
  here : Reach b b
  next : {c d : Books} → Reach b c → Step c d → Reach b d

-- The total is what was drained and what is still held, each counter modulo 2^64.
abbrev pub IsBalanced : Books → Type 0
IsBalanced b =
    let held = add_sums b.drained b.registry.per_user in
    (u64 held.requests_total ≡ b.registry.traffic.requests_total)
    × (u64 held.request_bytes ≡ b.registry.traffic.request_bytes)
    × (u64 held.response_bytes ≡ b.registry.traffic.response_bytes)

-- What was recorded on the user's tunnels is what was drained for the user and what is still held.
abbrev pub IsCredited : Books → Bytes → Type 0
IsCredited b user =
    let sum = with_delta (b.drained_for user) (held_for b.registry user) in
    let all = b.recorded_for user in
    (u64 sum.requests_total ≡ u64 all.requests_total)
    × (u64 sum.request_bytes ≡ u64 all.request_bytes)
    × (u64 sum.response_bytes ≡ u64 all.response_bytes)

counted :
    (drained held held' old total : ℕ)
    → u64 (drained + held) ≡ total
    → held' + old ≡ u64 (old + 1) + held
    → u64 (drained + held') ≡ u64 (total + 1)
counted drained held held' old total h e = omega arith

counted_bytes :
    (drained held held' old total : ℕ) (n : ℤ)
    → u64 (drained + held) ≡ total
    → held' + old ≡ add_bytes old n + held
    → u64 (drained + held') ≡ add_bytes total n
counted_bytes drained held held' old total n h e = ground arith

credited_once :
    (drained held total : ℕ)
    → u64 (drained + held) ≡ u64 total
    → u64 (drained + u64 (held + 1)) ≡ u64 (total + 1)
credited_once drained held total h = omega arith

credited_bytes :
    (drained held total : ℕ) (n : ℤ)
    → u64 (drained + held) ≡ u64 total
    → u64 (drained + add_bytes held n) ≡ u64 (total + pos_part n)
credited_bytes drained held total n h = ground arith

-- The user's delta and no other grows.
pub bump-IsCredited :
    (b : Books) (owner : Bytes) (p q : ℤ) (user : Bytes)
    → IsCredited b user
    → let m = b.registry.per_user in
      IsCredited
        (record b {
          registry = record (b.registry) {
            traffic = bump b.registry.traffic p q;
            per_user = put m owner (bump (value_or no_traffic (get m owner)) p q);
          };
          recorded_for = recorded b.recorded_for (some owner) p q;
        })
        user
bump-IsCredited b owner p q user (r, i, o) =
    let m = b.registry.per_user in
    let there = get-put m owner (bump (value_or no_traffic (get m owner)) p q) user in
    elim (Bool-cases (bytes_eq owner user)) [
      | inl own ↦
          let same = (bytes_eq_iff owner user).0 own in
          rw (there, own, same)
            (
              credited_once (b.drained_for user).requests_total
                  (held_for b.registry user).requests_total (b.recorded_for user).requests_total r,
              credited_bytes (b.drained_for user).request_bytes
                  (held_for b.registry user).request_bytes (b.recorded_for user).request_bytes p i,
              credited_bytes (b.drained_for user).response_bytes
                  (held_for b.registry user).response_bytes (b.recorded_for user).response_bytes q
                  o,
            )
      | inr foreign ↦ rw (there, foreign) (r, i, o)
    ]

pub bump-IsBalanced :
    (b : Books) (user : Bytes) (p q : ℤ)
    → Distinct b.registry.per_user
    → IsBalanced b
    → let m = b.registry.per_user in
      IsBalanced (
        on_registry b (record (b.registry) {
          traffic = bump b.registry.traffic p q;
          per_user = put m user (bump (value_or no_traffic (get m user)) p q);
        }))
bump-IsBalanced b user p q d (r, i, o) =
    let m = b.registry.per_user in
    let old = value_or no_traffic (get m user) in
    let t = bump old p q in
    (
      counted b.drained.requests_total _ _ old.requests_total _ r
          (sum-put (λ x. x.requests_total) m user t refl d),
      counted_bytes b.drained.request_bytes _ _ old.request_bytes _ p i
          (sum-put (λ x. x.request_bytes) m user t refl d),
      counted_bytes b.drained.response_bytes _ _ old.response_bytes _ q o
          (sum-put (λ x. x.response_bytes) m user t refl d),
    )
