-- ===== src/Tunnels/Registry/Ledger.antt =====
-- Traffic is counted once in the total and once in a user's delta, and drained once.
use my_ngrok.Base.{
  ◌≡◌, ◌≢◌, refl, false, List, [], ◌∷◌, some, Bytes, bytes_eq, bytes_eq_iff, Option-cases, arith,
  inl, inr, ℤ,
}
use my_ngrok.Map.{get, Distinct, value_or}
use my_ngrok.Map.Laws.{get-delete, get-put, put-Distinct}
use my_ngrok.Tunnels.Registry.{
  ActiveTunnel, Registry, new_registry, open_tunnel, close_tunnel, close_session, record_traffic,
  drain_user_deltas, visit, no_traffic,
}
use my_ngrok.Tunnels.Registry.Routes.{Inv, new_registry-Inv, open_tunnel-Inv, close_tunnel-Inv}
use my_ngrok.Tunnels.Registry.Closing.{close_session-Inv, close_session_routes}
use my_ngrok.Tunnels.Registry.Books.{
  Books, new_books, on_registry, Step, opens, closes, ends, records, drains, Reach, here, next,
  IsBalanced, IsCredited, recorded, user_at, add_sums, with_delta, sum, bump-IsBalanced,
  bump-IsCredited,
}

record Sound (b : Books) : Type 0 where
  routes : Inv b.registry
  users : (s : Bytes) (t : ActiveTunnel) → get b.registry.by_subdomain s ≡ some t → t.user_id ≢ []
  distinct : Distinct b.registry.per_user
  balanced : IsBalanced b
  credited : (user : Bytes) → IsCredited b user

records-Sound :
    (b : Books) (id : Bytes) (p q : ℤ)
    → Sound b
    → Sound (record b {
      registry = record_traffic b.registry id p q;
      recorded_for = recorded b.recorded_for (user_at b.registry (get b.registry.by_id id)) p q;
    })
unfolding record_traffic
records-Sound b id p q v = elim (Option-cases (get b.registry.by_id id)) [
  | inl e ↦
      rw (e, record_traffic)
        (record {
          routes = v.routes;
          users = v.users;
          distinct = v.distinct;
          balanced = v.balanced;
          credited = v.credited;
        })
  | inr (s, e) ↦
      let (t, at_s, is_id) = v.routes.routed id s e in
      let named : bytes_eq t.user_id [] ≡ false =
        ground (arith, v.users s t at_s, bytes_eq_iff t.user_id []) in
      rw (e, record_traffic)
        (rw at_s (
          rw named (record {
            routes = record { routed = v.routes.routed; indexed = v.routes.indexed };
            users = v.users;
            distinct = put-Distinct b.registry.per_user t.user_id _ v.distinct;
            balanced = bump-IsBalanced b t.user_id p q v.distinct v.balanced;
            credited = λ user. bump-IsCredited b t.user_id p q user (v.credited user);
          })))
]

abbrev HasUsers : Registry → Type 0
HasUsers r = (s : Bytes) (t : ActiveTunnel) → get r.by_subdomain s ≡ some t → t.user_id ≢ []

close_tunnel-HasUsers : (r : Registry) (id : Bytes) → HasUsers r → HasUsers (close_tunnel r id).0
unfolding close_tunnel
close_tunnel-HasUsers r id u = elim (Option-cases (get r.by_id id)) [
  | inl e ↦ rw (e, close_tunnel) u
  | inr (z, e) ↦ rw (e, close_tunnel) λ s t h. u s t (ground (arith, get-delete r.by_subdomain z s))
]

close_session-HasUsers :
    (order : List Bytes) (r : Registry) (session_id : Bytes)
    → Inv r
    → HasUsers r
    → HasUsers (close_session order r session_id)
close_session-HasUsers order r session_id v u s t h =
    u s t (ground (arith, close_session_routes order r session_id s v))

-- These calls leave the traffic alone.
close_tunnel-traffic :
    (r : Registry) (id : Bytes)
    → ((close_tunnel r id).0.traffic ≡ r.traffic) × ((close_tunnel r id).0.per_user ≡ r.per_user)
unfolding close_tunnel
close_tunnel-traffic r id = ground arith

close_session-traffic :
    (order : List Bytes) (r : Registry) (session_id : Bytes)
    → ((close_session order r session_id).traffic ≡ r.traffic)
      × ((close_session order r session_id).per_user ≡ r.per_user)
unfolding close_session visit
close_session-traffic [] r session_id = (refl, refl)
close_session-traffic (id ∷ order) r session_id =
    ground (arith, close_session-traffic order (visit r session_id id (get r.by_id id)) session_id)

same_traffic :
    (b : Books) (r : Registry)
    → Inv r
    → HasUsers r
    → (r.traffic ≡ b.registry.traffic) × (r.per_user ≡ b.registry.per_user)
    → Sound b
    → Sound (on_registry b r)
same_traffic b r routes users (t, p) v = record {
  routes = routes;
  users = users;
  distinct = rw p (v.distinct);
  balanced = rw (t, p) (v.balanced);
  credited = λ user. rw p (v.credited user);
}

drains-Sound :
    (b : Books)
    → Sound b
    → Sound (record b {
      registry = (drain_user_deltas b.registry).0;
      drained = add_sums b.drained (drain_user_deltas b.registry).1;
      drained_for = λ user.
          with_delta
            (b.drained_for user)
            (value_or no_traffic (get (drain_user_deltas b.registry).1 user));
    })
unfolding drain_user_deltas sum get
drains-Sound b v = record {
  routes = record { routed = v.routes.routed; indexed = v.routes.indexed };
  users = v.users;
  distinct = tt;
  balanced = let held = v.balanced in omega arith;
  credited = λ user. let kept = v.credited user in omega arith;
}

Step-Sound : {b c : Books} → Step b c → Sound b → Sound c
Step-Sound {b} (opens t can named) v =
    same_traffic b _ (open_tunnel-Inv b.registry t can v.routes)
      (unfold open_tunnel in
        λ s u h. ground (arith, get-put b.registry.by_subdomain t.subdomain t s, v.users s u))
      (unfold open_tunnel in (refl, refl)) v
Step-Sound {b} (closes id) v =
    same_traffic b _ (close_tunnel-Inv b.registry id v.routes)
      (close_tunnel-HasUsers b.registry id v.users) (close_tunnel-traffic b.registry id) v
Step-Sound {b} (ends order session_id) v =
    same_traffic b _ (close_session-Inv order b.registry session_id v.routes)
      (close_session-HasUsers order b.registry session_id v.routes v.users)
      (close_session-traffic order b.registry session_id) v
Step-Sound {b} (records id p q) v = records-Sound b id p q v
Step-Sound {b} drains v = drains-Sound b v

new_books-Sound : Sound new_books
unfolding new_registry get sum
new_books-Sound = record {
  routes = new_registry-Inv;
  users = λ s t h. cc;
  distinct = tt;
  balanced = omega arith;
  credited = λ user. (refl, refl, refl);
}

Reach-Sound : {b : Books} → Reach new_books b → Sound b
Reach-Sound here = new_books-Sound
Reach-Sound (next r s) = Step-Sound s (Reach-Sound r)

-- After any history of opens, closes, disconnects, recorded requests and drains on a new registry,
-- in which every tunnel has a user: for each counter, what the drains have handed out and what is
-- still held, summed over the users, is the total that the metrics show; and for each user, what the
-- drains have handed out for the user and what is still held for the user is what was recorded on the
-- tunnels that were that user's when the request was recorded. All this is modulo 2^64.
pub Reach-IsBalanced :
    {b : Books} (user : Bytes) → Reach new_books b → IsBalanced b × IsCredited b user
Reach-IsBalanced user r = let v = Reach-Sound r in (v.balanced, v.credited user)

-- So is every route's ID registered under its subdomain, and the other way round.
pub Reach-routes : {b : Books} → Reach new_books b → Inv b.registry
Reach-routes r = (Reach-Sound r).routes
