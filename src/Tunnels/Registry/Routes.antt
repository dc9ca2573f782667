-- ===== src/Tunnels/Registry/Routes.antt =====
-- The two maps of a registry are inverse to one another.
use my_ngrok.Base.{
  ◌≡◌, true, false, none, some, Bytes, bytes_eq, bytes_eq_iff, Bool-cases, Option-cases,
  if◌then◌else◌, arith, inl, inr,
}
use my_ngrok.Map.{get, put, delete}
use my_ngrok.Map.Laws.{get-put, get-delete, get-put_self, get-delete_self}
use my_ngrok.Tunnels.Registry.{
  ActiveTunnel, Registry, new_registry, open_tunnel, get_tunnel, forget, close_tunnel,
}

pub record Inv (r : Registry) : Type 0 where
  pub routed :
      (id s : Bytes)
      → get r.by_id id ≡ some s
      → (t : ActiveTunnel) × (get r.by_subdomain s ≡ some t) × (t.id ≡ id)
  pub indexed :
      (s : Bytes) (t : ActiveTunnel)
      → get r.by_subdomain s ≡ some t
      → (t.subdomain ≡ s) × (get r.by_id t.id ≡ some s)

-- The database gives a tunnel one subdomain and a subdomain one tunnel.
pub record CanOpen (r : Registry) (t : ActiveTunnel) : Type 0 where
  pub same_subdomain : (s : Bytes) → get r.by_id t.id ≡ some s → s ≡ t.subdomain
  pub same_id : (u : ActiveTunnel) → get r.by_subdomain t.subdomain ≡ some u → u.id ≡ t.id

pub new_registry-Inv : Inv new_registry
unfolding new_registry get
new_registry-Inv = record { routed = λ id s h. cc; indexed = λ s t h. cc }

module _ (r : Registry) (t : ActiveTunnel) (c : CanOpen r t) (v : Inv r) where
  open_routed :
      (id s : Bytes)
      → get (put r.by_id t.id t.subdomain) id ≡ some s
      → (u : ActiveTunnel) × (get (put r.by_subdomain t.subdomain t) s ≡ some u) × (u.id ≡ id)
  open_routed id s h = elim (Bool-cases (bytes_eq t.id id)) [
    | inl hit ↦
        let e : t.subdomain ≡ s = ground (arith, get-put r.by_id t.id t.subdomain id) in
        (t, rw (← e) (get-put_self r.by_subdomain t.subdomain t), (bytes_eq_iff t.id id).0 hit)
    | inr miss ↦
        let old : get r.by_id id ≡ some s = ground (arith, get-put r.by_id t.id t.subdomain id) in
        let (u, e, i) = v.routed id s old in
        (
          u,
          ground (
            arith,
            get-put r.by_subdomain t.subdomain t s,
            bytes_eq_iff t.subdomain s,
            bytes_eq_iff t.id id,
            c.same_id u,
          ),
          i,
        )
  ]

  open_indexed :
      (s : Bytes) (u : ActiveTunnel)
      → get (put r.by_subdomain t.subdomain t) s ≡ some u
      → (u.subdomain ≡ s) × (get (put r.by_id t.id t.subdomain) u.id ≡ some s)
  open_indexed s u h = ground (
    arith,
    get-put r.by_subdomain t.subdomain t s,
    get-put r.by_id t.id t.subdomain u.id,
    bytes_eq_iff t.subdomain s,
    bytes_eq_iff t.id u.id,
    v.indexed s u,
    c.same_subdomain s,
  )

pub open_tunnel-Inv :
    (r : Registry) (t : ActiveTunnel) → CanOpen r t → Inv r → Inv (open_tunnel r t)
unfolding open_tunnel
open_tunnel-Inv r t c v = record { routed = open_routed r t c v; indexed = open_indexed r t c v }

module _ (r : Registry) (id s : Bytes) (v : Inv r) (e : get r.by_id id ≡ some s) where
  forget_routed :
      (i z : Bytes)
      → get (delete r.by_id id) i ≡ some z
      → (u : ActiveTunnel) × (get (delete r.by_subdomain s) z ≡ some u) × (u.id ≡ i)
  forget_routed i z h =
      let cut = get-delete r.by_id id i in
      let old : get r.by_id i ≡ some z = ground arith in
      let (u, at_z, is_i) = v.routed i z old in
      let (w, at_s, is_id) = v.routed id s e in
      (
        u,
        ground (arith, cut, get-delete r.by_subdomain s z, bytes_eq_iff s z, bytes_eq_iff id i),
        is_i,
      )

  forget_indexed :
      (z : Bytes) (u : ActiveTunnel)
      → get (delete r.by_subdomain s) z ≡ some u
      → (u.subdomain ≡ z) × (get (delete r.by_id id) u.id ≡ some z)
  forget_indexed z u h = ground (
    arith,
    get-delete r.by_subdomain s z,
    get-delete r.by_id id u.id,
    bytes_eq_iff s z,
    bytes_eq_iff id u.id,
    v.indexed z u,
  )

pub forget-Inv :
    (r : Registry) (id s : Bytes) → Inv r → get r.by_id id ≡ some s → Inv (forget r id s)
forget-Inv r id s v e = record {
  routed = forget_routed r id s v e;
  indexed = forget_indexed r id s v e;
}

pub close_tunnel-Inv : (r : Registry) (id : Bytes) → Inv r → Inv (close_tunnel r id).0
unfolding close_tunnel
close_tunnel-Inv r id v = elim (Option-cases (get r.by_id id)) [
  | inl e ↦ rw (e, close_tunnel) v
  | inr (s, e) ↦ rw (e, close_tunnel) (forget-Inv r id s v e)
]

-- An opened tunnel is routed at its subdomain until it is closed; every other subdomain keeps its
-- route through both calls, and the close succeeds exactly once.
pub get-open_tunnel-close_tunnel :
    (r : Registry) (t : ActiveTunnel) (s : Bytes)
    → let o = open_tunnel r t in
      let (n, done) = close_tunnel o t.id in
      (get_tunnel o s ≡ (if bytes_eq t.subdomain s then some t else get_tunnel r s))
      × (done ≡ true)
      × (get_tunnel n s ≡ (if bytes_eq t.subdomain s then none else get_tunnel r s))
      × (close_tunnel n t.id ≡ (n, false))
unfolding open_tunnel close_tunnel get_tunnel
get-open_tunnel-close_tunnel r t s = ground (
  arith,
  get-put r.by_subdomain t.subdomain t s,
  get-put_self r.by_id t.id t.subdomain,
  get-delete (put r.by_subdomain t.subdomain t) t.subdomain s,
  get-delete_self (put r.by_id t.id t.subdomain) t.id,
  bytes_eq_iff t.subdomain s,
)
