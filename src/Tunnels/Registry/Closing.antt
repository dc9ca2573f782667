-- ===== src/Tunnels/Registry/Closing.antt =====
-- Closing a session's tunnels, in whatever order the map is gone through.
use my_ngrok.Base.{
  ◌≡◌, ◌∙◌, Bool, true, false, not, ◌&&◌, ◌||◌, List, [], ◌∷◌, some, Bytes, bytes_eq, bytes_eq_iff,
  Bool-cases, Option-cases, arith, inl, inr,
}
use my_ngrok.Map.{get, kept, value_or}
use my_ngrok.Map.Laws.{get-delete}
use my_ngrok.Tunnels.Registry.{ActiveTunnel, Registry, get_tunnel, visit, close_session, no_tunnel}
use my_ngrok.Tunnels.Registry.Routes.{Inv, forget-Inv}

unfoldable pub contains : List Bytes → Bytes → Bool
contains [] k = false
contains (j ∷ order) k = bytes_eq j k || contains order k

-- The order visits every tunnel of the registry.
abbrev pub Covers : List Bytes → Registry → Type 0
Covers order r = (id s : Bytes) → get r.by_id id ≡ some s → contains order id ≡ true

visit-Inv :
    (r : Registry) (session_id id : Bytes) → Inv r → Inv (visit r session_id id (get r.by_id id))
unfolding visit
visit-Inv r session_id id v = elim (Option-cases (get r.by_id id)) [
  | inl e ↦ rw (e, visit) v
  | inr (s, e) ↦
      rw (e, visit)
        (elim (Bool-cases
          (bytes_eq (value_or no_tunnel (get r.by_subdomain s)).session_id session_id)) [
            | inl hit ↦ rw hit (forget-Inv r id s v e)
            | inr miss ↦ rw miss v
          ])
]

abbrev survives : Bytes → Bytes → ActiveTunnel → Bool
survives session_id id t = not (bytes_eq t.session_id session_id && bytes_eq t.id id)

-- A route whose ID differs from a registered one is at another subdomain.
id_of_route :
    (r : Registry) (z : Bytes) (t : ActiveTunnel) (id s : Bytes)
    → Inv r
    → get r.by_subdomain z ≡ some t
    → get r.by_id id ≡ some s
    → (bytes_eq t.id id ≡ bytes_eq s z) × (bytes_eq s z ≡ true → get r.by_subdomain s ≡ some t)
id_of_route r z t id s v h e =
    let (u, at_s, is_id) = v.routed id s e in
    let back = v.indexed z t h in
    (
      elim (Bool-cases (bytes_eq s z)) [
        | inl same ↦ ground (arith, bytes_eq_iff s z, bytes_eq_iff t.id id)
        | inr other ↦ ground (arith, bytes_eq_iff s z, bytes_eq_iff t.id id)
      ],
      λ same. ground (arith, bytes_eq_iff s z),
    )

visit_lem :
    (r : Registry) (session_id id z : Bytes)
    → Inv r
    → get (visit r session_id id (get r.by_id id)).by_subdomain z
      ≡ kept (λ _ t. survives session_id id t) z (get r.by_subdomain z)
unfolding visit
visit_lem r session_id id z v = elim (Option-cases (get r.by_id id)) [
  | inl e ↦
      rw (e, visit)
        (elim (Option-cases (get r.by_subdomain z)) [
          | inl gone ↦ rw gone
          | inr (t, h) ↦ ground (arith, v.indexed z t h, bytes_eq_iff t.id id)
        ])
  | inr (s, e) ↦
      rw (e, visit)
        (elim (Option-cases (get r.by_subdomain z)) [
          | inl gone ↦ ground (arith, get-delete r.by_subdomain s z)
          | inr (t, h) ↦ ground (arith, get-delete r.by_subdomain s z, id_of_route r z t id s v h e)
        ])
]

pub close_session-Inv :
    (order : List Bytes) (r : Registry) (session_id : Bytes)
    → Inv r
    → Inv (close_session order r session_id)
unfolding close_session
close_session-Inv [] r session_id v = v
close_session-Inv (id ∷ order) r session_id v =
    close_session-Inv order _ session_id (visit-Inv r session_id id v)

pub close_session_routes :
    (order : List Bytes) (r : Registry) (session_id z : Bytes)
    → Inv r
    → get (close_session order r session_id).by_subdomain z
      ≡ kept
          (λ _ t. not (bytes_eq t.session_id session_id && contains order t.id))
          z
          (get r.by_subdomain z)
unfolding close_session contains
close_session_routes [] r session_id z v = ground arith
close_session_routes (id ∷ order) r session_id z v =
    let n = visit r session_id id (get r.by_id id) in
    close_session_routes order n session_id z (visit-Inv r session_id id v)
    ∙ rw (visit_lem r session_id id z v) (elim (Option-cases (get r.by_subdomain z)) [
      | inl gone ↦ rw gone
      | inr (t, h) ↦ rw h (ground (arith, bytes_eq_iff t.id id, bytes_eq_iff id t.id))
    ])

-- `CloseSession` removes the routes of the session's tunnels and keeps every other route, in
-- whatever order the map is gone through, and leaves the two maps inverse to one another.
pub close_session_lem :
    (order : List Bytes) (r : Registry) (session_id z : Bytes)
    → Inv r
    → Covers order r
    → Inv (close_session order r session_id)
      × (get_tunnel (close_session order r session_id) z
          ≡ kept (λ _ t. not (bytes_eq t.session_id session_id)) z (get_tunnel r z))
unfolding get_tunnel
close_session_lem order r session_id z v covers = (
  close_session-Inv order r session_id v,
  close_session_routes order r session_id z v ∙ elim (Option-cases (get r.by_subdomain z)) [
    | inl gone ↦ rw gone
    | inr (t, h) ↦ rw h (ground (arith, v.indexed z t h, covers t.id z))
  ],
)
