-- ===== src/Tunnels/Registry/Examples.antt =====
-- Two tunnels of two sessions.
use my_ngrok.Base.{◌≡◌, not, [], ◌∷◌, bytes_eq, bytes_eq_iff, pos, arith}
use my_ngrok.Map.{get, put, delete, kept}
use my_ngrok.Tunnels.Registry.{
  ActiveTunnel, Registry, new_registry, open_tunnel, close_session, get_tunnel, record_traffic,
}
use my_ngrok.Tunnels.Registry.Routes.{Inv, CanOpen, new_registry-Inv, open_tunnel-Inv}
use my_ngrok.Tunnels.Registry.Closing.{contains, Covers, close_session_lem}
use my_ngrok.Tunnels.Registry.Books.{
  Books, new_books, opens, records, Reach, here, next, IsBalanced, IsCredited, recorded, user_at,
}
use my_ngrok.Tunnels.Registry.Ledger.{Reach-IsBalanced}

abbrev tunnel : ActiveTunnel
tunnel = record {
  id = 1 ∷ [];
  subdomain = 2 ∷ [];
  agent_id = 3 ∷ [];
  user_id = 4 ∷ [];
  session_id = 5 ∷ [];
  local_address = [];
}

abbrev registry : Registry
registry = open_tunnel new_registry tunnel

can_open : CanOpen new_registry tunnel
unfolding new_registry get
can_open = record { same_subdomain = λ s h. cc; same_id = λ u h. cc }

covered : Covers ((1 ∷ []) ∷ []) registry
unfolding new_registry open_tunnel get put delete contains bytes_eq
covered id s h = ground (arith, bytes_eq_iff (1 ∷ []) id)

close_session_lem_example :
    Inv (close_session ((1 ∷ []) ∷ []) registry (5 ∷ []))
    × (get_tunnel (close_session ((1 ∷ []) ∷ []) registry (5 ∷ [])) (2 ∷ [])
        ≡ kept
            (λ _ t. not (bytes_eq t.session_id (5 ∷ [])))
            (2 ∷ [])
            (get_tunnel registry (2 ∷ [])))
close_session_lem_example =
    close_session_lem ((1 ∷ []) ∷ []) registry (5 ∷ []) (2 ∷ [])
      (open_tunnel-Inv new_registry tunnel can_open new_registry-Inv) covered

abbrev opened : Books
opened = record new_books { registry = registry }

abbrev used : Books
used = record opened {
  registry = record_traffic registry (1 ∷ []) (pos 10) (pos 20);
  recorded_for =
      recorded opened.recorded_for (user_at registry (get registry.by_id (1 ∷ []))) (pos 10)
        (pos 20);
}

history : Reach new_books used
history = next (next here (opens tunnel can_open (λ e. cc))) (records (1 ∷ []) (pos 10) (pos 20))

Reach-IsBalanced_example : IsBalanced used × IsCredited used (4 ∷ [])
Reach-IsBalanced_example = Reach-IsBalanced (4 ∷ []) history
