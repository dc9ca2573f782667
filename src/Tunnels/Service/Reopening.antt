-- ===== src/Tunnels/Service/Reopening.antt =====
-- What an agent that comes back gets.
use my_ngrok.Base.{
  Memᴰ, head, tail, Fate, executed, ℕ, Bool, true, false, ◌&&◌, ◌||◌, List, [], ◌∷◌, Option, none,
  some, Bytes, bytes_eq, bytes_eq_iff, bytes_eq_refl, leb, if◌then◌else◌, ◌≡◌, refl, sym, subst,
  ◌∙◌, arith, Bool-cases, inl, inr,
}
use my_ngrok.Tunnels.Service.{
  TunnelRow, close_rows, close_agent_tunnels, candidate, later_of, latest_closed, reopened,
  reopen_rows, ReopenRun, reopen_found, reopen_for_session,
}

-- The agent has a tunnel to the address.
unfoldable pub has_tunnel : List TunnelRow → Bytes → Bytes → Bool
has_tunnel [] agent address = false
has_tunnel (r ∷ rs) agent address =
    (bytes_eq r.agent_id agent && bytes_eq r.local_address address) || has_tunnel rs agent address

-- The agent has a tunnel to the address, at the subdomain.
unfoldable pub owns : List TunnelRow → Bytes → Bytes → Bytes → Bool
owns [] agent address subdomain = false
owns (r ∷ rs) agent address subdomain =
    (bytes_eq r.agent_id agent
      && bytes_eq r.local_address address
      && bytes_eq r.subdomain subdomain)
    || owns rs agent address subdomain

-- What the choice of the SELECT has.
record Chosen (rs : List TunnelRow) (agent address : Bytes) (q : TunnelRow) : Type 0 where
  agent_of : bytes_eq q.agent_id agent ≡ true
  address_of : bytes_eq q.local_address address ≡ true
  owned : owns rs agent address q.subdomain ≡ true
  stored : Memᴰ q rs

Chosen-head :
    (r : TunnelRow) (rs : List TunnelRow) (agent address : Bytes)
    → candidate agent address r ≡ true
    → Chosen (r ∷ rs) agent address r
unfolding owns
Chosen-head r rs agent address h = record {
  agent_of = ground arith;
  address_of = ground arith;
  owned = ground (arith, bytes_eq_refl r.subdomain);
  stored = head refl;
}

Chosen-tail :
    (r q : TunnelRow) (rs : List TunnelRow) (agent address : Bytes)
    → Chosen rs agent address q
    → Chosen (r ∷ rs) agent address q
unfolding owns
Chosen-tail r q rs agent address c = record {
  agent_of = c.agent_of;
  address_of = c.address_of;
  owned = ground (arith, c.owned);
  stored = tail c.stored;
}

later_cases :
    (P : TunnelRow → Type 0) (r : TunnelRow) (o : Option TunnelRow)
    → P r
    → ((q : TunnelRow) → o ≡ some q → P q)
    → P (later_of r o)
later_cases P r none pr po = pr
later_cases P r (some q) pr po = elim (Bool-cases (leb q.updated_at r.updated_at)) [
  | inl older ↦ rw older pr
  | inr newer ↦ rw newer (po q refl)
]

latest_closed-Chosen :
    (rs : List TunnelRow) (agent address : Bytes) (q : TunnelRow)
    → latest_closed rs agent address ≡ some q
    → Chosen rs agent address q
unfolding latest_closed
latest_closed-Chosen [] agent address q h = cc
latest_closed-Chosen (r ∷ rs) agent address q h = elim (Bool-cases (candidate agent address r)) [
  | inl fits ↦
      let chosen : later_of r (latest_closed rs agent address) ≡ q = ground arith in
      subst (Chosen (r ∷ rs) agent address) chosen (
        later_cases (Chosen (r ∷ rs) agent address) r (latest_closed rs agent address)
          (Chosen-head r rs agent address fits)
          (λ p e. Chosen-tail r p rs agent address (latest_closed-Chosen rs agent address p e)))
  | inr unfit ↦
      let rest : latest_closed rs agent address ≡ some q = ground arith in
      Chosen-tail r q rs agent address (latest_closed-Chosen rs agent address q rest)
]

-- Of the closed rows of the agent, one is found.
latest_closed-close_rows :
    (t : List TunnelRow) (agent address : Bytes) (now : ℕ)
    → has_tunnel t agent address ≡ true
    → (q : TunnelRow) × (latest_closed (close_rows agent now t) agent address ≡ some q)
unfolding latest_closed close_rows has_tunnel
latest_closed-close_rows [] agent address now h = cc
latest_closed-close_rows (r ∷ rs) agent address now h =
    elim (Bool-cases (bytes_eq r.agent_id agent && bytes_eq r.local_address address)) [
      | inl own ↦ (
        later_of (closed r) (latest_closed (close_rows agent now rs) agent address),
        ground arith,
      )
      | inr foreign ↦
          let (q, found) = latest_closed-close_rows rs agent address now (ground arith) in
          (q, ground (arith, found))
    ]
  where
    closed : TunnelRow → TunnelRow
    closed r =
        if bytes_eq r.agent_id agent && r.is_open
        then record r { is_open = false; updated_at = now }
        else r

owns-close_rows :
    (t : List TunnelRow) (agent address subdomain other : Bytes) (now : ℕ)
    → owns (close_rows other now t) agent address subdomain ≡ owns t agent address subdomain
unfolding owns close_rows
owns-close_rows [] agent address subdomain other now = refl
owns-close_rows (r ∷ rs) agent address subdomain other now =
    ground (arith, owns-close_rows rs agent address subdomain other now)

abbrev pub subdomains : List TunnelRow → List Bytes
subdomains [] = []
subdomains (r ∷ rs) = r.subdomain ∷ subdomains rs

subdomains-close_rows :
    (t : List TunnelRow) (agent : Bytes) (now : ℕ)
    → subdomains (close_rows agent now t) ≡ subdomains t
unfolding close_rows
subdomains-close_rows [] agent now = refl
subdomains-close_rows (r ∷ rs) agent now = ground (arith, subdomains-close_rows rs agent now)

subdomains-reopen_rows :
    (t : List TunnelRow) (id : Bytes) (now : ℕ) → subdomains (reopen_rows id now t) ≡ subdomains t
unfolding reopen_rows
subdomains-reopen_rows [] id now = refl
subdomains-reopen_rows (r ∷ rs) id now = ground (arith, subdomains-reopen_rows rs id now)

reopen_rows-Mem :
    (t : List TunnelRow) (now : ℕ) (q : TunnelRow)
    → Memᴰ q t
    → Memᴰ (reopened now q) (reopen_rows q.id now t)
unfolding reopen_rows
reopen_rows-Mem [] now q there = elim there [ ]
reopen_rows-Mem (r ∷ rs) now q (head same) = head (ground (arith, bytes_eq_refl q.id))
reopen_rows-Mem (r ∷ rs) now q (tail there) = tail (reopen_rows-Mem rs now q there)

-- The answer is an open row of the agent to the address, at a subdomain that was the agent's for this
-- address; it stands in the table, which has the subdomains that it had.
pub record Reopened (t : List TunnelRow) (agent address : Bytes)
    (x : List TunnelRow × Option TunnelRow) : Type 0 where
  pub row : TunnelRow
  pub given : x.1 ≡ some row
  pub is_open : row.is_open ≡ true
  pub agent_of : row.agent_id ≡ agent
  pub address_of : row.local_address ≡ address
  pub owned : owns t agent address row.subdomain ≡ true
  pub stored : Memᴰ row x.0
  pub kept : subdomains x.0 ≡ subdomains t

reopen_found-Reopened :
    (t : List TunnelRow) (agent address : Bytes) (now : ℕ) (run : ReopenRun) (q : TunnelRow)
    → run.update ≡ executed
    → Chosen (close_rows agent now t) agent address q
    → Reopened t agent address (reopen_found (close_rows agent now t) agent address run (some q))
reopen_found-Reopened t agent address now run q fate c = record {
  row = reopened run.now q;
  given = rw fate refl;
  is_open = refl;
  agent_of = (bytes_eq_iff q.agent_id agent).0 c.agent_of;
  address_of = (bytes_eq_iff q.local_address address).0 c.address_of;
  owned = sym (owns-close_rows t agent address q.subdomain agent now) ∙ c.owned;
  stored = rw fate (reopen_rows-Mem (close_rows agent now t) run.now q c.stored);
  kept = rw fate (
      subdomains-reopen_rows (close_rows agent now t) q.id run.now
      ∙ subdomains-close_rows t agent now);
}

-- An agent whose tunnels have been closed gets back a tunnel to the same address, at a subdomain that it
-- had for this address: the answer is its open row, which stands in the table, and no subdomain is added
-- to the table, when the statements are executed.
pub reopen_for_session-Reopened :
    (t : List TunnelRow) (agent address : Bytes) (now : ℕ) (update : Fate) (run : ReopenRun)
    → bytes_eq agent [] ≡ false
    → update ≡ executed
    → run.update ≡ executed
    → has_tunnel t agent address ≡ true
    → Reopened t agent address
        (reopen_for_session (close_agent_tunnels t agent now update) agent address run)
unfolding reopen_for_session close_agent_tunnels
reopen_for_session-Reopened t agent address now update run named fate fate' has =
    let (q, found) = latest_closed-close_rows t agent address now has in
    rw (named, fate, found)
      (reopen_found-Reopened t agent address now run q fate'
        (latest_closed-Chosen (close_rows agent now t) agent address q found))
