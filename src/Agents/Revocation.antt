-- ===== src/Agents/Revocation.antt =====
-- What a revoked token is worth.
use my_ngrok.Base.{
  Memᴰ, head, tail, Fate, executed, not_executed, reply_lost, ℕ, Bool, true, false, ◌||◌, List, [],
  ◌∷◌, none, some, Bytes, bytes_eq, bytes_eq_iff, if◌then◌else◌, ok, err, All, ◌≡◌, refl, sym, ◌∙◌,
  ap, subst, arith, Bool-cases, inl, inr, ◌⊎◌, ◌≢◌, Option,
}
use my_ngrok.Strings.{trim_space}
use my_ngrok.Agents.{
  TokenRow, AgentTables, Digests, failed, ClientHelloPayload, ConnectRun, has_hash, insert_token,
  unrevoked, revocable, revoke_rows, returning, revoke, find_token, valid, use_rows, connect,
  connect_token,
}

-- No two rows have one hash: the constraint UNIQUE.
unfoldable pub Unique : List TokenRow → Type 0
Unique [] = Unit
Unique (r ∷ rs) = (has_hash rs r.token_hash ≡ false) × Unique rs

-- The statements of the program on the tokens, in any order, whatever happens to the agents.
pub data Step : AgentTables → AgentTables → Type 0 where
  by_create : {t t' : AgentTables} (row : TokenRow) → insert_token t row ≡ some t' → Step t t'
  by_revoke :
      {t : AgentTables} (id user_id : Bytes) (now : ℕ)
      → Step t (record t { agent_tokens = revoke_rows id user_id now t.agent_tokens })
  by_use :
      {t : AgentTables} (id : Bytes) (now : ℕ)
      → Step t (record t { agent_tokens = use_rows id now t.agent_tokens })
  by_agents : {t : AgentTables} (agents : List _) → Step t (record t { agents = agents })

pub data Reach : AgentTables → AgentTables → Type 0 where
  here : {t : AgentTables} → Reach t t
  then_step : {t t' t'' : AgentTables} → Reach t t' → Step t' t'' → Reach t t''

-- No row of the hash can be used any more.
pub AllRevoked : Bytes → List TokenRow → Type 0
AllRevoked hash = All (λ r. bytes_eq r.token_hash hash ≡ true → unrevoked r ≡ false)

pub record Spent (hash : Bytes) (t : AgentTables) : Type 0 where
  pub stored : has_hash t.agent_tokens hash ≡ true
  pub revoked : AllRevoked hash t.agent_tokens

find_token-none :
    (rs : List TokenRow) (hash : Bytes) (now : ℕ)
    → AllRevoked hash rs
    → find_token rs hash now ≡ none
unfolding find_token AllRevoked
find_token-none [] hash now h = refl
find_token-none (r ∷ rs) hash now h = ground (arith, find_token-none rs hash now h.1)

has_hash-revoke_rows :
    (rs : List TokenRow) (hash id user_id : Bytes) (now : ℕ)
    → has_hash (revoke_rows id user_id now rs) hash ≡ has_hash rs hash
unfolding has_hash revoke_rows
has_hash-revoke_rows [] hash id user_id now = refl
has_hash-revoke_rows (r ∷ rs) hash id user_id now =
    ground (arith, has_hash-revoke_rows rs hash id user_id now)

has_hash-use_rows :
    (rs : List TokenRow) (hash id : Bytes) (now : ℕ)
    → has_hash (use_rows id now rs) hash ≡ has_hash rs hash
unfolding has_hash use_rows
has_hash-use_rows [] hash id now = refl
has_hash-use_rows (r ∷ rs) hash id now = ground (arith, has_hash-use_rows rs hash id now)

revoke_rows-AllRevoked :
    (rs : List TokenRow) (hash id user_id : Bytes) (now : ℕ)
    → AllRevoked hash rs
    → AllRevoked hash (revoke_rows id user_id now rs)
unfolding AllRevoked revoke_rows
revoke_rows-AllRevoked [] hash id user_id now h = tt
revoke_rows-AllRevoked (r ∷ rs) hash id user_id now h =
    (ground arith, revoke_rows-AllRevoked rs hash id user_id now h.1)

use_rows-AllRevoked :
    (rs : List TokenRow) (hash id : Bytes) (now : ℕ)
    → AllRevoked hash rs
    → AllRevoked hash (use_rows id now rs)
unfolding AllRevoked use_rows
use_rows-AllRevoked [] hash id now h = tt
use_rows-AllRevoked (r ∷ rs) hash id now h = (ground arith, use_rows-AllRevoked rs hash id now h.1)

-- Rows of which none has the hash.
absent-AllRevoked :
    (rs : List TokenRow) (hash : Bytes) → has_hash rs hash ≡ false → AllRevoked hash rs
unfolding AllRevoked has_hash
absent-AllRevoked [] hash h = tt
absent-AllRevoked (r ∷ rs) hash h = (λ same. ground arith, absent-AllRevoked rs hash (ground arith))

-- The hash that a revocation returns is stored.
returning_stored :
    (rs : List TokenRow) (id user_id hash : Bytes)
    → returning id user_id rs ≡ some hash
    → has_hash rs hash ≡ true
unfolding returning has_hash
returning_stored [] id user_id hash h = cc
returning_stored (r ∷ rs) id user_id hash h =
    ground (arith, returning_stored rs id user_id hash, bytes_eq_iff r.token_hash hash)

-- The UPDATE revokes every row of the hash that it returns.
returning_revoked :
    (rs : List TokenRow) (id user_id hash : Bytes) (now : ℕ)
    → Unique rs
    → returning id user_id rs ≡ some hash
    → AllRevoked hash (revoke_rows id user_id now rs)
unfolding returning revoke_rows Unique AllRevoked
returning_revoked [] id user_id hash now u h = cc
returning_revoked (r ∷ rs) id user_id hash now u h = elim (Bool-cases (revocable id user_id r)) [
  | inl hit ↦
      let same : r.token_hash ≡ hash = ground arith in
      (
        λ _. ground arith,
        revoke_rows-AllRevoked rs hash id user_id now (absent-AllRevoked rs hash (rw same at u.0)),
      )
  | inr miss ↦
      let rest : returning id user_id rs ≡ some hash = ground arith in
      (
        λ same.
            ground
              (arith, returning_stored rs id user_id hash rest, bytes_eq_iff r.token_hash hash),
        returning_revoked rs id user_id hash now u.1 rest,
      )
]

refused_or :
    {A : Type 0} (b : Bool) (x y : A)
    → (if b then none else some x) ≡ some y
    → (b ≡ false) × (y ≡ x)
refused_or true x y h = cc
refused_or false x y h = (refl, cc)

insert_token-some :
    (t t' : AgentTables) (row : TokenRow)
    → insert_token t row ≡ some t'
    → (has_hash t.agent_tokens row.token_hash ≡ false)
      × (t' ≡ record t { agent_tokens = row ∷ t.agent_tokens })
unfolding insert_token
insert_token-some t t' row h =
    refused_or (has_hash t.agent_tokens row.token_hash)
      (record t { agent_tokens = row ∷ t.agent_tokens }) t' h

insert_token-Unique :
    (t t' : AgentTables) (row : TokenRow)
    → insert_token t row ≡ some t'
    → Unique t.agent_tokens
    → Unique t'.agent_tokens
unfolding Unique
insert_token-Unique t t' row h u =
    let (unused, e) = insert_token-some t t' row h in
    subst (λ x. Unique x.agent_tokens) (sym e) (unused, u)

insert_token-Spent :
    (t t' : AgentTables) (hash : Bytes) (row : TokenRow)
    → insert_token t row ≡ some t'
    → Spent hash t
    → Spent hash t'
unfolding AllRevoked has_hash
insert_token-Spent t t' hash row h s =
    let (unused, e) = insert_token-some t t' row h in
    subst (Spent hash) (sym e) (record {
      stored = ground arith;
      revoked = (λ same. ground (arith, bytes_eq_iff row.token_hash hash), s.revoked);
    })

Step-Spent : {t t' : AgentTables} (hash : Bytes) → Step t t' → Spent hash t → Spent hash t'
Step-Spent {t} {t'} hash (by_create row h) s = insert_token-Spent t t' hash row h s
Step-Spent {t} {t'} hash (by_revoke id user_id now) s = record {
  stored = has_hash-revoke_rows t.agent_tokens hash id user_id now ∙ s.stored;
  revoked = revoke_rows-AllRevoked t.agent_tokens hash id user_id now s.revoked;
}
Step-Spent {t} {t'} hash (by_use id now) s = record {
  stored = has_hash-use_rows t.agent_tokens hash id now ∙ s.stored;
  revoked = use_rows-AllRevoked t.agent_tokens hash id now s.revoked;
}
Step-Spent {t} {t'} hash (by_agents agents) s = record { stored = s.stored; revoked = s.revoked }

pub Reach-Spent : {t t' : AgentTables} (hash : Bytes) → Reach t t' → Spent hash t → Spent hash t'
Reach-Spent hash here s = s
Reach-Spent hash (then_step r x) s = Step-Spent hash x (Reach-Spent hash r s)

unrevoked_row : (r : TokenRow) → unrevoked r ≡ true → r.revoked_at ≡ none
unrevoked_row r h = unset r.revoked_at h
  where
    unset : (o : Option ℕ) → (elim o [ none ↦ true | some _ ↦ false ]) ≡ true → o ≡ none
    unset none h = refl
    unset (some at) h = cc

-- The row whose hash is returned.
pub returning_row :
    (rs : List TokenRow) (id user_id hash : Bytes)
    → returning id user_id rs ≡ some hash
    → (r : TokenRow) × Memᴰ r rs
      × (r.id ≡ id)
      × (r.user_id ≡ user_id)
      × (r.revoked_at ≡ none)
      × (r.token_hash ≡ hash)
unfolding returning
returning_row [] id user_id hash h = cc
returning_row (r ∷ rs) id user_id hash h = elim (Bool-cases (revocable id user_id r)) [
  | inl hit ↦ (
    r,
    head refl,
    ground (arith, bytes_eq_iff r.id id),
    ground (arith, bytes_eq_iff r.user_id user_id),
    unrevoked_row r (ground arith),
    ground arith,
  )
  | inr miss ↦
      let (row, there, named, owned, unset, same) =
        returning_row rs id user_id hash (ground arith) in
      (row, tail there, named, owned, unset, same)
]

-- The rows of other tokens and of other users stay.
pub revoke_rows-Mem :
    (rs : List TokenRow) (id user_id : Bytes) (now : ℕ) (row : TokenRow)
    → (row.id ≢ id) ⊎ (row.user_id ≢ user_id)
    → Memᴰ row rs
    → Memᴰ row (revoke_rows id user_id now rs)
unfolding revoke_rows
revoke_rows-Mem [] id user_id now row foreign there = there
revoke_rows-Mem (r ∷ rs) id user_id now row foreign (head same) =
    head (ground (arith, bytes_eq_iff r.id id, bytes_eq_iff r.user_id user_id))
revoke_rows-Mem (r ∷ rs) id user_id now row foreign (tail there) =
    tail (revoke_rows-Mem rs id user_id now row foreign there)

-- A `Revoke` that returns a hash was executed.
pub revoke_executed :
    (t t' : AgentTables) (user_id id hash : Bytes) (now : ℕ) (update : Fate)
    → revoke t user_id id now update ≡ (t', ok (some hash))
    → (returning id user_id t.agent_tokens ≡ some hash)
      × (t'.agent_tokens ≡ revoke_rows id user_id now t.agent_tokens)
unfolding revoke
revoke_executed t t' user_id id hash now executed h = (cc, ap (λ x. x.0.agent_tokens) (sym h))
revoke_executed t t' user_id id hash now not_executed h = cc
revoke_executed t t' user_id id hash now reply_lost h = cc

-- A `Revoke` that returns a hash spends it.
pub revoke-Spent :
    (t t' : AgentTables) (user_id id hash : Bytes) (now : ℕ) (update : Fate)
    → Unique t.agent_tokens
    → revoke t user_id id now update ≡ (t', ok (some hash))
    → Spent hash t'
unfolding revoke
revoke-Spent t t' user_id id hash now executed u h =
    let found : returning id user_id t.agent_tokens ≡ some hash = cc in
    subst (Spent hash) (ap (λ x. x.0) h) (record {
      stored =
          has_hash-revoke_rows t.agent_tokens hash id user_id now
          ∙ returning_stored t.agent_tokens id user_id hash found;
      revoked = returning_revoked t.agent_tokens id user_id hash now u found;
    })
revoke-Spent t t' user_id id hash now not_executed u h = cc
revoke-Spent t t' user_id id hash now reply_lost u h = cc

-- A spent token is not valid, and no agent connects with it.
pub Spent-refused :
    (d : Digests) (t : AgentTables) (raw : Bytes) (hello : ClientHelloPayload) (run : ConnectRun)
    (now : ℕ) (select_fails : Bool)
    → Spent (d.sha256_hex raw) t
    → (valid d t raw now select_fails ≡ false) × (connect d t raw hello run ≡ (t, err failed))
unfolding valid connect
Spent-refused d t raw hello run now select_fails s = (
  ground (arith, find_token-none t.agent_tokens (d.sha256_hex raw) now s.revoked),
  rw (find_token-none t.agent_tokens (d.sha256_hex raw) run.now s.revoked) (
      nobody (bytes_eq (trim_space hello.instance_id) [] || bytes_eq (trim_space hello.hostname) [])
        run.select_fails),
)
  where
    nobody :
        (a b : Bool)
        → (if a then (t, err failed) else connect_token t hello run (if b then none else none))
          ≡ (t, err failed)
    nobody true b = refl
    nobody false true = refl
    nobody false false = refl

revoke_rows-Unique :
    (rs : List TokenRow) (id user_id : Bytes) (now : ℕ)
    → Unique rs
    → Unique (revoke_rows id user_id now rs)
unfolding Unique revoke_rows
revoke_rows-Unique [] id user_id now u = tt
revoke_rows-Unique (r ∷ rs) id user_id now u = (
  ground (arith, has_hash-revoke_rows rs r.token_hash id user_id now),
  revoke_rows-Unique rs id user_id now u.1,
)

use_rows-Unique :
    (rs : List TokenRow) (id : Bytes) (now : ℕ) → Unique rs → Unique (use_rows id now rs)
unfolding Unique use_rows
use_rows-Unique [] id now u = tt
use_rows-Unique (r ∷ rs) id now u =
    (ground (arith, has_hash-use_rows rs r.token_hash id now), use_rows-Unique rs id now u.1)

-- The statements keep the hashes apart.
pub Reach-Unique :
    {t t' : AgentTables} → Reach t t' → Unique t.agent_tokens → Unique t'.agent_tokens
Reach-Unique here u = u
Reach-Unique (then_step r x) u = kept x (Reach-Unique r u)
  where
    kept : {t t' : AgentTables} → Step t t' → Unique t.agent_tokens → Unique t'.agent_tokens
    kept {t} {t'} (by_create row h) u = insert_token-Unique t t' row h u
    kept {t} (by_revoke id user_id now) u = revoke_rows-Unique t.agent_tokens id user_id now u
    kept {t} (by_use id now) u = use_rows-Unique t.agent_tokens id now u
    kept {t} (by_agents agents) u = u
