-- ===== src/Auth/Tables/History.antt =====
-- The statements that the program makes on the two tables, in any order, as one relation: whatever
-- requests are served at the same time, the tables go through such a history.
use my_ngrok.Base.{
  Fate, executed, not_executed, reply_lost, exec, ℕ, Bool, true, false, List, [], ◌∷◌, none, some,
  Bytes, bytes_eq, bytes_eq_iff, if◌then◌else◌, ◌≡◌, refl, ◌∙◌, sym, arith, All, subst,
  Option-cases, inl, inr,
}
use my_ngrok.Auth.Tables.{
  RefreshRow, UserRow, Tables, User, find_live, insert_user, new_user, touch_login, unrevoked,
  revoke, revoke_rows, revoke_live, revoke_live_rows, has_hash, insert_refresh, find_email,
}

pub data Step : Tables → Tables → Type 0 where
  by_register :
      {t t' : Tables} (id email password_hash : Bytes) (now : ℕ)
      → insert_user t id email password_hash now ≡ some t'
      → Step t t'
  by_login : {t : Tables} (id : Bytes) (now : ℕ) → Step t (touch_login t id now)
  by_refresh : {t : Tables} (hash : Bytes) (now : ℕ) → Step t (revoke t hash now)
  by_logout : {t : Tables} (hash : Bytes) (now : ℕ) → Step t (revoke_live t hash now)
  by_issue :
      {t t' : Tables} (row : RefreshRow)
      → row.revoked_at ≡ none
      → insert_refresh t row ≡ some t'
      → Step t t'

pub data Reach : Tables → Tables → Type 0 where
  here : {t : Tables} → Reach t t
  then_step : {t t' t'' : Tables} → Reach t t' → Step t' t'' → Reach t t''

pub Reach-trans : {t t' t'' : Tables} → Reach t t' → Reach t' t'' → Reach t t''
Reach-trans r here = r
Reach-trans r (then_step s x) = then_step (Reach-trans r s) x

-- No row of the hash can be used any more.
pub AllRevoked : Bytes → List RefreshRow → Type 0
AllRevoked hash = All (λ r. bytes_eq r.token_hash hash ≡ true → unrevoked r ≡ false)

-- A row has the hash, so none is inserted with it again, and every such row is revoked.
pub record Spent (hash : Bytes) (t : Tables) : Type 0 where
  pub stored : has_hash t.refresh_tokens hash ≡ true
  pub revoked : AllRevoked hash t.refresh_tokens

-- A history of no statement or of one.
pub one : {t t' : Tables} → Step t t' → Reach t t'
one s = then_step here s

-- Whatever becomes of a statement, it is a history of at most one step.
pub exec-Reach : (f : Fate) {t t' : Tables} → Step t t' → Reach t (exec f t t').0
exec-Reach executed s = one s
exec-Reach not_executed s = here
exec-Reach reply_lost s = one s

-- A hash with no usable row finds no user.
find_live-none :
    (rs : List RefreshRow) (users : List UserRow) (hash : Bytes) (now : ℕ)
    → AllRevoked hash rs
    → find_live rs users hash now ≡ none
unfolding find_live AllRevoked
find_live-none [] users hash now h = refl
find_live-none (r ∷ rs) users hash now h = ground (arith, find_live-none rs users hash now h.1)

pub find_live-Spent :
    (t : Tables) (hash : Bytes) (now : ℕ)
    → Spent hash t
    → find_live t.refresh_tokens t.users hash now ≡ none
find_live-Spent t hash now s = find_live-none t.refresh_tokens t.users hash now s.revoked

has_hash-revoke_rows :
    (rs : List RefreshRow) (hash other : Bytes) (now : ℕ)
    → has_hash (revoke_rows other now rs) hash ≡ has_hash rs hash
unfolding has_hash revoke_rows
has_hash-revoke_rows [] hash other now = refl
has_hash-revoke_rows (r ∷ rs) hash other now =
    ground (arith, has_hash-revoke_rows rs hash other now)

has_hash-revoke_live_rows :
    (rs : List RefreshRow) (hash other : Bytes) (now : ℕ)
    → has_hash (revoke_live_rows other now rs) hash ≡ has_hash rs hash
unfolding has_hash revoke_live_rows
has_hash-revoke_live_rows [] hash other now = refl
has_hash-revoke_live_rows (r ∷ rs) hash other now =
    ground (arith, has_hash-revoke_live_rows rs hash other now)

-- Revoking keeps revoked rows revoked.
revoke_rows-AllRevoked :
    (rs : List RefreshRow) (hash other : Bytes) (now : ℕ)
    → AllRevoked hash rs
    → AllRevoked hash (revoke_rows other now rs)
unfolding AllRevoked revoke_rows
revoke_rows-AllRevoked [] hash other now h = tt
revoke_rows-AllRevoked (r ∷ rs) hash other now h =
    (ground arith, revoke_rows-AllRevoked rs hash other now h.1)

revoke_live_rows-AllRevoked :
    (rs : List RefreshRow) (hash other : Bytes) (now : ℕ)
    → AllRevoked hash rs
    → AllRevoked hash (revoke_live_rows other now rs)
unfolding AllRevoked revoke_live_rows
revoke_live_rows-AllRevoked [] hash other now h = tt
revoke_live_rows-AllRevoked (r ∷ rs) hash other now h =
    (ground arith, revoke_live_rows-AllRevoked rs hash other now h.1)

-- Revoking a hash revokes all its rows.
revoke_rows_self :
    (rs : List RefreshRow) (hash : Bytes) (now : ℕ) → AllRevoked hash (revoke_rows hash now rs)
unfolding AllRevoked revoke_rows
revoke_rows_self [] hash now = tt
revoke_rows_self (r ∷ rs) hash now = (ground arith, revoke_rows_self rs hash now)

revoke_live_rows_self :
    (rs : List RefreshRow) (hash : Bytes) (now : ℕ) → AllRevoked hash (revoke_live_rows hash now rs)
unfolding AllRevoked revoke_live_rows
revoke_live_rows_self [] hash now = tt
revoke_live_rows_self (r ∷ rs) hash now = (ground arith, revoke_live_rows_self rs hash now)

refused_or :
    {A : Type 0} (b : Bool) (x y : A)
    → (if b then none else some x) ≡ some y
    → (b ≡ false) × (y ≡ x)
refused_or true x y h = cc
refused_or false x y h = (refl, cc)

-- What an INSERT into `refresh_tokens` leaves, when it is accepted.
pub insert_refresh-some :
    (t t' : Tables) (row : RefreshRow)
    → insert_refresh t row ≡ some t'
    → (has_hash t.refresh_tokens row.token_hash ≡ false)
      × (t' ≡ record t { refresh_tokens = row ∷ t.refresh_tokens })
unfolding insert_refresh
insert_refresh-some t t' row h =
    refused_or (has_hash t.refresh_tokens row.token_hash)
      (record t { refresh_tokens = row ∷ t.refresh_tokens }) t' h

-- What an INSERT into `users` leaves, when it is accepted.
pub insert_user-some :
    (t t' : Tables) (id email password_hash : Bytes) (now : ℕ)
    → insert_user t id email password_hash now ≡ some t'
    → (find_email t.users email ≡ none)
      × (t' ≡ record t { users = new_user id email password_hash now ∷ t.users })
unfolding insert_user
insert_user-some t t' id email password_hash now h =
    elim (Option-cases (find_email t.users email)) [
      | inl free ↦ (free, ground (arith, free))
      | inr (u, found) ↦ ground (arith, found)
    ]

insert_refresh-Spent :
    (t t' : Tables) (hash : Bytes) (row : RefreshRow)
    → (has_hash t.refresh_tokens row.token_hash ≡ false)
      × (t' ≡ record t { refresh_tokens = row ∷ t.refresh_tokens })
    → Spent hash t
    → Spent hash t'
unfolding AllRevoked has_hash
insert_refresh-Spent t t' hash row (new, e) s = subst (Spent hash) (sym e) (record {
  stored = ground arith;
  revoked = (λ same. ground (arith, bytes_eq_iff row.token_hash hash), s.revoked);
})

Step-Spent : {t t' : Tables} (hash : Bytes) → Step t t' → Spent hash t → Spent hash t'
unfolding AllRevoked has_hash
Step-Spent {t} {t'} hash (by_register id email password_hash now h) s =
    let e = (insert_user-some t t' id email password_hash now h).1 in
    subst (Spent hash) (sym e) (record { stored = s.stored; revoked = s.revoked })
Step-Spent {t} {t'} hash (by_login id now) s = record { stored = s.stored; revoked = s.revoked }
Step-Spent {t} {t'} hash (by_refresh other now) s = record {
  stored = has_hash-revoke_rows t.refresh_tokens hash other now ∙ s.stored;
  revoked = revoke_rows-AllRevoked t.refresh_tokens hash other now s.revoked;
}
Step-Spent {t} {t'} hash (by_logout other now) s = record {
  stored = has_hash-revoke_live_rows t.refresh_tokens hash other now ∙ s.stored;
  revoked = revoke_live_rows-AllRevoked t.refresh_tokens hash other now s.revoked;
}
Step-Spent {t} {t'} hash (by_issue row fresh h) s =
    insert_refresh-Spent t t' hash row (insert_refresh-some t t' row h) s

-- Once spent, a hash stays spent through every history.
pub Reach-Spent : {t t' : Tables} (hash : Bytes) → Reach t t' → Spent hash t → Spent hash t'
Reach-Spent hash here s = s
Reach-Spent hash (then_step r x) s = Step-Spent hash x (Reach-Spent hash r s)

-- Revoking a stored hash spends it.
pub revoke-Spent :
    (t : Tables) (hash : Bytes) (now : ℕ)
    → has_hash t.refresh_tokens hash ≡ true
    → Spent hash (revoke t hash now)
revoke-Spent t hash now stored = record {
  stored = has_hash-revoke_rows t.refresh_tokens hash hash now ∙ stored;
  revoked = revoke_rows_self t.refresh_tokens hash now;
}

pub revoke_live-Spent :
    (t : Tables) (hash : Bytes) (now : ℕ)
    → has_hash t.refresh_tokens hash ≡ true
    → Spent hash (revoke_live t hash now)
revoke_live-Spent t hash now stored = record {
  stored = has_hash-revoke_live_rows t.refresh_tokens hash hash now ∙ stored;
  revoked = revoke_live_rows_self t.refresh_tokens hash now;
}

-- A hash that finds a user is stored.
pub find_live_stored :
    (rs : List RefreshRow) (users : List UserRow) (hash : Bytes) (now : ℕ) (u : User)
    → find_live rs users hash now ≡ some u
    → has_hash rs hash ≡ true
unfolding find_live has_hash
find_live_stored [] users hash now u h = cc
find_live_stored (r ∷ rs) users hash now u h = ground (arith, find_live_stored rs users hash now u)

Step-stored :
    {t t' : Tables} (hash : Bytes)
    → Step t t'
    → has_hash t.refresh_tokens hash ≡ true
    → has_hash t'.refresh_tokens hash ≡ true
unfolding has_hash
Step-stored {t} {t'} hash (by_register id email password_hash now h) s =
    let e = (insert_user-some t t' id email password_hash now h).1 in
    subst (λ x. has_hash x.refresh_tokens hash ≡ true) (sym e) s
Step-stored {t} {t'} hash (by_login id now) s = s
Step-stored {t} {t'} hash (by_refresh other now) s =
    has_hash-revoke_rows t.refresh_tokens hash other now ∙ s
Step-stored {t} {t'} hash (by_logout other now) s =
    has_hash-revoke_live_rows t.refresh_tokens hash other now ∙ s
Step-stored {t} {t'} hash (by_issue row fresh h) s =
    let e = (insert_refresh-some t t' row h).1 in
    subst (λ x. has_hash x.refresh_tokens hash ≡ true) (sym e) (ground arith)

-- A stored hash stays stored.
pub Reach-stored :
    {t t' : Tables} (hash : Bytes)
    → Reach t t'
    → has_hash t.refresh_tokens hash ≡ true
    → has_hash t'.refresh_tokens hash ≡ true
Reach-stored hash here s = s
Reach-stored hash (then_step r x) s = Step-stored hash x (Reach-stored hash r s)
