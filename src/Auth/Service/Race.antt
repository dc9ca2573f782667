-- ===== src/Auth/Service/Race.antt =====
-- Two refreshes of one token at the same time.
use my_ngrok.Base.{executed, ◌+◌, false, ◌∷◌, Option, some, Bytes, ok, ◌≡◌, refl}
use my_ngrok.Auth.Jwt.{sign_jwt}
use my_ngrok.Auth.Tables.{User, RefreshRow, Tables, has_hash, insert_refresh, new_refresh, revoke}
use my_ngrok.Auth.Service.{
  Service, Tokens, IssueRun, RefreshRun, hash_token, random_token, access_claims, issue, refresh,
  refresh_found, refresh_user, refresh_revoke, refresh_issue,
}

-- A run of `issue` on these tables in which nothing fails and the drawn token is not stored yet.
pub record CanIssue (s : Service) (t : Tables) (user_id : Bytes) (run : IssueRun) : Type 0 where
  pub access : Bytes
  pub random : Bytes
  pub signed : sign_jwt s.jwt (access_claims s user_id run) s.access_secret ≡ ok access
  pub drawn : run.random ≡ some random
  pub unused : has_hash t.refresh_tokens (hash_token s (s.jwt.encode random)) ≡ false
  pub inserted : run.insert ≡ executed

module _ (s : Service) (t : Tables) (user_id user_agent ip : Bytes) (run : IssueRun)
    (c : CanIssue s t user_id run) where
  abbrev pub issued_tokens : Tokens
  issued_tokens = record {
    access_token = c.access;
    refresh_token = s.jwt.encode c.random;
    refresh_expires_at = run.refresh_from + s.refresh_ttl;
  }

  abbrev pub issued_row : RefreshRow
  issued_row =
      new_refresh user_id (hash_token s (s.jwt.encode c.random)) (run.refresh_from + s.refresh_ttl)
        user_agent ip

  -- What `issue` does when nothing fails.
  pub issue_lem :
      issue s t user_id user_agent ip run
      ≡ (record t { refresh_tokens = issued_row ∷ t.refresh_tokens }, ok issued_tokens)
  unfolding issue random_token insert_refresh
  issue_lem = rw (c.signed, c.drawn, c.unused, c.inserted) refl

-- The rest of a `Refresh` that has found the user, when nothing fails.
pub refreshed :
    (s : Service) (t : Tables) (raw user_agent ip : Bytes) (run : RefreshRun) (u : User)
    (o : Option User)
    → o ≡ some u
    → run.revoke ≡ executed
    → (c : CanIssue s (revoke t (hash_token s raw) run.revoke_at) u.id run.issue)
    → (refresh_found s t raw user_agent ip run o).1
      ≡ ok (
        u,
        issued_tokens s (revoke t (hash_token s raw) run.revoke_at) u.id user_agent ip run.issue c,
      )
unfolding refresh_issue refresh_revoke
refreshed s t raw user_agent ip run u o found fate c =
    rw
      (
        found,
        fate,
        issue_lem s (revoke t (hash_token s raw) run.revoke_at) u.id user_agent ip run.issue c,
      )
      refl

-- Two calls of `Refresh` with one token, of which the second makes its SELECT before the first makes
-- its UPDATE, and its own UPDATE afterwards, both give tokens when nothing else fails.
pub refresh_race :
    (s : Service) (t : Tables) (raw user_agent ip : Bytes) (first second : RefreshRun) (u : User)
    → refresh_user s t raw first ≡ some u
    → refresh_user s t raw second ≡ some u
    → first.revoke ≡ executed
    → second.revoke ≡ executed
    → (c : CanIssue s (revoke t (hash_token s raw) first.revoke_at) u.id first.issue)
    → let won = refresh s t raw user_agent ip first in
      (d : CanIssue s (revoke won.0 (hash_token s raw) second.revoke_at) u.id second.issue)
      → (won.1
          ≡ ok (
            u,
            issued_tokens s
                (revoke t (hash_token s raw) first.revoke_at)
                u.id
                user_agent
                ip
                first.issue
                c,
          ))
        × ((refresh_found s won.0 raw user_agent ip second (refresh_user s t raw second)).1
            ≡ ok (
              u,
              issued_tokens s
                  (revoke won.0 (hash_token s raw) second.revoke_at)
                  u.id
                  user_agent
                  ip
                  second.issue
                  d,
            ))
unfolding refresh
refresh_race s t raw user_agent ip first second u found found2 fate fate2 c d = (
  refreshed s t raw user_agent ip first u (refresh_user s t raw first) found fate c,
  refreshed s (refresh s t raw user_agent ip first).0 raw user_agent ip second u
      (refresh_user s t raw second) found2 fate2 d,
)
