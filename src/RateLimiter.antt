-- ===== src/RateLimiter.antt =====
-- backend/internal/tunnels/rate_limiter.go and backend/internal/auth/rate_limiter.go: one fixed-window
-- limiter, written out twice. A time is a number of nanoseconds, 0 for the zero `time.Time`; the
-- difference of two times is a duration, which may be negative. Times lie less than 292 years
-- apart, so `Sub` does not saturate. A call holds the lock from end to end.
pub mod Windows
pub mod Budget
mod Examples
use my_ngrok.Base.{
  ℕ, suc, ◌+◌, Bool, true, false, not, ◌||◌, [], Bytes, bytes_eq, ℤ, pos, sub_ℕ, ◌-ℤ◌, leb_ℤ, leb,
  ◌==◌, if◌then◌else◌,
}
use my_ngrok.Map.{Map, get, put, retain, value_or}

pub record RateEntry : Type 0 where
  pub started : ℕ
  pub count : ℕ

pub record RateLimiter : Type 0 where
  pub limit : ℕ
  pub window : ℕ
  pub entries : Map RateEntry

abbrev pub minute : ℕ
minute = 60000000000

unfoldable pub new_rate_limiter : ℕ → ℕ → RateLimiter
new_rate_limiter limit window = record { limit = limit; window = window; entries = [] }

-- publicRateLimit and publicRateWindow
unfoldable pub public_rate_limiter : RateLimiter
unfolding new_rate_limiter
public_rate_limiter = new_rate_limiter 120 minute

-- authRateLimit and authRateWindow
unfoldable pub auth_rate_limiter : RateLimiter
unfolding new_rate_limiter
auth_rate_limiter = new_rate_limiter 10 minute

-- The zero value, found for a key with no entry.
abbrev pub no_entry : RateEntry
no_entry = record { started = 0; count = 0 }

-- `now.Sub(entry.started) >= l.window`
abbrev pub expired : ℕ → ℕ → RateEntry → Bool
expired window now e = leb_ℤ (pos window) (sub_ℕ now e.started)

-- The loop that deletes the expired entries.
abbrev pub evict : RateLimiter → ℕ → Map RateEntry
evict l now = retain (λ _ e. not (expired l.window now e)) l.entries

-- The part of `allow` that has looked the key up.
unfoldable pub decide_entry :
    RateLimiter → Map RateEntry → Bytes → ℕ → RateEntry → RateLimiter × Bool × ℤ
decide_entry l entries key now e =
    if e.started == 0 || expired l.window now e
    then (record l { entries = put entries key (record { started = now; count = 1 }) }, true, pos 0)
    else if leb l.limit e.count
    then (record l { entries = entries }, false, pos l.window -ℤ sub_ℕ now e.started)
    else (record l { entries = put entries key (record e { count = e.count + 1 }) }, true, pos 0)

unfoldable pub allow : RateLimiter → Bytes → ℕ → RateLimiter × Bool × ℤ
unfolding decide_entry
allow l key now = decide_entry l (evict l now) key now (value_or no_entry (get (evict l now) key))
