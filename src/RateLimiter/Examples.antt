-- ===== src/RateLimiter/Examples.antt =====
-- A limiter of one call a minute.
use my_ngrok.Base.{
  ℕ, ◌*◌, ◌≤◌, ◌≡◌, ◌≢◌, refl, false, List, [], ◌∷◌, none, some, Bytes, bytes_eq, pos, ◌≤ℤ◌, sub_ℕ,
  leb_ℤ, arith,
}
use my_ngrok.Map.{get, put, retain}
use my_ngrok.RateLimiter.{RateEntry, RateLimiter, allow, decide_entry, minute}
use my_ngrok.RateLimiter.Windows.{Inv, allow_retry_after}
use my_ngrok.RateLimiter.Budget.{admitted, admitted-le}

-- The key 1 has spent its budget.
abbrev limiter : RateLimiter
limiter = record {
  limit = 1;
  window = minute;
  entries = (1 ∷ [], record { started = 5; count = 1 }) ∷ [];
}

limiter-Inv : Inv limiter
unfolding get put
limiter-Inv = record { distinct = (refl, tt); begun = λ k e h. ground arith }

abbrev other : Bytes
other = 2 ∷ []

abbrev spent : Bytes
spent = 1 ∷ []

other_key : other ≢ spent
other_key e = cc

started_before : (e : RateEntry) → get limiter.entries (1 ∷ []) ≡ some e → e.started ≤ 10
unfolding get
started_before e h = ground arith

refused : (allow limiter (1 ∷ []) 10).1 ≡ false
unfolding allow decide_entry get put retain bytes_eq
refused = refl

allow_retry_after_example :
    let r = allow limiter (1 ∷ []) 10 in
    (pos 1 ≤ℤ r.2)
    × (r.2 ≤ℤ pos minute)
    × ((allow r.0 (1 ∷ []) 60000000005).1 ≡ leb_ℤ r.2 (sub_ℕ 60000000005 10))
allow_retry_after_example =
    allow_retry_after limiter (1 ∷ []) 10 60000000005 limiter-Inv (omega arith) refused
      started_before (omega arith)

abbrev calls : List (Bytes × ℕ)
calls = (1 ∷ [], 10) ∷ (2 ∷ [], 11) ∷ (2 ∷ [], 12) ∷ []

admitted-le_example :
    (admitted limiter (2 ∷ []) calls ≤ 2 * 1)
    × (get limiter.entries (2 ∷ []) ≡ none → admitted limiter (2 ∷ []) calls ≤ 1)
admitted-le_example = admitted-le limiter (2 ∷ []) 6 calls limiter-Inv (omega arith) (omega arith)
