-- ===== src/RateLimiter/Budget.antt =====
-- How many calls a key gets through.
use my_ngrok.Base.{
  ℕ, ◌+◌, ◌-◌, ◌*◌, ◌≤◌, ◌<◌, ◌≡◌, true, false, ◌&&◌, List, [], ◌∷◌, Option, none, some, Bytes,
  bytes_eq, bytes_eq_iff, Option-cases, Bool-cases, inl, inr, leb, if◌then◌else◌, arith, All,
}
use native.Mathlib.Nat.{le_trans}
use my_ngrok.Map.{get}
use my_ngrok.RateLimiter.{RateEntry, RateLimiter, allow}
use my_ngrok.RateLimiter.Windows.{live, verdict, counted, Inv, allow_lem, allow_limits, allow-Inv}

-- The calls of one key that a history admits. A call is a key and a time.
unfoldable pub admitted : RateLimiter → Bytes → List (Bytes × ℕ) → ℕ
admitted l k [] = 0
admitted l k ((key, now) ∷ calls) =
    (if bytes_eq key k && (allow l key now).1 then 1 else 0) + admitted (allow l key now).0 k calls

-- Every call lies in the stretch of time from `a` that is shorter than the window.
abbrev pub Within : ℕ → ℕ → List (Bytes × ℕ) → Type 0
Within a window = All (λ call. (0 < call.1) × (a ≤ call.1) × (call.1 < a + window))

-- How many more calls a key may get through in such a stretch: what its window has left, and one
-- fresh window if its window began before the stretch.
abbrev room : ℕ → ℕ → Option RateEntry → ℕ
room limit a none = limit
room limit a (some e) = limit - e.count + (if leb a e.started then 0 else limit)

step_other :
    (l : RateLimiter) (k : Bytes) (a now : ℕ)
    → now < a + l.window
    → room l.limit a (live l k now) ≤ room l.limit a (get l.entries k)
unfolding live
step_other l k a now h = elim (Option-cases (get l.entries k)) [
  | inl gone ↦ rw gone (omega arith)
  | inr (e, there) ↦ rw there (ground arith)
]

step_self :
    (l : RateLimiter) (k : Bytes) (a now : ℕ)
    → 0 < l.limit
    → a ≤ now
    → now < a + l.window
    → (if (verdict l now (live l k now)).0 then 1 else 0)
        + room l.limit a (some (counted l now (live l k now)))
      ≤ room l.limit a (get l.entries k)
unfolding live verdict counted
step_self l k a now pos_limit lo hi = elim (Option-cases (get l.entries k)) [
  | inl gone ↦ rw gone (ground arith)
  | inr (e, there) ↦ rw there (ground arith)
]

room-le : (limit a : ℕ) (o : Option RateEntry) → room limit a o ≤ 2 * limit
room-le limit a none = omega arith
room-le limit a (some e) = ground arith

own_call :
    (l : RateLimiter) (key k : Bytes) (a now : ℕ)
    → Inv l
    → 0 < l.limit
    → a ≤ now
    → now < a + l.window
    → bytes_eq key k ≡ true
    → (rest : ℕ) → rest ≤ room l.limit a (get (allow l key now).0.entries k)
    → (if (allow l key now).1 then 1 else 0) + rest ≤ room l.limit a (get l.entries k)
own_call l key k a now v p lo hi hit rest h =
    let same = (bytes_eq_iff key k).0 hit in
    let (answer, _, after) = allow_lem l key now k v in
    let h' : rest ≤ room l.limit a (some (counted l now (live l key now))) = rw (after, hit) at h in
    let step = step_self l k a now p lo hi in
    rw answer (rw same (omega (arith, rw same at h', step)))

other_call :
    (l : RateLimiter) (key k : Bytes) (a now : ℕ)
    → Inv l
    → now < a + l.window
    → bytes_eq key k ≡ false
    → (rest : ℕ) → rest ≤ room l.limit a (get (allow l key now).0.entries k)
    → 0 + rest ≤ room l.limit a (get l.entries k)
other_call l key k a now v hi miss rest h =
    let (_, _, after) = allow_lem l key now k v in
    let h' : rest ≤ room l.limit a (live l k now) = rw (after, miss) at h in
    omega (arith, step_other l k a now hi)

admitted-room :
    (calls : List (Bytes × ℕ)) (l : RateLimiter) (k : Bytes) (a : ℕ)
    → Inv l
    → 0 < l.limit
    → Within a l.window calls
    → admitted l k calls ≤ room l.limit a (get l.entries k)
unfolding admitted
admitted-room [] l k a v p w = omega arith
admitted-room ((key, now) ∷ calls) l k a v p (t, w) =
    let (limit, window) = allow_limits l key now in
    let rest =
      admitted-room calls (allow l key now).0 k a (allow-Inv l key now t.0 v) (rw limit p)
        (rw window w) in
    let rest' : admitted (allow l key now).0 k calls
        ≤ room l.limit a (get (allow l key now).0.entries k) =
      rw limit at rest in
    elim (Bool-cases (bytes_eq key k)) [
      | inl hit ↦ rw hit (own_call l key k a now v p t.1 t.2 hit _ rest')
      | inr miss ↦ rw miss (other_call l key k a now v t.2 miss _ rest')
    ]

-- However fast the calls come, and whatever calls come for other keys: in a stretch of time that
-- is shorter than the window, a limiter admits at most twice its limit for a key, and at most its
-- limit if the key has no entry yet.
pub admitted-le :
    (l : RateLimiter) (k : Bytes) (a : ℕ) (calls : List (Bytes × ℕ))
    → Inv l
    → 0 < l.limit
    → Within a l.window calls
    → (admitted l k calls ≤ 2 * l.limit) × (get l.entries k ≡ none → admitted l k calls ≤ l.limit)
admitted-le l k a calls v p w =
    let bound = admitted-room calls l k a v p w in
    (le_trans bound (room-le l.limit a (get l.entries k)), λ none_yet. rw none_yet at bound)
