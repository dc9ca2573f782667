-- ===== src/RateLimiter/Windows.antt =====
-- One call of the limiter, in terms of the entry that its key has.
use my_ngrok.Base.{
  ℕ, ◌+◌, ◌≤◌, ◌<◌, ◌≡◌, ◌≢◌, ◌∙◌, refl, Bool, true, false, not, Option, none, some, Bytes,
  bytes_eq, bytes_eq_iff, bytes_eq_refl, ap, ◌≤ℤ◌, Option-cases, Bool-cases, inl, inr, ℤ, pos,
  sub_ℕ, ◌-ℤ◌, leb_ℤ, leb, ◌==◌, if◌then◌else◌, arith,
}
use my_ngrok.Map.{Map, get, kept, Distinct}
use my_ngrok.Map.Laws.{get-put, get-retain, put-Distinct, retain-Distinct}
use my_ngrok.RateLimiter.{RateEntry, RateLimiter, no_entry, expired, evict, decide_entry, allow}

-- The entry that counts for a key at a time.
unfoldable pub live : RateLimiter → Bytes → ℕ → Option RateEntry
live l key now = kept (λ _ e. not (expired l.window now e)) key (get l.entries key)

-- What `allow` does with that entry.
unfoldable pub verdict : RateLimiter → ℕ → Option RateEntry → Bool × ℤ
verdict l now none = (true, pos 0)
verdict l now (some e) =
    if leb l.limit e.count then (false, pos l.window -ℤ sub_ℕ now e.started) else (true, pos 0)

-- The key's entry afterwards.
unfoldable pub counted : RateLimiter → ℕ → Option RateEntry → RateEntry
counted l now none = record { started = now; count = 1 }
counted l now (some e) = if leb l.limit e.count then e else record e { count = e.count + 1 }

-- Every entry has a start, and a key has one entry.
pub record Inv (l : RateLimiter) : Type 0 where
  pub distinct : Distinct l.entries
  pub begun : (k : Bytes) (e : RateEntry) → get l.entries k ≡ some e → 0 < e.started

evict-live : (l : RateLimiter) (k : Bytes) (now : ℕ) → Inv l → get (evict l now) k ≡ live l k now
unfolding live
evict-live l k now v =
    get-retain (λ (_ : Bytes) (e : RateEntry). not (expired l.window now e)) l.entries k v.distinct

live_entry :
    (l : RateLimiter) (key : Bytes) (now : ℕ) {e : RateEntry}
    → Inv l
    → live l key now ≡ some e
    → (expired l.window now e ≡ false) × (0 < e.started) × (get l.entries key ≡ some e)
unfolding live
live_entry l key now {e} v h = elim (Option-cases (get l.entries key)) [
  | inl gone ↦ ground arith
  | inr (x, there) ↦ ground (arith, v.begun key x there)
]

module _ (l : RateLimiter) (m : Map RateEntry) (key : Bytes) (now : ℕ) (j : Bytes) where
  decide_new :
      get m key ≡ none
      → let r = decide_entry l m key now no_entry in
        (r.1 ≡ true)
        × (r.2 ≡ pos 0)
        × (get r.0.entries j ≡ (if bytes_eq key j then some (counted l now none) else get m j))
  unfolding decide_entry counted
  decide_new h = ground (arith, get-put m key (record { started = now; count = 1 }) j)

  decide_old :
      (e : RateEntry)
      → get m key ≡ some e
      → expired l.window now e ≡ false
      → 0 < e.started
      → let r = decide_entry l m key now e in
        (r.1 ≡ (verdict l now (some e)).0)
        × (r.2 ≡ (verdict l now (some e)).1)
        × (get r.0.entries j ≡ (if bytes_eq key j then some (counted l now (some e)) else get m j))
  unfolding decide_entry counted verdict
  decide_old e h x p =
      let begun : (e.started == 0) ≡ false = ground arith in
      elim (Bool-cases (leb l.limit e.count)) [
        | inl full ↦ rw full (rw x (rw begun (refl, refl, ground (arith, bytes_eq_iff key j))))
        | inr more ↦
            rw more
              (rw x (rw begun (refl, refl, get-put m key (record e { count = e.count + 1 }) j)))
      ]

decide_limits :
    (l : RateLimiter) (m : Map RateEntry) (key : Bytes) (now : ℕ) (e : RateEntry)
    → let n = (decide_entry l m key now e).0 in (n.limit ≡ l.limit) × (n.window ≡ l.window)
unfolding decide_entry
decide_limits l m key now e = ground arith

-- One call: its answer is the verdict on the entry that counts for the key, that entry becomes the
-- counted one, every other key keeps just the entry that counts for it now, and the limits stay.
pub allow_lem :
    (l : RateLimiter) (key : Bytes) (now : ℕ) (j : Bytes)
    → Inv l
    → let r = allow l key now in
      (r.1 ≡ (verdict l now (live l key now)).0)
      × (r.2 ≡ (verdict l now (live l key now)).1)
      × (get r.0.entries j
          ≡ (if bytes_eq key j then some (counted l now (live l key now)) else live l j now))
unfolding allow
allow_lem l key now j v = elim (Option-cases (live l key now)) [
  | inl gone ↦
      let none_left : get (evict l now) key ≡ none = evict-live l key now v ∙ gone in
      rw (none_left, gone, ← evict-live l j now v)
        (unfold verdict in decide_new l (evict l now) key now j none_left)
  | inr (e, there) ↦
      let left : get (evict l now) key ≡ some e = evict-live l key now v ∙ there in
      let (x, p, _) = live_entry l key now v there in
      rw (left, there, ← evict-live l j now v) (decide_old l (evict l now) key now j e left x p)
]

pub allow_limits :
    (l : RateLimiter) (key : Bytes) (now : ℕ)
    → let n = (allow l key now).0 in (n.limit ≡ l.limit) × (n.window ≡ l.window)
unfolding allow
allow_limits l key now = decide_limits l (evict l now) key now _

decide-Distinct :
    (l : RateLimiter) (m : Map RateEntry) (key : Bytes) (now : ℕ) (e : RateEntry)
    → Distinct m
    → Distinct (decide_entry l m key now e).0.entries
unfolding decide_entry
decide-Distinct l m key now e d = ground (
  arith,
  put-Distinct m key (record { started = now; count = 1 }) d,
  put-Distinct m key (record e { count = e.count + 1 }) d,
)

counted_begun :
    (l : RateLimiter) (key : Bytes) (now : ℕ)
    → 0 < now
    → Inv l
    → 0 < (counted l now (live l key now)).started
unfolding counted
counted_begun l key now begun v = elim (Option-cases (live l key now)) [
  | inl gone ↦ rw gone begun
  | inr (e, there) ↦ rw there (ground (arith, live_entry l key now v there))
]

-- A call keeps the table well formed, `time.Now()` being after the zero time.
pub allow-Inv :
    (l : RateLimiter) (key : Bytes) (now : ℕ) → 0 < now → Inv l → Inv (allow l key now).0
allow-Inv l key now begun v = record {
  distinct =
      unfold allow in
      decide-Distinct l (evict l now) key now _
        (retain-Distinct (λ _ e. not (expired l.window now e)) l.entries v.distinct);
  begun = λ k e h. elim (Bool-cases (bytes_eq key k)) [
    | inl hit ↦ ground (arith, allow_lem l key now k v, counted_begun l key now begun v)
    | inr miss ↦
        let left : live l k now ≡ some e = ground (arith, allow_lem l key now k v) in
        (live_entry l k now v left).1
  ];
}

-- An entry that has expired stays expired.
expired_later :
    (window t now : ℕ) (e : RateEntry)
    → t ≤ now
    → expired window t e ≡ true
    → expired window now e ≡ true
expired_later window t now e h x = ground arith

live_later :
    (l : RateLimiter) (key k : Bytes) (t now : ℕ)
    → Inv l
    → key ≢ k
    → t ≤ now
    → live (allow l key t).0 k now ≡ live l k now
unfolding live
live_later l key k t now v other h = elim (Option-cases (get l.entries k)) [
  | inl gone ↦ ground (arith, allow_lem l key t k v, bytes_eq_iff key k)
  | inr (e, there) ↦ ground (
    arith,
    allow_lem l key t k v,
    allow_limits l key t,
    bytes_eq_iff key k,
    expired_later l.window t now e h,
  )
]

verdict_same :
    (l n : RateLimiter) (now : ℕ) (o : Option RateEntry)
    → n.limit ≡ l.limit
    → n.window ≡ l.window
    → verdict n now o ≡ verdict l now o
unfolding verdict
verdict_same l n now none limit window = refl
verdict_same l n now (some e) limit window = rw (limit, window)

-- Keys do not share a budget: a call for one key changes no later answer for another.
pub allow_other :
    (l : RateLimiter) (key k : Bytes) (t now : ℕ)
    → Inv l
    → 0 < t
    → key ≢ k
    → t ≤ now
    → let n = (allow l key t).0 in
      ((allow n k now).1 ≡ (allow l k now).1) × ((allow n k now).2 ≡ (allow l k now).2)
allow_other l key k t now v begun other h =
    let n = (allow l key t).0 in
    let (a, r, _) = allow_lem n k now k (allow-Inv l key t begun v) in
    let (a', r', _) = allow_lem l k now k v in
    let (limit, window) = allow_limits l key t in
    let same = live_later l key k t now v other h in
    let sound = verdict_same l n now (live l k now) limit window in
    (rw (a, a', same) (ap (λ p. p.0) sound), rw (r, r', same) (ap (λ p. p.1) sound))

refused_entry :
    (l : RateLimiter) (key : Bytes) (now : ℕ)
    → Inv l
    → (allow l key now).1 ≡ false
    → (e : RateEntry) × (live l key now ≡ some e)
      × (l.limit ≤ e.count)
      × ((allow l key now).2 ≡ pos l.window -ℤ sub_ℕ now e.started)
      × (get (allow l key now).0.entries key ≡ some e)
unfolding verdict counted
refused_entry l key now v refused = elim (Option-cases (live l key now)) [
  | inl gone ↦ absurd (ground (arith, allow_lem l key now key v))
  | inr (e, there) ↦ (
    e,
    there,
    ground (arith, allow_lem l key now key v),
    ground (arith, allow_lem l key now key v),
    ground (arith, allow_lem l key now key v, bytes_eq_refl key),
  )
]

full_entry :
    (n : RateLimiter) (key : Bytes) (t : ℕ) (e : RateEntry)
    → get n.entries key ≡ some e
    → n.limit ≤ e.count
    → (verdict n t (live n key t)).0 ≡ expired n.window t e
unfolding verdict live
full_entry n key t e h full = rw h (ground arith)

-- A refused caller is told how long to wait: more than nothing, at most the window, and the next
-- call for the key is admitted exactly if that long has passed. The clock has not gone back behind
-- the start of the key's window.
pub allow_retry_after :
    (l : RateLimiter) (key : Bytes) (now t : ℕ)
    → Inv l
    → 0 < now
    → (allow l key now).1 ≡ false
    → ((e : RateEntry) → get l.entries key ≡ some e → e.started ≤ now)
    → now ≤ t
    → let r = allow l key now in
      (pos 1 ≤ℤ r.2) × (r.2 ≤ℤ pos l.window) × ((allow r.0 key t).1 ≡ leb_ℤ r.2 (sub_ℕ t now))
allow_retry_after l key now t v begun refused clock later =
    let (e, there, full, wait, kept_e) = refused_entry l key now v refused in
    let (x, p, old) = live_entry l key now v there in
    let (again, _, _) = allow_lem (allow l key now).0 key t key (allow-Inv l key now begun v) in
    let (limit, window) = allow_limits l key now in
    let start = clock e old in
    (
      rw wait (ground arith),
      rw wait (ground arith),
      rw (again, wait)
          (full_entry (allow l key now).0 key t e kept_e (rw limit full)
            ∙ rw window (ground arith)),
    )
