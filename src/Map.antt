-- ===== src/Map.antt =====
-- Go's `map[string]V`: an association list under `string` keys, used through `get`, `put`,
-- `delete`, `size` and `retain` (a `range` loop that deletes the entries which fail a test).
-- A Go map has one value for a key; `Distinct` says so of the list.
pub mod Laws
use my_ngrok.Base.{
  ℕ, suc, Bool, List, [], ◌∷◌, Option, none, some, Bytes, bytes_eq, if◌then◌else◌, ◌≡◌,
}

abbrev pub Map {ℓ} : Type ℓ → Type ℓ
Map V = List (Bytes × V)

module _ {ℓ} {V : Type ℓ} where
  -- `value, ok := m[key]`
  unfoldable pub get : Map V → Bytes → Option V
  get [] k = none
  get ((j, v) ∷ m) k = if bytes_eq j k then some v else get m k

  -- `delete(m, key)`
  unfoldable pub delete : Map V → Bytes → Map V
  delete [] k = []
  delete ((j, v) ∷ m) k = if bytes_eq j k then delete m k else (j, v) ∷ delete m k

  -- `m[key] = value`
  unfoldable pub put : Map V → Bytes → V → Map V
  unfolding delete
  put m k v = (k, v) ∷ delete m k

  -- `len(m)`
  unfoldable pub size : Map V → ℕ
  size [] = 0
  size (e ∷ m) = suc (size m)

  -- `for key, value := range m { if !keep { delete(m, key) } }`
  unfoldable pub retain : (Bytes → V → Bool) → Map V → Map V
  retain keep [] = []
  retain keep ((k, v) ∷ m) = if keep k v then (k, v) ∷ retain keep m else retain keep m

  abbrev pub Distinct : Map V → Type ℓ
  Distinct [] = Unit
  Distinct ((k, v) ∷ m) = (get m k ≡ none) × Distinct m

  -- `m[key]` with the zero value for a missing key.
  abbrev pub value_or : V → Option V → V
  value_or d none = d
  value_or d (some v) = v

  -- How many entries a lookup has found.
  abbrev pub present : Option V → ℕ
  present none = 0
  present (some v) = 1

  -- What `retain` leaves of a looked-up entry.
  abbrev pub kept : (Bytes → V → Bool) → Bytes → Option V → Option V
  kept keep k none = none
  kept keep k (some v) = if keep k v then some v else none
