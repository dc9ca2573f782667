-- ===== src/Map/Laws.antt =====
-- The laws through which the components use a map.
use my_ngrok.Base.{
  suc, ◌+◌, ◌≤◌, Bool, [], ◌∷◌, none, some, Bytes, bytes_eq, bytes_eq_iff, bytes_eq_refl,
  if◌then◌else◌, ◌≡◌, refl, arith,
}
use my_ngrok.Map.{Map, get, put, delete, size, retain, Distinct, present, kept}

module _ {ℓ} {V : Type ℓ} where
  pub get-delete :
      (m : Map V) (k j : Bytes) → get (delete m k) j ≡ (if bytes_eq k j then none else get m j)
  unfolding get delete
  get-delete [] k j = ground arith
  get-delete ((i, v) ∷ m) k j =
      ground (arith, bytes_eq_iff i k, bytes_eq_iff i j, bytes_eq_iff k j, get-delete m k j)

  pub get-put :
      (m : Map V) (k : Bytes) (v : V) (j : Bytes)
      → get (put m k v) j ≡ (if bytes_eq k j then some v else get m j)
  unfolding get put
  get-put m k v j = ground (arith, get-delete m k j)

  pub get-put_self : (m : Map V) (k : Bytes) (v : V) → get (put m k v) k ≡ some v
  get-put_self m k v = rw (get-put m k v k, bytes_eq_refl k)

  pub get-delete_self : (m : Map V) (k : Bytes) → get (delete m k) k ≡ none
  get-delete_self m k = rw (get-delete m k k, bytes_eq_refl k)

  pub delete-Distinct : (m : Map V) (k : Bytes) → Distinct m → Distinct (delete m k)
  unfolding delete
  delete-Distinct [] k d = tt
  delete-Distinct ((i, v) ∷ m) k d =
      ground (arith, delete-Distinct m k d.1, get-delete m k i, bytes_eq_iff i k, bytes_eq_iff k i)

  pub put-Distinct : (m : Map V) (k : Bytes) (v : V) → Distinct m → Distinct (put m k v)
  unfolding put
  put-Distinct m k v d = (get-delete_self m k, delete-Distinct m k d)

  -- Deleting an absent key changes nothing.
  pub delete_absent : (m : Map V) (k : Bytes) → get m k ≡ none → delete m k ≡ m
  unfolding get delete
  delete_absent [] k h = refl
  delete_absent ((i, v) ∷ m) k h = ground (arith, delete_absent m k)

  pub size-delete :
      (m : Map V) (k : Bytes) → Distinct m → size (delete m k) + present (get m k) ≡ size m
  unfolding get delete size
  size-delete [] k d = omega arith
  size-delete ((i, v) ∷ m) k d =
      ground (arith, size-delete m k d.1, bytes_eq_iff i k, delete_absent m k)

  pub size-put :
      (m : Map V) (k : Bytes) (v : V)
      → Distinct m
      → size (put m k v) + present (get m k) ≡ suc (size m)
  unfolding put size
  size-put m k v d = omega (arith, size-delete m k d)

  module _ (keep : Bytes → V → Bool) where
    get-retain_absent : (m : Map V) (j : Bytes) → get m j ≡ none → get (retain keep m) j ≡ none
    unfolding get retain
    get-retain_absent [] j h = refl
    get-retain_absent ((i, v) ∷ m) j h = ground (arith, get-retain_absent m j)

    pub get-retain :
        (m : Map V) (j : Bytes) → Distinct m → get (retain keep m) j ≡ kept keep j (get m j)
    unfolding get retain
    get-retain [] j d = refl
    get-retain ((i, v) ∷ m) j d =
        ground (arith, get-retain m j d.1, get-retain_absent m j, bytes_eq_iff i j)

    pub retain-Distinct : (m : Map V) → Distinct m → Distinct (retain keep m)
    unfolding retain
    retain-Distinct [] d = tt
    retain-Distinct ((i, v) ∷ m) d = ground (arith, retain-Distinct m d.1, get-retain_absent m i)

    pub size-retain-le : (m : Map V) → size (retain keep m) ≤ size m
    unfolding retain size
    size-retain-le [] = omega arith
    size-retain-le ((i, v) ∷ m) = ground (arith, size-retain-le m)
