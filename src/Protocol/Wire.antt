-- ===== src/Protocol/Wire.antt =====
-- The layout of a frame: the header fields read back from the bytes that hold them.
use my_ngrok.Base.{ℕ, zero, suc, ◌+◌, ◌*◌, ◌/◌, ◌%◌, ◌<◌, ◌≡◌, refl, List, [], ◌∷◌, arith, drop}

drop-nil {ℓ} : {A : Type ℓ} (b : ℕ) → drop {A = A} b [] ≡ []
drop-nil zero = refl
drop-nil (suc b) = refl

pub drop-add {ℓ} : {A : Type ℓ} (a b : ℕ) (xs : List A) → drop (a + b) xs ≡ drop b (drop a xs)
drop-add zero b xs = let e : zero + b ≡ b = omega arith in rw e
drop-add (suc a) b [] = let e : suc a + b ≡ suc (a + b) = omega arith in rw (e, drop-nil b)
drop-add (suc a) b (x ∷ xs) =
    let e : suc a + b ≡ suc (a + b) = omega arith in rw e (drop-add a b xs)

pub uint16_lem : (n : ℕ) → n < 65536 → n % 65536 / 256 % 256 * 256 + n % 65536 % 256 ≡ n
uint16_lem n h = omega arith

pub uint32_lem :
    (n : ℕ)
    → n < 4294967296
    → n / 16777216 % 256 * 16777216 + n / 65536 % 256 * 65536 + n / 256 % 256 * 256 + n % 256 ≡ n
uint32_lem n h = omega arith
