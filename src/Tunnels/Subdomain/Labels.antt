-- ===== src/Tunnels/Subdomain/Labels.antt =====
-- What labels come out.
use my_ngrok.Base.{
  ℕ, zero, suc, ◌%◌, ◌≤◌, ◌<◌, ◌≡◌, refl, Bool, true, List, [], ◌∷◌, Option, none, some, Bytes,
  length, get_or, All, ltb, leb, ◌&&◌, ◌||◌, if◌then◌else◌, if_cases, Bool-cases, inl, inr,
  length-take, All-take, take, ◌==◌, arith,
}
use my_ngrok.Tunnels.Subdomain.{
  alphabet, limit, label, prepend, generate_from, generate_subdomain, subdomain_length,
}

-- A lower-case letter or a digit.
abbrev pub is_letter : ℕ → Bool
is_letter b = (leb 97 b && leb b 122) || (leb 48 b && leb b 57)

abbrev pub IsLabel : Bytes → Type 0
IsLabel bs = (length bs ≡ subdomain_length) × All (λ b. is_letter b ≡ true) bs

abbrev all_letters : Bytes → Bool
all_letters [] = true
all_letters (b ∷ bs) = is_letter b && all_letters bs

letter_at :
    (bs : Bytes) (i : ℕ) → all_letters bs ≡ true → i < length bs → is_letter (get_or bs i 0) ≡ true
letter_at [] i h lt = absurd (omega arith)
letter_at (b ∷ bs) zero h lt = ground arith
letter_at (b ∷ bs) (suc i) h lt = letter_at bs i (ground arith) (omega arith)

letter_lem : (b : ℕ) → is_letter (get_or alphabet (b % length alphabet) 0) ≡ true
letter_lem b = letter_at alphabet (b % length alphabet) refl (omega arith)

-- The letters of the bytes that are not passed over, up to the first failure.
abbrev pub letters : List (Option ℕ) → Bytes
letters [] = []
letters (none ∷ source) = []
letters (some b ∷ source) =
    let rest = letters source in
    if ltb b limit then get_or alphabet (b % length alphabet) 0 ∷ rest else rest

letters-All : (source : List (Option ℕ)) → All (λ b. is_letter b ≡ true) (letters source)
letters-All [] = tt
letters-All (none ∷ source) = tt
letters-All (some b ∷ source) =
    if_cases (All (λ b. is_letter b ≡ true)) (ltb b limit) _ _
      (λ keep. (letter_lem b, letters-All source)) (λ skip. letters-All source)

generate_from-take :
    (n : ℕ) (source : List (Option ℕ))
    → n ≤ length (letters source)
    → generate_from n source ≡ label (take n (letters source))
unfolding generate_from prepend
generate_from-take zero source h = ground arith
generate_from-take (suc n) [] h = absurd (omega arith)
generate_from-take (suc n) (none ∷ source) h = absurd (omega arith)
generate_from-take (suc n) (some b ∷ source) h = elim (Bool-cases (ltb b limit)) [
  | inl keep ↦ rw keep (rw (generate_from-take n source (ground arith)) refl)
  | inr skip ↦ rw skip (generate_from-take (suc n) source (ground arith))
]

-- A source that yields ten bytes below the limit before it fails gives a subdomain: the letters of
-- the first ten, which are ten lower-case letters and digits.
pub generate_subdomain-IsLabel :
    (source : List (Option ℕ))
    → subdomain_length ≤ length (letters source)
    → (generate_subdomain source ≡ label (take subdomain_length (letters source)))
      × IsLabel (take subdomain_length (letters source))
unfolding generate_subdomain
generate_subdomain-IsLabel source h = (
  generate_from-take subdomain_length source h,
  (
    length-take subdomain_length (letters source) h,
    All-take (λ b. is_letter b ≡ true) subdomain_length (letters source) (letters-All source),
  ),
)

abbrev choices : ℕ → ℕ → ℕ
choices zero letter = 0
choices (suc b) letter =
    let rest = choices b letter in
    if ltb b limit && get_or alphabet (b % length alphabet) 0 == letter then suc rest else rest

-- No letter is more likely than another: of the 256 bytes, seven give each letter of the alphabet.
pub choices_lem : All (λ l. choices 256 l ≡ 7) alphabet
choices_lem = ground arith
