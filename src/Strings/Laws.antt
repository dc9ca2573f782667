-- ===== src/Strings/Laws.antt =====
-- Splitting, prefixes and suffixes.
use my_ngrok.Base.{
  ℕ, ◌≡◌, ◌≢◌, ◌∙◌, refl, ap, true, List, [], ◌∷◌, ◌++◌, Bytes, ◌==◌, arith, Bool-cases, inl, inr,
}
use my_ngrok.Strings.{split_on, split, has_prefix, drop_prefix}

-- The byte does not occur.
abbrev pub Lacks : ℕ → Bytes → Type 0
Lacks c [] = Unit {0}
Lacks c (b ∷ bs) = (b ≢ c) × Lacks c bs

split_on-append :
    (p rest : Bytes) (sep : ℕ)
    → Lacks sep p
    → split_on sep (p ++ sep ∷ rest) ≡ (p, (split_on sep rest).0 ∷ (split_on sep rest).1)
unfolding split_on
split_on-append [] rest sep h = ground arith
split_on-append (b ∷ p) rest sep h = ground (arith, split_on-append p rest sep h.1)

split_on_whole : (p : Bytes) (sep : ℕ) → Lacks sep p → split_on sep p ≡ (p, [])
unfolding split_on
split_on_whole [] sep h = refl
split_on_whole (b ∷ p) sep h = ground (arith, split_on_whole p sep h.1)

-- A part that ends at a separator is the first of the split.
pub split-append :
    (p rest : Bytes) (sep : ℕ) → Lacks sep p → split (p ++ sep ∷ rest) sep ≡ p ∷ split rest sep
unfolding split
split-append p rest sep h = rw (split_on-append p rest sep h) refl

pub split_whole : (p : Bytes) (sep : ℕ) → Lacks sep p → split p sep ≡ p ∷ []
unfolding split
split_whole p sep h = rw (split_on_whole p sep h) refl

-- The parts, joined by the separator.
abbrev pub join : Bytes → List Bytes → ℕ → Bytes
join first [] sep = first
join first (p ∷ ps) sep = first ++ sep ∷ join p ps sep

join-split_on : (bs : Bytes) (sep : ℕ) → join (split_on sep bs).0 (split_on sep bs).1 sep ≡ bs
unfolding split_on
join-split_on [] sep = refl
join-split_on (b ∷ bs) sep = elim (Bool-cases (b == sep)) [
  | inl hit ↦ rw hit (ground (arith, join-split_on bs sep))
  | inr miss ↦
      rw miss (
        join_more b (split_on sep bs).0 (split_on sep bs).1 sep ∙ ap (◌∷◌ b) (join-split_on bs sep))
]
  where
    join_more :
        (b : ℕ) (first : Bytes) (ps : List Bytes) (sep : ℕ)
        → join (b ∷ first) ps sep ≡ b ∷ join first ps sep
    join_more b first [] sep = refl
    join_more b first (p ∷ ps) sep = refl

-- A text that splits in three is made of the three parts.
pub split-three :
    (bs a b c : Bytes) (sep : ℕ) → split bs sep ≡ a ∷ b ∷ c ∷ [] → bs ≡ a ++ sep ∷ (b ++ sep ∷ c)
unfolding split
split-three bs a b c sep h = ground (arith, join-split_on bs sep)

pub has_prefix-append : (p rest : Bytes) → has_prefix (p ++ rest) p ≡ true
unfolding has_prefix
has_prefix-append [] rest = refl
has_prefix-append (b ∷ p) rest = ground (arith, has_prefix-append p rest)

pub drop_prefix-append : (p rest : Bytes) → drop_prefix (p ++ rest) p ≡ rest
unfolding drop_prefix
drop_prefix-append [] rest = refl
drop_prefix-append (b ∷ p) rest = drop_prefix-append p rest

-- A text with a prefix is the prefix and the rest.
pub has_prefix_lem : (bs p : Bytes) → has_prefix bs p ≡ true → bs ≡ p ++ drop_prefix bs p
unfolding has_prefix drop_prefix
has_prefix_lem bs [] h = refl
has_prefix_lem [] (b ∷ p) h = cc
has_prefix_lem (c ∷ bs) (b ∷ p) h = ground (arith, has_prefix_lem bs p)
