-- ===== src/Strings.antt =====
-- What the program uses of Go's package strings, on lists of bytes. Case and white space are those of
-- ASCII.
pub mod Laws
pub mod Suffixes
use my_ngrok.Base.{
  ℕ, zero, suc, ◌+◌, Bool, true, false, not, ◌&&◌, ◌||◌, List, [], ◌∷◌, ◌++◌, Bytes, leb, ◌==◌,
  if◌then◌else◌,
}

-- strings.Split with a separator of one byte: the parts, of which there is one more than separators.
unfoldable pub split_on : ℕ → Bytes → Bytes × List Bytes
split_on sep [] = ([], [])
split_on sep (b ∷ bs) =
    let (first, rest) = split_on sep bs in
    if b == sep then ([], first ∷ rest) else (b ∷ first, rest)

unfoldable pub split : Bytes → ℕ → List Bytes
unfolding split_on
split bs sep = let (first, rest) = split_on sep bs in first ∷ rest

-- strings.HasPrefix and strings.TrimPrefix
unfoldable pub has_prefix : Bytes → Bytes → Bool
has_prefix bs [] = true
has_prefix [] (p ∷ ps) = false
has_prefix (b ∷ bs) (p ∷ ps) = b == p && has_prefix bs ps

unfoldable pub drop_prefix : Bytes → Bytes → Bytes
drop_prefix bs [] = bs
drop_prefix [] (p ∷ ps) = []
drop_prefix (b ∷ bs) (p ∷ ps) = drop_prefix bs ps

unfoldable pub trim_prefix : Bytes → Bytes → Bytes
trim_prefix bs prefix = if has_prefix bs prefix then drop_prefix bs prefix else bs

-- strings.Count of one byte, and strings.Contains
unfoldable pub count_byte : Bytes → ℕ → ℕ
count_byte [] c = 0
count_byte (b ∷ bs) c = let rest = count_byte bs c in if b == c then suc rest else rest

unfoldable pub contains_byte : Bytes → ℕ → Bool
contains_byte [] c = false
contains_byte (b ∷ bs) c = b == c || contains_byte bs c

-- The bytes in the opposite order.
unfoldable pub reversed : Bytes → Bytes → Bytes
reversed [] done = done
reversed (b ∷ bs) done = reversed bs (b ∷ done)

unfoldable pub has_suffix : Bytes → Bytes → Bool
unfolding has_prefix reversed
has_suffix bs suffix = has_prefix (reversed bs []) (reversed suffix [])

unfoldable pub trim_suffix : Bytes → Bytes → Bytes
unfolding trim_prefix reversed
trim_suffix bs suffix = reversed (trim_prefix (reversed bs []) (reversed suffix [])) []

-- unicode.IsSpace, below 128
abbrev pub is_space : ℕ → Bool
is_space b = b == 32 || (leb 9 b && leb b 13)

unfoldable pub trim_left : Bytes → Bytes
trim_left [] = []
trim_left (b ∷ bs) = let rest = trim_left bs in if is_space b then rest else b ∷ bs

-- strings.TrimSpace
unfoldable pub trim_space : Bytes → Bytes
unfolding trim_left reversed
trim_space bs = reversed (trim_left (reversed (trim_left bs) [])) []

-- strings.ToLower
unfoldable pub to_lower : Bytes → Bytes
to_lower [] = []
to_lower (b ∷ bs) = (if leb 65 b && leb b 90 then b + 32 else b) ∷ to_lower bs
