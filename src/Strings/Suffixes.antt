-- ===== src/Strings/Suffixes.antt =====
-- Suffixes, by way of the bytes in the opposite order.
use my_ngrok.Base.{◌≡◌, refl, sym, ap, ◌∙◌, true, [], ◌∷◌, ◌++◌, append_assoc, append-nil, Bytes}
use my_ngrok.Strings.{has_prefix, drop_prefix, trim_prefix, reversed, has_suffix, trim_suffix}
use my_ngrok.Strings.Laws.{has_prefix-append, drop_prefix-append, has_prefix_lem}

reversed-append : (a b done : Bytes) → reversed (a ++ b) done ≡ reversed b (reversed a done)
unfolding reversed
reversed-append [] b done = refl
reversed-append (x ∷ a) b done = reversed-append a b (x ∷ done)

reversed_onto : (a done : Bytes) → reversed a done ≡ reversed a [] ++ done
unfolding reversed
reversed_onto [] done = refl
reversed_onto (x ∷ a) done =
    reversed_onto a (x ∷ done)
    ∙ sym (append_assoc (reversed a []) (x ∷ []) done)
    ∙ ap (λ r. r ++ done) (sym (reversed_onto a (x ∷ [])))

reversed-reversed :
    (a done rest : Bytes) → reversed (reversed a done) rest ≡ reversed done (a ++ rest)
unfolding reversed
reversed-reversed [] done rest = refl
reversed-reversed (x ∷ a) done rest = reversed-reversed a (x ∷ done) rest

twice : (a : Bytes) → reversed (reversed a []) [] ≡ a
unfolding reversed
twice a = reversed-reversed a [] [] ∙ append-nil a

reversed_parts : (p s : Bytes) → reversed (p ++ s) [] ≡ reversed s [] ++ reversed p []
reversed_parts p s = reversed-append p s [] ∙ reversed_onto s (reversed p [])

pub has_suffix-append : (p s : Bytes) → has_suffix (p ++ s) s ≡ true
unfolding has_suffix
has_suffix-append p s =
    ap (λ r. has_prefix r (reversed s [])) (reversed_parts p s)
    ∙ has_prefix-append (reversed s []) (reversed p [])

trim_prefix-append : (p rest : Bytes) → trim_prefix (p ++ rest) p ≡ rest
unfolding trim_prefix
trim_prefix-append p rest = rw (has_prefix-append p rest) (drop_prefix-append p rest)

pub trim_suffix-append : (p s : Bytes) → trim_suffix (p ++ s) s ≡ p
unfolding trim_suffix
trim_suffix-append p s =
    ap (λ r. reversed (trim_prefix r (reversed s [])) []) (reversed_parts p s)
    ∙ ap (λ r. reversed r []) (trim_prefix-append (reversed s []) (reversed p []))
    ∙ twice p

-- A text with a suffix is what is left of it, and the suffix.
pub has_suffix_lem : (bs s : Bytes) → has_suffix bs s ≡ true → bs ≡ trim_suffix bs s ++ s
unfolding has_suffix trim_suffix trim_prefix
has_suffix_lem bs s h =
    let left = drop_prefix (reversed bs []) (reversed s []) in
    sym (twice bs)
    ∙ ap (λ r. reversed r []) (has_prefix_lem (reversed bs []) (reversed s []) h)
    ∙ reversed_parts_back (reversed s []) left
    ∙ ap (◌++◌ (reversed left [])) (twice s)
    ∙ rw h refl
  where
    reversed_parts_back : (a b : Bytes) → reversed (a ++ b) [] ≡ reversed b [] ++ reversed a []
    reversed_parts_back a b = reversed_parts a b
