-- ===== src/Tunnels/Subdomain/Examples.antt =====
-- Ten letters from eleven bytes, one of which is passed over.
use my_ngrok.Base.{ℕ, ◌≡◌, List, [], ◌∷◌, Option, some, take, arith}
use my_ngrok.Tunnels.Subdomain.{subdomain_length, label, generate_subdomain}
use my_ngrok.Tunnels.Subdomain.Labels.{letters, IsLabel, generate_subdomain-IsLabel}

abbrev source : List (Option ℕ)
source =
    some 0
    ∷ some 1
    ∷ some 253
    ∷ some 2
    ∷ some 40
    ∷ some 80
    ∷ some 250
    ∷ some 9
    ∷ some 8
    ∷ some 7
    ∷ some 6
    ∷ []

generate_subdomain-IsLabel_example :
    (generate_subdomain source ≡ label (take subdomain_length (letters source)))
    × IsLabel (take subdomain_length (letters source))
generate_subdomain-IsLabel_example = generate_subdomain-IsLabel source (omega arith)
