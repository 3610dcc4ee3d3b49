-- ===== src/Resolver/Tests.antt =====
-- Runs of gethostbyname.c.
use unix_linux_prog_in_c_src.Base.{
  ℕ, ◌==◌, ◌≡◌, refl, Option, none, some, List, [], ◌∷◌, if◌then◌else◌,
}
use unix_linux_prog_in_c_src.Resolver.{
  Hostent, heading, host, usage, same_hosts, unresolved, crashed, dash_s, main,
}
use unix_linux_prog_in_c_src.Resolver.Overwritten.{dash_s-crashed}

abbrev first : Hostent
first = record { h_name = 97 ∷ []; h_addr_list = 11 ∷ 12 ∷ [] }

abbrev second : Hostent
second = record { h_name = 98 ∷ []; h_addr_list = 21 ∷ [] }

-- "a" and "b" resolve.
abbrev lookup : List ℕ → Option Hostent
lookup [] = none
lookup (x ∷ xs) = if x == 97 then some first else if x == 98 then some second else none

gethostbyname_result :
    ((main lookup []).ending ≡ usage)
    × ((main lookup ((97 ∷ []) ∷ (97 ∷ []) ∷ [])).ending ≡ same_hosts)
    × ((main lookup ((97 ∷ []) ∷ (99 ∷ []) ∷ [])).lines ≡ [])
    × ((main lookup (dash_s ∷ (97 ∷ []) ∷ (99 ∷ []) ∷ [])) ≡ record {
      lines = heading 1 ∷ host 11 (97 ∷ []) ∷ host 12 (97 ∷ []) ∷ [];
      ending = unresolved;
    })
    × ((main lookup ((97 ∷ []) ∷ (98 ∷ []) ∷ [])).lines
        ≡ heading 1 ∷ host 21 (98 ∷ []) ∷ heading 2 ∷ host 21 (98 ∷ []) ∷ [])
unfolding main
gethostbyname_result = (refl, refl, refl, refl, refl)

dash_s_result : (main lookup (dash_s ∷ (97 ∷ []) ∷ [])).ending ≡ crashed
dash_s_result = dash_s-crashed lookup (97 ∷ [])
