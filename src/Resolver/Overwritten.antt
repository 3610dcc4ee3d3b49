-- ===== src/Resolver/Overwritten.antt =====
-- What gethostbyname.c prints for two hosts.
use unix_linux_prog_in_c_src.Base.{ℕ, ◌≡◌, refl, false, Option, some, List, [], ◌∷◌, ◌++◌, strcmp}
use unix_linux_prog_in_c_src.Resolver.{Hostent, crashed, done, print_hp, dash_s, main}

-- For two names that are not the same and that both resolve, the first of which is not "-s": with "-s",
-- the program prints what it has found of the first, then of the second; without it, what it has found
-- of the second for both of them, so that no address of the first is printed.
pub overwritten :
    (resolve : List ℕ → Option Hostent) (host1 host2 : List ℕ) (h1 h2 : Hostent)
    → resolve host1 ≡ some h1
    → resolve host2 ≡ some h2
    → strcmp host1 host2 ≡ false
    → strcmp host1 dash_s ≡ false
    → (main resolve (dash_s ∷ host1 ∷ host2 ∷ [])
        ≡ record { lines = print_hp 1 h1 ++ print_hp 2 h2; ending = done })
      × (main resolve (host1 ∷ host2 ∷ [])
          ≡ record { lines = print_hp 1 h2 ++ print_hp 2 h2; ending = done })
unfolding main
overwritten resolve host1 host2 h1 h2 e1 e2 differ plain =
    (rw (differ, e1, e2) refl, rw (plain, differ, e1, e2) refl)

-- Whatever names resolve to, with one argument behind "-s" there is no second name to compare with.
pub dash_s-crashed :
    (resolve : List ℕ → Option Hostent) (host1 : List ℕ)
    → (main resolve (dash_s ∷ host1 ∷ [])).ending ≡ crashed
unfolding main
dash_s-crashed resolve host1 = refl
