-- ===== src/Getopt/Tests.antt =====
-- Runs of getopt.c and getopt_long.c.
use unix_linux_prog_in_c_src.Base.{◌≡◌, refl, true, false, none, some, [], ◌∷◌}
use unix_linux_prog_in_c_src.Getopt.{
  Text, opt_c, missing, first_param, missing_value, usage_line, done_reading, no_filenames, main,
  read_options, fluoride, daggerset, other, open_failed, bad_usage, main_long, read_long_options,
}

abbrev foo : Text
foo = 102 ∷ 111 ∷ 111 ∷ []

abbrev bar : Text
bar = 98 ∷ 97 ∷ 114 ∷ []

getopt_result :
    ((main none [] []).status ≡ 1)
    × ((main (some foo) (opt_c bar ∷ missing 99 ∷ []) []).lines
        ≡ first_param foo ∷ missing_value 99 ∷ usage_line ∷ [])
    × ((main (some foo) [] []).lines ≡ first_param foo ∷ done_reading ∷ no_filenames ∷ [])
unfolding main read_options
getopt_result = (refl, refl, refl)

getopt_long_result :
    ((main_long (fluoride true ∷ fluoride false ∷ [])).ending ≡ open_failed)
    × ((main_long (daggerset ∷ other ∷ [])).ending ≡ bad_usage)
unfolding main_long read_long_options
getopt_long_result = (refl, refl)
