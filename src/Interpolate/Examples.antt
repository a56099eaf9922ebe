-- ===== src/Interpolate/Examples.antt =====
-- Runs of the parser on concrete texts.
use go_utils.Prelude.{◌≡◌, refl, true, false, [], ◌∷◌, arith, codes}
use go_utils.Prelude.Rounds.{run}
use go_utils.Interpolate.{parse, literal, variable, Parsed}
use go_utils.Interpolate.Print.{print, IsNormal}
use go_utils.Interpolate.Whole.{parse-print}

parse_words :
    parse (codes "a${X-1}b\\$")
    ≡ literal (codes "a")
      ∷ variable (record { name = codes "X"; default = codes "1"; has_default = true })
      ∷ literal (codes "b$")
      ∷ []
unfolding parse run
parse_words = refl

parse_unclosed :
    parse (codes "a${X${Y}")
    ≡ literal (codes "a")
      ∷ variable (record { name = codes "X${Y"; default = []; has_default = false })
      ∷ []
unfolding parse run
parse_unclosed = refl

parse_unclosed2 : parse (codes "a${X-\\") ≡ literal (codes "a${X-\\") ∷ []
unfolding parse run
parse_unclosed2 = refl

abbrev parts_of_url : Parsed
parts_of_url =
    literal (codes "http://")
    ∷ variable (record { name = codes "HOST"; default = codes "a}b"; has_default = true })
    ∷ literal (codes ":80\\$")
    ∷ []

url-IsNormal : IsNormal parts_of_url
url-IsNormal = (λ e. ground (arith, e), (λ e. ground (arith, e), (λ e. ground (arith, e), tt)))

parse-print_example : parse (print b'$' parts_of_url) ≡ parts_of_url
parse-print_example = parse-print parts_of_url url-IsNormal
