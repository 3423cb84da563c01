-- ===== src/Targets/Urls.antt =====
-- What the program reads of `urllib.parse`: the parts of a split URL, and how parts are put
-- together. The splitter itself is given: a function from texts to parts, which may raise.
use sentinel_gpt.Common.{
  ◌≡◌, refl, ℕ, ◌+◌, ◌/◌, ◌%◌, Option, none, some, [], ◌∷◌, ◌++◌, ◌==◌, nat_eq, suc, zero,
  if◌then◌else◌, ltb,
}
use sentinel_gpt.Common.Text.{Text, codes, text_eq, starts_with}
use sentinel_gpt.Errors.{Result}

-- `SplitResult`. Reading `port` raises `ValueError` on a port that is not one.
pub record SplitResult : Type 0 where
  pub scheme : Text
  pub netloc : Text
  pub path : Text
  pub query : Text
  pub username : Option Text
  pub password : Option Text
  pub hostname : Option Text
  pub port : Result (Option ℕ)

pub record UrlLib : Type 0 where
  pub urlsplit : Text → Result SplitResult
  pub urljoin : Text → Text → Text

-- `a or b` on texts
abbrev pub or_text : Text → Text → Text
or_text [] b = b
or_text (c ∷ a) b = c ∷ a

abbrev pub text_or_empty : Option Text → Text
text_or_empty none = []
text_or_empty (some s) = s

-- `str(n)`, with as much fuel as there can be digits
decimal : ℕ → ℕ → Text → Text
decimal zero n acc = acc
decimal (suc fuel) n acc =
    let acc' = (b'0' + n % 10) ∷ acc in
    let more = decimal fuel (n / 10) acc' in if ltb n 10 then acc' else more

unfoldable pub show : ℕ → Text
unfolding decimal
show n = decimal (suc n) n []

-- `urlunsplit((scheme, netloc, path, query, ""))` for a netloc that is not empty
unfoldable pub urlunsplit : Text → Text → Text → Text → Text
unfolding starts_with
urlunsplit scheme netloc path query =
    let rooted =
      if path == [] then [] else if starts_with path (codes "/") then path else codes "/" ++ path in
    let url = scheme ++ (codes "://" ++ (netloc ++ rooted)) in
    if query == [] then url else url ++ (codes "?" ++ query)

show_example : show 8080 ≡ codes "8080"
unfolding show
show_example = refl
