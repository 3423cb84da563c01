-- ===== src/Common/Text.antt =====
-- Python's `str`: a list of code points. The methods that the program calls on it, but for those
-- that read the tables of the Unicode database (`lower`, `isspace`, `isdigit`), which are given.
use Prim.Native.Char.{code}
use Prim.Native.String.{String}
use native.Mathlib.Decide.{ℕ_discrete}
use sentinel_gpt.Common.{
  ℕ, ◌≤◌, ◌≡◌, refl, Bool, true, false, ◌&&◌, List, [], ◌∷◌, ◌++◌, arith, ◌==◌, Eq, nat_eq,
  if◌then◌else◌, length, leb,
}

abbrev pub Text : Type 0
Text = List ℕ

-- A literal of the source.
abbrev pub codes : String → Text
codes String.[] = []
codes (String.◌∷◌ c s) = code c ∷ codes s

instance unfoldable pub text_eq : Eq Text
unfolding ℕ_discrete
text_eq = record { dec = hlevel ℕ_discrete }

-- The tables of the Unicode database that the interpreter carries.
pub record Unicode : Type 0 where
  pub lower : Text → Text
  pub upper : Text → Text
  pub is_space : ℕ → Bool
  pub is_digit : ℕ → Bool

-- `s.startswith(p)`
unfoldable pub starts_with : Text → Text → Bool
starts_with s [] = true
starts_with [] (p ∷ ps) = false
starts_with (c ∷ s) (p ∷ ps) = c == p && starts_with s ps

-- `s.endswith(p)`
unfoldable pub ends_with : Text → Text → Bool
unfolding starts_with
ends_with [] p = p == []
ends_with (c ∷ s) p = let rest = ends_with s p in if (c ∷ s) == p then true else rest

-- `p in s`
unfoldable pub has_infix : Text → Text → Bool
unfolding starts_with
has_infix [] p = p == []
has_infix (c ∷ s) p = let rest = has_infix s p in if starts_with (c ∷ s) p then true else rest

-- The prefix and the suffix of the characters that `drop_it` accepts go.
unfoldable pub lstrip : (ℕ → Bool) → Text → Text
lstrip drop_it [] = []
lstrip drop_it (c ∷ s) = let rest = lstrip drop_it s in if drop_it c then rest else c ∷ s

unfoldable pub rstrip : (ℕ → Bool) → Text → Text
rstrip drop_it [] = []
rstrip drop_it (c ∷ s) =
    let rest = rstrip drop_it s in if drop_it c && rest == [] then [] else c ∷ rest

unfoldable pub strip : (ℕ → Bool) → Text → Text
unfolding lstrip rstrip
strip drop_it s = rstrip drop_it (lstrip drop_it s)

abbrev add_to_head : ℕ → List Text → List Text
add_to_head c [] = (c ∷ []) ∷ []
add_to_head c (p ∷ ps) = (c ∷ p) ∷ ps

-- `s.split(sep)` for a separator of one character
unfoldable pub split : ℕ → Text → List Text
split sep [] = [] ∷ []
split sep (c ∷ s) = let rest = split sep s in if c == sep then [] ∷ rest else add_to_head c rest

-- `sep.join(parts)`
unfoldable pub join : Text → List Text → Text
join sep [] = []
join sep (p ∷ []) = p
join sep (p ∷ q ∷ ps) = p ++ (sep ++ join sep (q ∷ ps))

-- `s < t` on strings, code point by code point
unfoldable pub text_leb : Text → Text → Bool
text_leb [] t = true
text_leb (c ∷ s) [] = false
text_leb (c ∷ s) (d ∷ t) = if c == d then text_leb s t else leb c d

pub starts_with_self : (s t : Text) → starts_with (s ++ t) s ≡ true
unfolding starts_with
starts_with_self [] t = refl
starts_with_self (c ∷ s) t = ground (arith, starts_with_self s t)

pub length-rstrip : (drop_it : ℕ → Bool) (s : Text) → length (rstrip drop_it s) ≤ length s
unfolding rstrip
length-rstrip drop_it [] = omega arith
length-rstrip drop_it (c ∷ s) = ground (arith, length-rstrip drop_it s)

split_example : split b'.' (codes "a.b") ≡ codes "a" ∷ codes "b" ∷ []
unfolding split nat_eq
split_example = refl

ends_with_example : ends_with (codes "x.lan") (codes ".lan") ≡ true
unfolding ends_with text_eq
ends_with_example = refl
