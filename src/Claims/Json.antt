-- ===== src/Claims/Json.antt =====
-- The values that json.loads makes, and what the validator asks of them.
use sentinel_gpt.Common.{ℕ, Bool, ◌==◌, nat_eq, Option, none, some, List, [], ◌∷◌, if◌then◌else◌}
use sentinel_gpt.Common.Text.{Text, text_eq, strip}

mutual
  pub data Json : Type 0 where
    null : Json
    boolean : Bool → Json
    number : Text → Json
    string : Text → Json
    array : Elements → Json
    object : Members → Json

  pub data Elements : Type 0 where
    no_element : Elements
    element : Json → Elements → Elements

  pub data Members : Type 0 where
    no_member : Members
    member : Text → Json → Members → Members

pub elements : Elements → List Json
elements no_element = []
elements (element j js) = j ∷ elements js

-- `d.get(key)` on a dictionary, whose keys differ
unfoldable pub get_member : Text → Members → Option Json
unfolding text_eq
get_member key no_member = none
get_member key (member name j ms) =
    let rest = get_member key ms in if name == key then some j else rest

-- `isinstance(value, str) and value.strip()`
unfoldable pub filled : (ℕ → Bool) → Option Json → Option Text
unfolding strip text_eq
filled space (some (string t)) = if strip space t == [] then none else some t
filled space _ = none

-- The texts of a list, without its other elements
unfoldable pub texts_in : List Json → List Text
texts_in [] = []
texts_in (string t ∷ js) = t ∷ texts_in js
texts_in (_ ∷ js) = texts_in js

-- The texts of a list that has no other elements
unfoldable pub all_texts : List Json → Option (List Text)
all_texts [] = some []
all_texts (string t ∷ js) = elim (all_texts js) [ none ↦ none | some ts ↦ some (t ∷ ts) ]
all_texts (_ ∷ js) = none

-- `d.get(key, [])`, if it is a list
unfoldable pub list_of : Option Json → Option (List Json)
unfolding elements
list_of none = some []
list_of (some (array js)) = some (elements js)
list_of (some _) = none
