-- ===== src/Device.antt =====
-- internal/nameformat/formatter.go and, in the module below, internal/ipcategorizer/categorizer.go. A
-- compiled regular expression and a parsed template are parameters.
pub mod Rendered
pub mod Category
pub mod Selected
pub mod Slices
pub mod Targets
mod Tests
use coredns_netbox.Base.{
  ℕ, ◌+◌, ◌-◌, Bool, true, false, not, ◌&&◌, ◌||◌, Option, none, some, List, [], ◌∷◌, ◌++◌, arith,
  if◌then◌else◌, leb, ◌==◌, nat_eq, all,
}
use coredns_netbox.Base.Text.{Text, codes, text_eq, trim_suffix, split, to_lower, dot}
use coredns_netbox.Base.Dict.{Dict, insert}

-- `Names`
pub record Names : Type 0 where
  pub canonical : Text
  pub aliases : List Text

-- A parser: the values of its named groups, where it matches, in the order of the groups.
abbrev pub Parser : Type 0
Parser = Text → Option (Dict Text Text)

-- A template renders the variables, or fails.
abbrev pub Template : Type 0
Template = Dict Text Text → Option Text

pub record Formatter : Type 0 where
  pub parsers : List Parser
  pub groups : List Text
  pub canonical : Template
  pub aliases : List Template
  pub domain : Text

-- A byte of a label of `renderedNameRE`, at its ends and within.
abbrev pub is_edge : ℕ → Bool
is_edge c = (leb b'a' c && leb c b'z') || (leb b'0' c && leb c b'9') || c == b'_'

abbrev pub is_inner : ℕ → Bool
is_inner c = is_edge c || c == b'-'

-- The bytes behind the first one of a label.
unfoldable pub is_tail : Text → Bool
is_tail [] = true
is_tail (c ∷ []) = is_edge c
is_tail (c ∷ d ∷ s) = is_inner c && is_tail (d ∷ s)

unfoldable pub is_rendered_label : Text → Bool
is_rendered_label [] = false
is_rendered_label (c ∷ s) = is_edge c && is_tail s

-- `renderedNameRE.MatchString`
unfoldable pub is_rendered_name : Text → Bool
is_rendered_name s = all is_rendered_label (split (trim_suffix s (dot ∷ [])) dot)

-- The groups that the parser does not have are empty.
abbrev pub blank_vars : List Text → Dict Text Text
blank_vars [] = []
blank_vars (g ∷ groups) = insert g [] (blank_vars groups)

abbrev pub put_vars : Dict Text Text → Dict Text Text → Dict Text Text
put_vars [] vars = vars
put_vars ((g, v) ∷ found) vars = put_vars found (insert g v vars)

-- The variables of the first parser that matches.
unfoldable pub match_vars : List Parser → List Text → Text → Option (Dict Text Text)
match_vars [] groups name = none
match_vars (p ∷ parsers) groups name = elim (p name) [
  | none ↦ match_vars parsers groups name
  | some found ↦ some (put_vars found (blank_vars groups))
]

-- A rendered name in lower case, if it is valid.
unfoldable pub render : Template → Dict Text Text → Option Text
render t vars = elim (t vars) [
  | none ↦ none
  | some s ↦ if is_rendered_name (to_lower s) then some (to_lower s) else none
]

-- The loop over the alias templates.
unfoldable pub render_aliases : Text → List Template → Dict Text Text → List Text
render_aliases canonical [] vars = []
render_aliases canonical (t ∷ ts) vars =
    let rest = render_aliases canonical ts vars in
    elim (render t vars) [ none ↦ rest | some a ↦ if a == canonical then rest else a ∷ rest ]

-- `Format`; the formatter is none where the feature is off.
unfoldable pub format : Option Formatter → Text → Option Names
format none device = none
format (some f) device = elim (match_vars f.parsers f.groups (to_lower device)) [
  | none ↦ none
  | some found ↦
      let vars = insert (codes "domain") f.domain (insert (codes "name") (to_lower device) found) in
      elim (render f.canonical vars) [
        | none ↦ none
        | some canonical ↦
            some
              (record { canonical = canonical; aliases = render_aliases canonical f.aliases vars })
      ]
]

-- `MatchIndex`, with none for -1
unfoldable pub match_from : List Parser → Text → ℕ → Option ℕ
match_from [] name i = none
match_from (p ∷ parsers) name i = elim (p name) [
  | none ↦ match_from parsers name (i + 1)
  | some _ ↦ some i
]

unfoldable pub match_index : Option Formatter → Text → Option ℕ
match_index none device = none
match_index (some f) device = match_from f.parsers (to_lower device) 0

-- `BMCName`
unfoldable pub bmc_name : Text → Text
bmc_name [] = codes "-bmc"
bmc_name (c ∷ s) = let rest = bmc_name s in if c == dot then codes "-bmc" ++ c ∷ s else c ∷ rest
