-- ===== src/Config.antt =====
-- internal/config/config.go: the statuses of NetBox that are published, and the lists of zones.
pub mod Statuses
mod Tests
use coredns_netbox.Base.{
  ℕ, Bool, true, false, not, ◌&&◌, ◌||◌, Option, none, some, List, [], ◌∷◌, ◌++◌, if◌then◌else◌,
  leb, ◌==◌, nat_eq, contains,
}
use coredns_netbox.Base.Text.{Text, codes, text_eq, split, to_lower}

-- White space in ASCII: tab, line feed, vertical tab, form feed, carriage return and the blank.
abbrev pub is_space : ℕ → Bool
is_space c = c == b' ' || (leb 9 c && leb c 13)

unfoldable pub trim_left : Text → Text
trim_left [] = []
trim_left (c ∷ s) = let rest = trim_left s in if is_space c then rest else c ∷ s

unfoldable pub trim_right : Text → Text
trim_right [] = []
trim_right (c ∷ s) = let rest = trim_right s in if rest == [] && is_space c then [] else c ∷ rest

-- `strings.TrimSpace` on ASCII
abbrev pub trim_space : Text → Text
trim_space s = trim_right (trim_left s)

abbrev pub comma : ℕ
comma = b','

abbrev pub valid_publish_statuses : List Text
valid_publish_statuses =
    codes "active" ∷ codes "reserved" ∷ codes "deprecated" ∷ codes "dhcp" ∷ codes "slaac" ∷ []

abbrev pub status_of : Text → Text
status_of part = to_lower (trim_space part)

-- The loop of `ParsePublishStatuses` over the parts; `seen` has the statuses of `out`.
unfoldable pub collect_statuses : List Text → List Text → Option (List Text)
collect_statuses [] out = some out
collect_statuses (part ∷ parts) out =
    let status = status_of part in
    elim (status == []) [
      | true ↦ collect_statuses parts out
      | false ↦ elim (contains valid_publish_statuses status) [
        | false ↦ none
        | true ↦ elim (contains out status) [
          | true ↦ collect_statuses parts out
          | false ↦ collect_statuses parts (out ++ status ∷ [])
        ]
      ]
    ]

-- `len(out) == 0` is an error too.
abbrev pub unless_empty : Option (List Text) → Option (List Text)
unless_empty none = none
unless_empty (some []) = none
unless_empty (some (x ∷ out)) = some (x ∷ out)

-- None is an error.
unfoldable pub parse_publish_statuses : Text → Option (List Text)
parse_publish_statuses s =
    if trim_space s == []
    then some (codes "active" ∷ [])
    else unless_empty (collect_statuses (split s comma) [])

-- What `parseZoneList` keeps of the parts.
unfoldable pub trim_zones : List Text → List Text
trim_zones [] = []
trim_zones (z ∷ zones) =
    let rest = trim_zones zones in if trim_space z == [] then rest else trim_space z ∷ rest

unfoldable pub parse_zone_list : Text → List Text
parse_zone_list s = if s == [] then [] else trim_zones (split s comma)
