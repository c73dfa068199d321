-- ===== src/Zonegen/Collisions.antt =====
-- internal/zonegen/collisions.go: which CNAME records of a zone are kept (RFC 1034, 3.6.2). The list
-- `devices` is only logged, and left out.
pub mod Aliases
use coredns_netbox.Base.{
  Bool, false, not, List, [], ◌∷◌, arith, if◌then◌else◌, leb, ◌==◌, nat_eq, length, contains,
}
use coredns_netbox.Base.Text.{Text, codes, text_eq, trim_suffix, to_lower}
use coredns_netbox.Base.Dict.{Dict, insert, lookup_or}
use coredns_netbox.Record.{IpRecord, is_cname}

-- The owner name in the form that is compared.
unfoldable pub key : Text → Text
key s = to_lower (trim_suffix s (codes "."))

-- The maps that the first loop fills: the owners that hold data, and the targets of each alias.
pub record Claims : Type 0 where
  pub has_data : List Text
  pub targets : Dict Text (List Text)

-- A set of texts gains a member.
abbrev pub add_member : Text → List Text → List Text
add_member t ts = if contains ts t then ts else t ∷ ts

unfoldable pub claim : IpRecord → Claims → Claims
claim r c =
    let n = key r.dns_name in
    if is_cname r
    then record c {
      targets = insert n (add_member (key r.cname_target) (lookup_or [] n c.targets)) c.targets;
    }
    else record c { has_data = add_member n c.has_data }

unfoldable pub claims : List IpRecord → Claims → Claims
unfolding claim
claims [] c = c
claims (r ∷ rs) c = claims rs (claim r c)

-- The `switch` of the second loop, up to `emitted`: the alias may stand.
unfoldable pub may_alias : Text → Claims → IpRecord → Bool
may_alias zone c r =
    let n = key r.dns_name in
    if r.cname_target == []
    then false
    else if n == key zone
    then false
    else if contains c.has_data n
    then false
    else leb (length (lookup_or [] n c.targets)) 1

-- The second loop.
unfoldable pub emit : Text → Claims → List Text → List IpRecord → List IpRecord
unfolding may_alias
emit zone c emitted [] = []
emit zone c emitted (r ∷ rs) =
    let n = key r.dns_name in
    let out = emit zone c emitted rs in
    let first = emit zone c (n ∷ emitted) rs in
    if not (is_cname r)
    then r ∷ out
    else if may_alias zone c r
    then (if contains emitted n then out else r ∷ first)
    else out

unfoldable pub resolve_cname_collisions : List IpRecord → Text → List IpRecord
unfolding claims emit
resolve_cname_collisions records zone =
    emit zone (claims records (record { has_data = []; targets = [] })) [] records
