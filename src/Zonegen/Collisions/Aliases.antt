-- ===== src/Zonegen/Collisions/Aliases.antt =====
-- What the collision filter leaves of a zone, name by name.
use coredns_netbox.Base.{
  ℕ, suc, ◌≤◌, ◌≡◌, refl, ◌⊎◌, Bool, true, false, not, ◌&&◌, ◌||◌, List, [], ◌∷◌, arith,
  if◌then◌else◌, leb, ◌==◌, nat_eq, length, keep, any, all, contains,
}
use coredns_netbox.Base.Text.{Text, text_eq}
use coredns_netbox.Base.Dict.{lookup_or, lookup-insert}
use coredns_netbox.Record.{IpRecord, is_cname}
use coredns_netbox.Zonegen.Collisions.{
  key, Claims, add_member, claim, claims, emit, resolve_cname_collisions,
}

-- The number of CNAME records that `rs` has at the owner `n`.
abbrev pub aliases_at : Text → List IpRecord → ℕ
aliases_at n [] = 0
aliases_at n (r ∷ rs) =
    let rest = aliases_at n rs in if is_cname r && key r.dns_name == n then suc rest else rest

-- An address record of `rs` has the owner `n`.
abbrev pub has_address : Text → List IpRecord → Bool
has_address n = any (λ r. not (is_cname r) && key r.dns_name == n)

-- The targets that the CNAME records at `n` claim, and whether they are all the same.
abbrev pub targets_at : Text → List IpRecord → List Text
targets_at n [] = []
targets_at n (r ∷ rs) =
    let rest = targets_at n rs in
    if is_cname r && key r.dns_name == n then key r.cname_target ∷ rest else rest

abbrev pub agree : List Text → Bool
agree [] = true
agree (t ∷ ts) = all (λ u. u == t) ts

-- A CNAME of `rs` at `n` has a target.
abbrev pub has_alias : Text → List IpRecord → Bool
has_alias n = any (λ r. is_cname r && key r.dns_name == n && not (r.cname_target == []))

-- All address records stay, in their order.
emit_addresses :
    (zone : Text) (c : Claims) (em : List Text) (rs : List IpRecord)
    → keep (λ r. not (is_cname r)) (emit zone c em rs) ≡ keep (λ r. not (is_cname r)) rs
unfolding emit
emit_addresses zone c em [] = refl
emit_addresses zone c em (r ∷ rs) =
    ground (arith, emit_addresses zone c em rs, emit_addresses zone c (key r.dns_name ∷ em) rs)

-- The tests of the `switch` that depend on the owner alone.
abbrev owner_ok : Text → Claims → Text → Bool
owner_ok zone c n =
    not (n == key zone) && not (contains c.has_data n) && leb (length (lookup_or [] n c.targets)) 1

aliases_at-emit :
    (zone : Text) (c : Claims) (em : List Text) (rs : List IpRecord) (n : Text)
    → aliases_at n (emit zone c em rs)
      ≡ (if not (contains em n) && owner_ok zone c n && has_alias n rs then 1 else 0)
unfolding emit
aliases_at-emit zone c em [] n = ground arith
aliases_at-emit zone c em (r ∷ rs) n =
    ground
      (arith, aliases_at-emit zone c em rs n, aliases_at-emit zone c (key r.dns_name ∷ em) rs n)

contains-add_member :
    (n t : Text) (ts : List Text) → contains (add_member t ts) n ≡ (n == t || contains ts n)
contains-add_member n t ts = ground arith

has_data-claims :
    (rs : List IpRecord) (c : Claims) (n : Text)
    → contains (claims rs c).has_data n ≡ (contains c.has_data n || has_address n rs)
unfolding claims claim
has_data-claims [] c n = ground arith
has_data-claims (r ∷ rs) c n =
    ground
      (arith, has_data-claims rs (claim r c) n, contains-add_member n (key r.dns_name) c.has_data)

add_members : List Text → List Text → List Text
add_members [] acc = acc
add_members (t ∷ ts) acc = add_members ts (add_member t acc)

targets-claim :
    (r : IpRecord) (c : Claims) (n : Text)
    → lookup_or [] n (claim r c).targets ≡ (
        if is_cname r && key r.dns_name == n
        then add_member (key r.cname_target) (lookup_or [] n c.targets)
        else lookup_or [] n c.targets)
unfolding claim
targets-claim r c n = ground (
  arith,
  lookup-insert n (key r.dns_name)
      (add_member (key r.cname_target) (lookup_or [] (key r.dns_name) c.targets)) c.targets,
)

targets-claims :
    (rs : List IpRecord) (c : Claims) (n : Text)
    → lookup_or [] n (claims rs c).targets
      ≡ add_members (targets_at n rs) (lookup_or [] n c.targets)
unfolding claims add_members
targets-claims [] c n = refl
targets-claims (r ∷ rs) c n = ground (arith, targets-claims rs (claim r c) n, targets-claim r c n)

length-add_members : (ts acc : List Text) → length acc ≤ length (add_members ts acc)
unfolding add_members
length-add_members [] acc = omega arith
length-add_members (t ∷ ts) acc = ground (arith, length-add_members ts (add_member t acc))

add_members_one :
    (t : Text) (ts : List Text) → leb (length (add_members ts (t ∷ []))) 1 ≡ all (λ u. u == t) ts
unfolding add_members
add_members_one t [] = refl
add_members_one t (u ∷ ts) =
    ground (arith, add_members_one t ts, length-add_members ts (u ∷ t ∷ []))

length-add_members-agree : (ts : List Text) → leb (length (add_members ts [])) 1 ≡ agree ts
unfolding add_members
length-add_members-agree [] = refl
length-add_members-agree (t ∷ ts) = add_members_one t ts

-- After the filter a name holds one CNAME if it is not the apex, no address record has it, the
-- CNAME records given at it agree on the target and one of them has a target; else it holds none.
pub aliases_at-resolve :
    (rs : List IpRecord) (zone n : Text)
    → aliases_at n (resolve_cname_collisions rs zone) ≡ (
        if not (n == key zone)
          && not (has_address n rs)
          && agree (targets_at n rs)
          && has_alias n rs
        then 1
        else 0)
unfolding resolve_cname_collisions
aliases_at-resolve rs zone n = ground (
  arith,
  aliases_at-emit zone (claims rs (record { has_data = []; targets = [] })) [] rs n,
  has_data-claims rs (record { has_data = []; targets = [] }) n,
  targets-claims rs (record { has_data = []; targets = [] }) n,
  length-add_members-agree (targets_at n rs),
)

-- The filter drops no address record and leaves those that there are in their order.
pub addresses-resolve :
    (rs : List IpRecord) (zone : Text)
    → keep (λ r. not (is_cname r)) (resolve_cname_collisions rs zone)
      ≡ keep (λ r. not (is_cname r)) rs
unfolding resolve_cname_collisions
addresses-resolve rs zone =
    emit_addresses zone (claims rs (record { has_data = []; targets = [] })) [] rs

has_address-keep :
    (n : Text) (rs : List IpRecord)
    → has_address n (keep (λ r. not (is_cname r)) rs) ≡ has_address n rs
has_address-keep n [] = refl
has_address-keep n (r ∷ rs) = ground (arith, has_address-keep n rs)

-- RFC 1034, 3.6.2: in the filtered zone no name has two CNAME records, and none has a CNAME beside
-- an address record.
pub resolve_coherent :
    (rs : List IpRecord) (zone n : Text)
    → let out = resolve_cname_collisions rs zone in
      (aliases_at n out ≤ 1) × ((aliases_at n out ≡ 0) ⊎ (has_address n out ≡ false))
resolve_coherent rs zone n = ground (
  arith,
  aliases_at-resolve rs zone n,
  addresses-resolve rs zone,
  has_address-keep n rs,
  has_address-keep n (resolve_cname_collisions rs zone),
)
