-- ===== src/Plugin.antt =====
-- coredns/plugins/netboxreload: the zones in memory, the answer to a query (zone.answer of zones.go)
-- and ServeDNS with findZone (plugin.go).
pub mod Finding
pub mod Answer
pub mod Reload
pub mod Sync
pub mod Swap
pub mod Transfer
pub mod Notify
mod Tests
use coredns_netbox.Base.{
  ℕ, zero, suc, ◌+◌, ◌-◌, ◌*◌, Bool, true, false, not, ◌||◌, Option, none, some, List, [], ◌∷◌, map,
  arith, if◌then◌else◌, ◌==◌, nat_eq, length, keep, find, contains,
}
use coredns_netbox.Base.Text.{Text, text_eq, to_lower, dot}
use coredns_netbox.Base.Dict.{Dict, lookup, lookup_or, has_key}

-- What the parser of package dns gives for a record: *dns.SOA, *dns.CNAME or another type, by its
-- number. The rest is the TTL and the data that the plugin copies.
pub data Rdata : Type 0 where
  soa : ℕ → Rdata
  cname : Text → Rdata
  other : ℕ → Rdata

pub record Rr : Type 0 where
  pub owner : Text
  pub rdata : Rdata
  pub rest : Text

abbrev pub type_cname : ℕ
type_cname = 5

abbrev pub type_soa : ℕ
type_soa = 6

abbrev pub type_any : ℕ
type_any = 255

-- `rr.Header().Rrtype`
abbrev pub rrtype : Rdata → ℕ
rrtype (soa s) = type_soa
rrtype (cname t) = type_cname
rrtype (other t) = t

-- `*zone`: the pointer is a number, and the map goes from a lower-case owner to its records.
pub record Zone : Type 0 where
  pub pointer : ℕ
  pub origin : Text
  pub records : Dict Text (List Rr)

abbrev pub records_at : Zone → Text → List Rr
records_at z name = lookup_or [] name z.records

-- What the plugin calls of package dns: Fqdn, and the zone parser, which gives the records of a text
-- or an error, for an origin and a file name.
pub record Dns : Type 0 where
  pub fqdn : Text → Text
  pub parse : Text → Text → Text → Option (List Rr)

unfoldable pub matches : ℕ → Rr → Bool
matches qtype rr = rrtype rr.rdata == qtype || qtype == type_any

-- The records that the loop over one name appends.
abbrev pub matching : ℕ → List Rr → List Rr
matching qtype = keep (matches qtype)

abbrev pub target_of : Rdata → Option Text
target_of (soa s) = none
target_of (cname t) = some t
target_of (other t) = none

-- The last CNAME that does not match, with its target.
unfoldable pub last_cname : ℕ → List Rr → Option (Rr × Text)
last_cname qtype [] = none
last_cname qtype (rr ∷ rrs) = elim (last_cname qtype rrs) [
  | some c ↦ some c
  | none ↦
      if matches qtype rr
      then none
      else elim (target_of rr.rdata) [ none ↦ none | some t ↦ some (rr, t) ]
]

abbrev pub is_empty {ℓ} : {A : Type ℓ} → List A → Bool
is_empty [] = true
is_empty (x ∷ xs) = false

abbrev pub before {ℓ} : {A : Type ℓ} → A → Option (List A) → Option (List A)
before a none = none
before a (some l) = some (a ∷ l)

module _ (dns : Dns) where
  -- The loop of `answer`; none is a loop that is out of fuel.
  unfoldable pub follow : Zone → ℕ → ℕ → List Text → Text → Option (List Rr)
  follow z qtype zero visited cur = none
  follow z qtype (suc fuel) visited cur = elim (contains visited cur) [
    | true ↦ some []
    | false ↦
        let found = matching qtype (records_at z cur) in
        elim (last_cname qtype (records_at z cur)) [
          | none ↦ some found
          | some (rr, target) ↦
              elim (not (is_empty found) || qtype == type_cname || qtype == type_any) [
                | true ↦ some found
                | false ↦
                    before rr (follow z qtype fuel (cur ∷ visited) (to_lower (dns.fqdn target)))
              ]
        ]
  ]

  -- A round marks a name, and a name without records ends the loop.
  unfoldable pub answer : Zone → Text → ℕ → Option (List Rr)
  answer z name qtype = follow z qtype (length z.records + 1) [] name

-- `findZone` behind the first test: what stands behind each dot, the last one left out.
unfoldable pub find_parent : Dict Text Zone → Text → Option Zone
find_parent zones [] = none
find_parent zones (c ∷ n) =
    let later = find_parent zones n in
    if c == dot
    then (if n == [] then none else elim (lookup n zones) [ some z ↦ some z | none ↦ later ])
    else later

unfoldable pub find_zone : Dict Text Zone → Text → Option Zone
find_zone zones name = elim (lookup name zones) [ some z ↦ some z | none ↦ find_parent zones name ]

abbrev pub is_soa : Rr → Bool
is_soa rr = elim rr.rdata [ soa s ↦ true | cname t ↦ false | other t ↦ false ]

-- The SOA at the apex.
unfoldable pub apex_soa : Zone → Option Rr
apex_soa z = find is_soa (records_at z z.origin)

pub data Rcode : Type 0 where
  success name_error : Rcode

pub record Message : Type 0 where
  pub rcode : Rcode
  pub answers : List Rr
  pub authority : List Rr

pub data Served : Type 0 where
  next_plugin : Served
  written : Message → Served

abbrev pub Question : Type 0
Question = record { name : Text; qtype : ℕ }

abbrev pub as_list {ℓ} : {A : Type ℓ} → Option A → List A
as_list none = []
as_list (some a) = a ∷ []

unfoldable pub reply : Zone → Text → List Rr → Message
reply z name answers = record {
  rcode = if has_key name z.records then success else name_error;
  answers = answers;
  authority = if is_empty answers then as_list (apex_soa z) else [];
}

-- `ServeDNS` up to the writing of the message, over the first question; none is out of fuel.
unfoldable pub serve_dns : Dns → Dict Text Zone → Option Question → Option Served
serve_dns dns zones none = some next_plugin
serve_dns dns zones (some q) =
    let name = to_lower q.name in
    elim (find_zone zones name) [
      | none ↦ some next_plugin
      | some z ↦ elim (answer dns z name q.qtype) [
        | none ↦ none
        | some answers ↦ some (written (reply z name answers))
      ]
    ]
