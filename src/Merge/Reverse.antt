-- ===== src/Merge/Reverse.antt =====
-- Which records internal/merge/merge.go publishes in a zone, with the PTR records of dynamic records.
use coredns_netbox.Base.{
  ◌≡◌, ◌≢◌, ◌↔◌, ◌⊎◌, inl, inr, true, not, some, List, [], ◌∷◌, arith, nat_eq, Bool-cases, contains,
  keep, All, In, In-keep, In-append,
}
use coredns_netbox.Base.Text.{Text, text_eq}
use coredns_netbox.Base.Dict.{lookup_or, has_key, NodupKeys}
use coredns_netbox.Record.{IpRecord}
use coredns_netbox.Store.{FileStore, get_records, list_zones}
use coredns_netbox.Merge.{
  ZoneMap, Discoverer, names, addresses, shadow_names, shadow_addresses, all_dynamic, merged_zones,
}
use coredns_netbox.Merge.Shadow.{merged_zones-reverse}

abbrev pub NoneNamed : Text → List IpRecord → Type 0
NoneNamed n = All (λ q. n ≢ q.dns_name)

abbrev pub NoneAt : Text → List IpRecord → Type 0
NoneAt a = All (λ q. a ≢ q.address)

contains-names :
    (n : Text) (l : List IpRecord) → (not (contains (names l) n) ≡ true) ↔ NoneNamed n l
contains-names n [] = ((λ h. tt), (λ h. ground arith))
contains-names n (q ∷ l) = (
  λ h. (λ e. ground (arith, h, e), (contains-names n l).0 (ground (arith, h))),
  λ h. ground (arith, h.0, (contains-names n l).1 h.1),
)

contains-addresses :
    (a : Text) (l : List IpRecord) → (not (contains (addresses l) a) ≡ true) ↔ NoneAt a l
contains-addresses a [] = ((λ h. tt), (λ h. ground arith))
contains-addresses a (q ∷ l) = (
  λ h. (λ e. ground (arith, h, e), (contains-addresses a l).0 (ground (arith, h))),
  λ h. ground (arith, h.0, (contains-addresses a l).1 h.1),
)

In-shadow_names :
    (r : IpRecord) (netbox dyn : List IpRecord)
    → In r (shadow_names netbox dyn) ↔ (In r dyn ⊎ (In r netbox × NoneNamed r.dns_name dyn))
unfolding shadow_names
In-shadow_names r netbox dyn =
    let free = λ (q : IpRecord). not (contains (names dyn) q.dns_name) in
    (
      λ h. elim ((In-append (keep free netbox) dyn r).0 h) [
        | inl m ↦
            let (there, k) = (In-keep free netbox r).0 m in
            inr (there, (contains-names r.dns_name dyn).0 k)
        | inr m ↦ inl m
      ],
      λ h. (In-append (keep free netbox) dyn r).1 (elim h [
        | inl m ↦ inr m
        | inr (there, k) ↦
            inl ((In-keep free netbox r).1 (there, (contains-names r.dns_name dyn).1 k))
      ]),
    )

In-shadow_addresses :
    (r : IpRecord) (records ptrs : List IpRecord)
    → In r (shadow_addresses records ptrs) ↔ (In r ptrs ⊎ (In r records × NoneAt r.address ptrs))
unfolding shadow_addresses
In-shadow_addresses r records ptrs =
    let free = λ (q : IpRecord). not (contains (addresses ptrs) q.address) in
    (
      λ h. elim ((In-append (keep free records) ptrs r).0 h) [
        | inl m ↦
            let (there, k) = (In-keep free records r).0 m in
            inr (there, (contains-addresses r.address ptrs).0 k)
        | inr m ↦ inl m
      ],
      λ h. (In-append (keep free records) ptrs r).1 (elim h [
        | inl m ↦ inr m
        | inr (there, k) ↦
            inl ((In-keep free records r).1 (there, (contains-addresses r.address ptrs).1 k))
      ]),
    )

-- The forward part of the second case is what it is known to be.
through : {S P F G N : Type 0} → S ↔ (P ⊎ (F × N)) → F ↔ G → S ↔ (P ⊎ (G × N))
through h k = (
  λ s. elim (h.0 s) [ inl p ↦ inl p | inr (f, n) ↦ inr (k.0 f, n) ],
  λ c. h.1 (elim c [ inl p ↦ inl p | inr (g, n) ↦ inr (k.1 g, n) ]),
)

alone : {S G U : Type 0} → U → S ↔ G → S ↔ (⊥ ⊎ (G × U))
alone u h = (λ s. inr (h.0 s, u), λ c. elim c [ inl n ↦ absurd n | inr (g, _) ↦ h.1 g ])

-- Where the store and the zones `rev` have each zone once, and with a reverse discoverer that finds
-- `rev` for the dynamic records, of which there are some, the published zone `z` has exactly these
-- records: those of `rev`; the dynamic records of `z` at whose address `rev` has none there; and
-- NetBox's records of `z` whose name no dynamic record of `z` has and at whose address `rev` has none
-- there.
pub In-merged_zones :
    (netbox : ZoneMap) (store : FileStore) (disc : Discoverer) (rev : ZoneMap) (z : Text)
    (r : IpRecord)
    → NodupKeys store.data_zones
    → NodupKeys rev
    → disc (all_dynamic (list_zones store) store) ≡ some rev
    → all_dynamic (list_zones store) store ≢ []
    → In r (lookup_or [] z (merged_zones netbox store (some disc))) ↔ (
        In r (lookup_or [] z rev)
        ⊎ ((In r (get_records z store)
              ⊎ (In r (lookup_or [] z netbox) × NoneNamed r.dns_name (get_records z store)))
            × NoneAt r.address (lookup_or [] z rev)))
In-merged_zones netbox store disc rev z r h k found dynamic =
    let forward = shadow_names (lookup_or [] z netbox) (get_records z store) in
    let names_ = In-shadow_names r (lookup_or [] z netbox) (get_records z store) in
    let ptrs = In-shadow_addresses r forward (lookup_or [] z rev) in
    rw (merged_zones-reverse netbox store disc rev z h k found dynamic)
      (elim (Bool-cases (has_key z rev)) [
        | inl e ↦ rw e (through ptrs names_)
        | inr e ↦
            let none_ : lookup_or [] z rev ≡ [] = ground (arith, e) in
            rw (e, none_) (alone tt names_)
      ])
