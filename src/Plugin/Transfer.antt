-- ===== src/Plugin/Transfer.antt =====
-- Transfer of coredns/plugins/netboxreload/plugin.go, and which zones serialChangedZones of notify.go
-- announces.
use coredns_netbox.Base.{
  ℕ, ◌≡◌, refl, sym, ap, ◌∙◌, ◌≢◌, ◌↔◌, inl, inr, Bool, true, false, not, ◌&&◌, Option, none, some,
  List, [], ◌∷◌, ◌++◌, append_assoc, append-nil, arith, if◌then◌else◌, Bool-cases, Option-cases,
  ◌==◌, nat_eq, ==_iff, keep, contains, All, All-append, keep-append,
}
use coredns_netbox.Base.Text.{Text, text_eq, text_lt, to_lower}
use coredns_netbox.Base.Dict.{
  Dict, lookup, insert, lookup_or, NodupKeys, lookup-insert, insert-NodupKeys,
}
use coredns_netbox.Zonegen.Order.Members.{contains-sort_by}
use coredns_netbox.Plugin.{
  Rr, Rdata, soa, cname, other, Zone, records_at, is_soa, apex_soa, is_empty, Dns,
}
use coredns_netbox.Plugin.Reload.{add_rr, index_records}
use coredns_netbox.Plugin.Swap.{zone_serial, serial_moved, moved_origins, serial_changed_zones}

-- The loop over the names: a batch for each that has other records than the SOA.
unfoldable pub batches : Dict Text (List Rr) → List (List Rr)
batches [] = []
batches ((_, rrset) ∷ d) =
    let rest = batches d in
    let batch = keep (λ rr. not (is_soa rr)) rrset in if is_empty batch then rest else batch ∷ rest

-- `soa.(*dns.SOA).Serial`
abbrev pub serial_of : Rdata → ℕ
serial_of (soa s) = s
serial_of (cname t) = 0
serial_of (other t) = 0

-- What the goroutine of `Transfer` sends.
unfoldable pub send : Zone → ℕ → List (List Rr)
send z client = elim (apex_soa z) [
  | none ↦ []
  | some rr ↦
      if not (client == 0) && serial_of rr.rdata == client
      then (rr ∷ []) ∷ []
      else (rr ∷ []) ∷ (batches z.records ++ (rr ∷ []) ∷ [])
]

-- None is the error of a zone that is not loaded.
unfoldable pub transfer : Dns → Dict Text Zone → Text → ℕ → Option (List (List Rr))
transfer dns zones zone client = elim (lookup (dns.fqdn zone) zones) [
  | none ↦ none
  | some z ↦ some (send z client)
]

abbrev pub flat {ℓ} : {A : Type ℓ} → List (List A) → List A
flat [] = []
flat (l ∷ ls) = l ++ flat ls

abbrev pub at_owner : Text → List Rr → List Rr
at_owner name = keep (λ rr. name == to_lower rr.owner)

abbrev pub no_soa : List Rr → List Rr
no_soa = keep (λ rr. not (is_soa rr))

-- A zone that is made of records has at a name those with that owner, in their order.
records-add_rr :
    (name : Text) (rr : Rr) (d : Dict Text (List Rr))
    → lookup_or [] name (add_rr rr d) ≡ lookup_or [] name d ++ at_owner name (rr ∷ [])
unfolding add_rr
records-add_rr name rr d = ground (
  arith,
  append-nil (lookup_or [] name d),
  lookup-insert name (to_lower rr.owner) (lookup_or [] (to_lower rr.owner) d ++ rr ∷ []) d,
)

pub records-index :
    (name : Text) (rrs : List Rr) (d : Dict Text (List Rr))
    → lookup_or [] name (index_records rrs d) ≡ lookup_or [] name d ++ at_owner name rrs
unfolding index_records
records-index name [] d = sym (append-nil (lookup_or [] name d))
records-index name (rr ∷ rrs) d =
    records-index name rrs (add_rr rr d)
    ∙ ap (λ l. l ++ at_owner name rrs) (records-add_rr name rr d)
    ∙ append_assoc (lookup_or [] name d) (at_owner name (rr ∷ [])) (at_owner name rrs)
    ∙ ap (λ l. lookup_or [] name d ++ l)
        (sym (keep-append (λ rr. name == to_lower rr.owner) (rr ∷ []) rrs))

-- Each name of the zone has records with that owner only.
IsKeyed : Dict Text (List Rr) → Type 0
IsKeyed = All (λ (k, rrs). All (λ rr. to_lower rr.owner ≡ k) rrs)

insert-IsKeyed :
    (k : Text) (rrs : List Rr) (d : Dict Text (List Rr))
    → All (λ rr. to_lower rr.owner ≡ k) rrs
    → IsKeyed d
    → IsKeyed (insert k rrs d)
unfolding IsKeyed
insert-IsKeyed k rrs [] h i = (h, tt)
insert-IsKeyed k rrs ((j, ss) ∷ d) h i = elim (Bool-cases (k == j)) [
  | inl e ↦ rw e (h, i.1)
  | inr e ↦ rw e (i.0, insert-IsKeyed k rrs d h i.1)
]

lookup_or-IsKeyed :
    (k : Text) (d : Dict Text (List Rr))
    → IsKeyed d
    → All (λ rr. to_lower rr.owner ≡ k) (lookup_or [] k d)
unfolding IsKeyed
lookup_or-IsKeyed k [] i = tt
lookup_or-IsKeyed k ((j, ss) ∷ d) i = elim (Bool-cases (k == j)) [
  | inl e ↦
      let here : lookup_or [] k ((j, ss) ∷ d) ≡ ss = ground (arith, e) in
      rw (here, (==_iff k j).0 e) i.0
  | inr e ↦
      let later : lookup_or [] k ((j, ss) ∷ d) ≡ lookup_or [] k d = ground (arith, e) in
      rw later (lookup_or-IsKeyed k d i.1)
]

add_rr-IsKeyed : (rr : Rr) (d : Dict Text (List Rr)) → IsKeyed d → IsKeyed (add_rr rr d)
unfolding add_rr
add_rr-IsKeyed rr d i =
    let k = to_lower rr.owner in
    insert-IsKeyed k (lookup_or [] k d ++ rr ∷ []) d
      (All-append (λ r. to_lower r.owner ≡ k) (lookup_or [] k d) (rr ∷ []) (lookup_or-IsKeyed k d i)
        (refl, tt))
      i

index-IsKeyed :
    (rrs : List Rr) (d : Dict Text (List Rr)) → IsKeyed d → IsKeyed (index_records rrs d)
unfolding index_records
index-IsKeyed [] d i = i
index-IsKeyed (rr ∷ rrs) d i = index-IsKeyed rrs (add_rr rr d) (add_rr-IsKeyed rr d i)

index-NodupKeys :
    (rrs : List Rr) (d : Dict Text (List Rr)) → NodupKeys d → NodupKeys (index_records rrs d)
unfolding index_records add_rr
index-NodupKeys [] d u = u
index-NodupKeys (rr ∷ rrs) d u =
    index-NodupKeys rrs (add_rr rr d) (insert-NodupKeys (to_lower rr.owner) _ d u)

at_owner-All :
    (k name : Text) (rrs : List Rr)
    → All (λ rr. to_lower rr.owner ≡ k) rrs
    → at_owner name (no_soa rrs) ≡ (if name == k then no_soa rrs else [])
at_owner-All k name [] h = ground arith
at_owner-All k name (rr ∷ rrs) (e, h) = ground (arith, e, at_owner-All k name rrs h)

-- The batches together have at each name what the zone has there, without the SOA.
at_owner-batches :
    (name : Text) (d : Dict Text (List Rr))
    → IsKeyed d
    → NodupKeys d
    → at_owner name (flat (batches d)) ≡ no_soa (lookup_or [] name d)
unfolding IsKeyed batches
at_owner-batches name [] i u = refl
at_owner-batches name ((k, rrs) ∷ d) (h, i) (fresh, u) =
    let ih = at_owner-batches name d i u in
    ground (
      arith,
      ih,
      fresh,
      at_owner-All k name rrs h,
      keep-append (λ rr. name == to_lower rr.owner) (no_soa rrs) (flat (batches d)),
      append-nil (no_soa rrs),
    )

flat-append {ℓ} : {A : Type ℓ} (k l : List (List A)) → flat (k ++ l) ≡ flat k ++ flat l
flat-append [] l = refl
flat-append (x ∷ k) l = ap (λ r. x ++ r) (flat-append k l) ∙ sym (append_assoc x (flat k) (flat l))

no_soa-keep : (p : Rr → Bool) (rrs : List Rr) → no_soa (keep p rrs) ≡ keep p (no_soa rrs)
no_soa-keep p [] = refl
no_soa-keep p (rr ∷ rrs) = ground (arith, no_soa-keep p rrs)

-- A zone that was made of the records `rrs`, and that has an SOA at its apex, is transferred to a
-- client that does not have its serial as the SOA, other records and the SOA; and a secondary that
-- files those other records by their owners has at each name what the primary has there, but for
-- SOA records, in the same order.
pub send-index :
    (z : Zone) (rrs : List Rr) (rr : Rr) (client : ℕ)
    → z.records ≡ index_records rrs []
    → apex_soa z ≡ some rr
    → not (client == 0) && serial_of rr.rdata == client ≡ false
    → (sent : List Rr) × (flat (send z client) ≡ rr ∷ (sent ++ rr ∷ []))
      × ((name : Text) → lookup_or [] name (index_records sent []) ≡ no_soa (records_at z name))
unfolding send
send-index z rrs rr client ez e stale = (
  flat (batches z.records),
  rw (e, stale, send) (ap (λ l. rr ∷ l) (flat-append (batches z.records) ((rr ∷ []) ∷ []))),
  λ name.
      records-index name (flat (batches z.records)) []
      ∙ at_owner-batches name z.records (rw ez (index-IsKeyed rrs [] (unfold IsKeyed in tt)))
          (rw ez (index-NodupKeys rrs [] tt)),
)

abbrev pub serial_at : Dict Text Zone → Text → Option ℕ
serial_at zones o = elim (lookup o zones) [ none ↦ none | some z ↦ zone_serial z ]

contains-moved_origins :
    (old current : Dict Text Zone) (o : Text)
    → NodupKeys current
    → contains (moved_origins old current) o
      ≡ elim (lookup o current) [ none ↦ false | some z ↦ serial_moved old o z ]
unfolding moved_origins
contains-moved_origins old [] o u = refl
contains-moved_origins old ((j, z) ∷ d) o (fresh, u) =
    ground (arith, contains-moved_origins old d o u, fresh)

serial_moved_iff :
    (old : Dict Text Zone) (o : Text) (z : Zone)
    → (serial_moved old o z ≡ true) ↔ ((zone_serial z ≢ none) × (zone_serial z ≢ serial_at old o))
unfolding serial_moved
serial_moved_iff old o z = elim (Option-cases (zone_serial z)) [
  | inl e ↦ rw (e, serial_moved) ((λ h. cc), (λ h. absurd (h.0 refl)))
  | inr (now, e) ↦ elim (Option-cases (lookup o old)) [
    | inl e2 ↦ ground (arith, e, e2)
    | inr (y, e2) ↦ elim (Option-cases (zone_serial y)) [
      | inl e3 ↦ ground (arith, e, e2, e3)
      | inr (before, e3) ↦ ground (arith, e, e2, e3)
    ]
  ]
]

-- The origins are those of the zones that now have a serial, and had another one or none before.
pub contains-serial_changed_zones :
    (old current : Dict Text Zone) (o : Text)
    → NodupKeys current
    → (contains (serial_changed_zones old current) o ≡ true)
      ↔ ((serial_at current o ≢ none) × (serial_at current o ≢ serial_at old o))
unfolding serial_changed_zones
contains-serial_changed_zones old current o u =
    let same =
      contains-sort_by text_lt o (moved_origins old current)
      ∙ contains-moved_origins old current o u in
    rw same (elim (Option-cases (lookup o current)) [
      | inl e ↦
          let gone : serial_at current o ≡ none = ground (arith, e) in
          rw (e, gone) ((λ h. cc), (λ h. absurd (h.0 refl)))
      | inr (z, e) ↦
          let here : serial_at current o ≡ zone_serial z = ground (arith, e) in
          rw (e, here) (serial_moved_iff old o z)
    ])
