-- ===== src/Merge/Tests.antt =====
-- Runs of the merge of internal/merge/merge.go.
use coredns_netbox.Base.{◌≡◌, refl, ◌↔◌, ◌⊎◌, In, none, some, [], ◌∷◌, nat_eq}
use coredns_netbox.Base.Text.{Text, codes, text_eq}
use coredns_netbox.Base.Dict.{lookup_or}
use coredns_netbox.Store.{list_zones, get_records}
use coredns_netbox.Merge.{
  ZoneMap, Discoverer, shadow_names, shadow_addresses, all_dynamic, merged_zones,
}
use coredns_netbox.Merge.Shadow.{merged_zones-forward, merged_zones-reverse}
use coredns_netbox.Merge.Reverse.{NoneNamed, NoneAt, In-merged_zones}
use coredns_netbox.Samples.{lab, web_name, host, web_by_hand, db_hooked, sample_store}

abbrev polled : ZoneMap
polled =
    (lab, host web_name (codes "10.0.0.7") ∷ host (codes "ntp.lab.") (codes "10.0.0.8") ∷ []) ∷ []

abbrev reverse_zone : Text
reverse_zone = codes "10.in-addr.arpa."

-- It finds one PTR record.
abbrev found : ZoneMap
found = (reverse_zone, host web_name (codes "10.0.0.1") ∷ []) ∷ []

abbrev one_zone : Discoverer
one_zone rs = some found

merged_zones-forward_run :
    lookup_or [] lab (merged_zones polled sample_store none)
    ≡ host (codes "ntp.lab.") (codes "10.0.0.8") ∷ web_by_hand ∷ db_hooked ∷ []
unfolding text_eq shadow_names get_records
merged_zones-forward_run = merged_zones-forward polled sample_store lab (refl, tt)

-- The reverse zone of NetBox has a PTR record at the address that `found` has, and another one.
abbrev polled_ptrs : ZoneMap
polled_ptrs =
    (
      reverse_zone,
      host (codes "old.lab.") (codes "10.0.0.1") ∷ host (codes "ntp.lab.") (codes "10.0.0.8") ∷ [],
    )
    ∷ []

shadowed_run :
    lookup_or [] reverse_zone (merged_zones polled_ptrs sample_store (some one_zone))
    ≡ host (codes "ntp.lab.") (codes "10.0.0.8") ∷ host web_name (codes "10.0.0.1") ∷ []
unfolding text_eq shadow_names shadow_addresses get_records list_zones all_dynamic
shadowed_run =
    merged_zones-reverse polled_ptrs sample_store one_zone found reverse_zone (refl, tt) (refl, tt)
      refl (λ e. cc)

In-merged_zones_example :
    In
      (host (codes "old.lab.") (codes "10.0.0.1"))
      (lookup_or [] reverse_zone (merged_zones polled_ptrs sample_store (some one_zone)))
    ↔ (In (host (codes "old.lab.") (codes "10.0.0.1")) (lookup_or [] reverse_zone found)
        ⊎ ((In (host (codes "old.lab.") (codes "10.0.0.1")) (get_records reverse_zone sample_store)
              ⊎ (In
                    (host (codes "old.lab.") (codes "10.0.0.1"))
                    (lookup_or [] reverse_zone polled_ptrs)
                  × NoneNamed (codes "old.lab.") (get_records reverse_zone sample_store)))
            × NoneAt (codes "10.0.0.1") (lookup_or [] reverse_zone found)))
unfolding all_dynamic list_zones get_records text_eq
In-merged_zones_example =
    In-merged_zones polled_ptrs sample_store one_zone found reverse_zone
      (host (codes "old.lab.") (codes "10.0.0.1")) (refl, tt) (refl, tt) refl (λ e. cc)
