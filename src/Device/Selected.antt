-- ===== src/Device/Selected.antt =====
-- SelectDeviceIPs of internal/ipcategorizer/categorizer.go: which records of a device are chosen.
use coredns_netbox.Base.{
  ◌≡◌, refl, sym, ap, ◌∙◌, ◌≢◌, ◌⊎◌, inl, inr, Bool, true, false, Option, none, some, List, [], ◌∷◌,
  ◌++◌, append_assoc, append-nil, arith, if◌then◌else◌, Bool-cases, Option-cases, ◌==◌, nat_eq,
  if_of_both, length, keep, List-cases, In, In-keep,
}
use coredns_netbox.Base.Text.{Text, text_eq, text_lt}
use coredns_netbox.Base.Dict.{
  Dict, lookup, insert, lookup_or, NodupKeys, lookup-insert, insert-NodupKeys,
}
use coredns_netbox.Record.{IpRecord}
use coredns_netbox.Zonegen.Order.Sort.{text_lt_irrefl}
use coredns_netbox.Device.Slices.{SortsSlices, by_interface-IsStrictWeak}
use coredns_netbox.Device.Category.{
  SortSlice, by_interface, Category, Categorizer, categorize, is_mgmt_vrf, is_mgmt_interface,
  is_bmc, of_category, best, primary_of, bmc_of, select_device, select_loop, select_device_ips,
  DeviceDnsRecords, has_ip, by_device, extract_zone,
}

-- A record of the list and of the category, and no other one of it comes before, by the name of the
-- interface.
pub record IsBest (c : Categorizer) (p : Category → Bool) (ips : List IpRecord) (r : IpRecord)
    : Type 0 where
  pub listed : In r ips
  pub fits : p (categorize c r) ≡ true
  pub smallest :
      (s : IpRecord)
      → In s ips
      → p (categorize c s) ≡ true
      → text_lt s.interface_name r.interface_name ≡ false

module _ (sort : SortSlice) (sorts : SortsSlices sort) (c : Categorizer) where
  -- No element of the slice has a smaller name than the first one of the result.
  none_before :
      (l rest : List IpRecord) (r s : IpRecord)
      → sort by_interface l ≡ r ∷ rest
      → In s l
      → text_lt s.interface_name r.interface_name ≡ false
  unfolding by_interface
  none_before l rest r s e m = elim (rw e at ((sorts.same by_interface l s).1 m)) [
    | inl same ↦ rw same (text_lt_irrefl r.interface_name)
    | inr later ↦ sorts.first by_interface l rest r s by_interface-IsStrictWeak e later
  ]

  best-IsBest :
      (p : Category → Bool) (ips : List IpRecord) (r : IpRecord)
      → best sort c p ips ≡ some r
      → IsBest c p ips r
  best-IsBest p ips r h = elim (List-cases (sort by_interface (of_category sort c p ips))) [
    | inl e ↦ absurd (ground (arith, e, h))
    | inr (x, rest, e) ↦
        let mine = of_category sort c p ips in
        let same : x ≡ r = ground (arith, e, h) in
        let at_head : sort by_interface mine ≡ r ∷ rest = e ∙ ap (λ y. y ∷ rest) same in
        let there : In r (sort by_interface mine) = rw at_head (inl refl) in
        let (listed, fits) =
          (In-keep (λ s. p (categorize c s)) ips r).0 ((sorts.same by_interface mine r).0 there) in
        record {
          listed = listed;
          fits = fits;
          smallest = λ s m k.
              none_before mine rest r s at_head
                ((In-keep (λ y. p (categorize c y)) ips s).1 (m, k));
        }
  ]

  none_of :
      (p : Category → Bool) (ips : List IpRecord)
      → length (of_category sort c p ips) ≡ 0
      → (s : IpRecord) → In s ips
      → p (categorize c s) ≡ false
  none_of p ips h s m = elim (Bool-cases (p (categorize c s))) [
    | inr e ↦ e
    | inl e ↦
        let there = (In-keep (λ y. p (categorize c y)) ips s).1 (m, e) in
        absurd (no_members (of_category sort c p ips) s h there)
  ]
    where
      no_members : (l : List IpRecord) (r : IpRecord) → length l ≡ 0 → In r l → ⊥
      no_members [] r h2 m2 = m2
      no_members (x ∷ l) r h2 m2 = omega (arith, h2)

  -- A list that is not empty has a best element.
  best_there :
      (p : Category → Bool) (ips : List IpRecord)
      → (length (of_category sort c p ips) == 0) ≡ false
      → best sort c p ips ≢ none
  best_there p ips h e = elim (List-cases (of_category sort c p ips)) [
    | inl n ↦ absurd (ground (arith, n, h))
    | inr (x, rest, e2) ↦
        let mine = of_category sort c p ips in
        let there : In x mine = rw e2 (inl refl) in
        elim (List-cases (sort by_interface mine)) [
          | inl n ↦ absurd (rw n at ((sorts.same by_interface mine x).1 there))
          | inr (y, l, e3) ↦ absurd (ground (arith, e, e3))
        ]
  ]

  -- The record that stands for the device, or none.
  pub ChosenPrimary : List IpRecord → Option IpRecord → Type 0
  ChosenPrimary ips none =
      (s : IpRecord)
      → In s ips
      → (is_mgmt_vrf (categorize c s) ≡ false) × (is_mgmt_interface (categorize c s) ≡ false)
  ChosenPrimary ips (some r) =
      IsBest c is_mgmt_vrf ips r
      ⊎ (IsBest c is_mgmt_interface ips r
          × ((s : IpRecord) → In s ips → is_mgmt_vrf (categorize c s) ≡ false))

  primary_of-Chosen : (ips : List IpRecord) → ChosenPrimary ips (primary_of sort c ips)
  unfolding primary_of ChosenPrimary
  primary_of-Chosen ips = elim (Bool-cases (length (of_category sort c is_mgmt_vrf ips) == 0)) [
    | inr e ↦ elim (Option-cases (best sort c is_mgmt_vrf ips)) [
      | inl n ↦ absurd (best_there is_mgmt_vrf ips e n)
      | inr (r, b) ↦
          let same : primary_of sort c ips ≡ some r = ground (arith, e, b) in
          rw same (inl (best-IsBest is_mgmt_vrf ips r b))
    ]
    | inl e ↦
        let no_vrf = none_of is_mgmt_vrf ips (ground (arith, e)) in
        elim (Bool-cases (length (of_category sort c is_mgmt_interface ips) == 0)) [
          | inl e2 ↦
              let same : primary_of sort c ips ≡ none = ground (arith, e, e2) in
              rw same (λ s m. (no_vrf s m, none_of is_mgmt_interface ips (ground (arith, e2)) s m))
          | inr e2 ↦ elim (Option-cases (best sort c is_mgmt_interface ips)) [
            | inl n ↦ absurd (best_there is_mgmt_interface ips e2 n)
            | inr (r, b) ↦
                let same : primary_of sort c ips ≡ some r = ground (arith, e, e2, b) in
                rw same (inr (best-IsBest is_mgmt_interface ips r b, no_vrf))
          ]
        ]
  ]

  lookup_or-by_device :
      (records : List IpRecord) (d : Dict Text (List IpRecord)) (device : Text)
      → device ≢ []
      → lookup_or [] device (by_device records d)
        ≡ lookup_or [] device d ++ keep (λ r. r.device_name == device) records
  unfolding by_device
  lookup_or-by_device [] d device h = sym (append-nil (lookup_or [] device d))
  lookup_or-by_device (r ∷ records) d device h =
      let rest = keep (λ s. s.device_name == device) records in
      elim (Bool-cases (r.device_name == [])) [
        | inl e ↦
            let other : r.device_name == device ≡ false = ground (arith, e, h) in
            rw (e, other, by_device) (lookup_or-by_device records d device h)
        | inr e ↦
            let more = insert r.device_name (lookup_or [] r.device_name d ++ r ∷ []) d in
            ground (
              arith,
              e,
              lookup_or-by_device records more device h,
              lookup-insert device r.device_name (lookup_or [] r.device_name d ++ r ∷ []) d,
              append_assoc (lookup_or [] device d) (r ∷ []) rest,
            )
      ]

  by_device-NodupKeys :
      (records : List IpRecord) (d : Dict Text (List IpRecord))
      → NodupKeys d
      → NodupKeys (by_device records d)
  unfolding by_device
  by_device-NodupKeys [] d u = u
  by_device-NodupKeys (r ∷ records) d u = by_device-NodupKeys records _ (
      if_of_both NodupKeys (r.device_name == []) u
        (insert-NodupKeys r.device_name (lookup_or [] r.device_name d ++ r ∷ []) d u))

  -- What the loop over the devices keeps of one.
  abbrev kept : Text → Option (List IpRecord) → Option DeviceDnsRecords
  kept device none = none
  kept device (some ips) =
      if has_ip sort c (select_device sort c device ips)
      then some (select_device sort c device ips)
      else none

  lookup-select_loop :
      (d : Dict Text (List IpRecord)) (device : Text)
      → NodupKeys d
      → lookup device (select_loop sort c d) ≡ kept device (lookup device d)
  unfolding select_loop
  lookup-select_loop [] device u = refl
  lookup-select_loop ((k, ips) ∷ d) device (fresh, u) = ground (
    arith,
    fresh,
    lookup-select_loop d device u,
    lookup-insert device k (select_device sort c k ips) (select_loop sort c d),
  )

  pub ChosenBmc : List IpRecord → Option IpRecord → Type 0
  ChosenBmc ips none = (s : IpRecord) → In s ips → is_bmc (categorize c s) ≡ false
  ChosenBmc ips (some r) = IsBest c is_bmc ips r

  bmc_of-Chosen : (ips : List IpRecord) → ChosenBmc ips (bmc_of sort c ips)
  unfolding bmc_of ChosenBmc
  bmc_of-Chosen ips = elim (Bool-cases (length (of_category sort c is_bmc ips) == 0)) [
    | inl e ↦
        let same : bmc_of sort c ips ≡ none = ground (arith, e) in
        rw same (none_of is_bmc ips (ground (arith, e)))
    | inr e ↦ elim (Option-cases (best sort c is_bmc ips)) [
      | inl n ↦ absurd (best_there is_bmc ips e n)
      | inr (r, b) ↦
          let same : bmc_of sort c ips ≡ some r = ground (arith, e, b) in
          rw same (best-IsBest is_bmc ips r b)
    ]
  ]

  -- A device without an entry has no record for the management and none for the BMC.
  pub Chosen : Text → List IpRecord → Option DeviceDnsRecords → Type 0
  Chosen device ips none = ChosenPrimary ips none × ChosenBmc ips none
  Chosen device ips (some dns) =
      ChosenPrimary ips dns.primary_ip
      × ChosenBmc ips dns.bmc_ip
      × (dns.device_name ≡ device)
      × (dns.zone ≡ extract_zone c device)

  kept-Chosen : (device : Text) (ips : List IpRecord) → Chosen device ips (kept device (some ips))
  unfolding Chosen select_device
  kept-Chosen device ips =
      let primary = primary_of-Chosen ips in
      let bmc = bmc_of-Chosen ips in
      elim (Option-cases (primary_of sort c ips)) [
        | inr (r, e) ↦
            let here : has_ip sort c (select_device sort c device ips) ≡ true = ground (arith, e) in
            rw here (primary, bmc, refl, refl)
        | inl e ↦ elim (Option-cases (bmc_of sort c ips)) [
          | inr (r, e2) ↦
              let here : has_ip sort c (select_device sort c device ips) ≡ true =
                ground (arith, e, e2) in
              rw here (primary, bmc, refl, refl)
          | inl e2 ↦
              let gone : has_ip sort c (select_device sort c device ips) ≡ false =
                ground (arith, e, e2) in
              rw gone (rw e at primary, rw e2 at bmc)
        ]
      ]

  -- Where sort.Slice sorts by a strict weak order, and for a device with a name, the entry of the device, or its absence,
  -- is the choice among its records: for the management a record of a management VRF before one of
  -- a management interface, for the BMC one of a BMC interface, and of several the one whose
  -- interface has the smallest name; a device that has neither has no entry.
  pub select_device_ips-Chosen :
      (records : List IpRecord) (device : Text)
      → device ≢ []
      → Chosen device
          (keep (λ r. r.device_name == device) records)
          (lookup device (select_device_ips sort c records))
  unfolding select_device_ips
  select_device_ips-Chosen records device h =
      let d = by_device records [] in
      let ips = keep (λ r. r.device_name == device) records in
      let found = lookup-select_loop d device (by_device-NodupKeys records [] tt) in
      let same = lookup_or-by_device records [] device h in
      rw found (elim (Option-cases (lookup device d)) [
        | inl e ↦
            let empty : ips ≡ [] = sym same ∙ ground (arith, e) in
            rw (e, empty)
              (unfold Chosen ChosenPrimary ChosenBmc in (λ s m. absurd m, λ s m. absurd m))
        | inr (mine, e) ↦
            let whole : ips ≡ mine = sym same ∙ ground (arith, e) in
            rw (e, whole) (kept-Chosen device mine)
      ])
