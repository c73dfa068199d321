-- ===== src/Webhook/Settled.antt =====
-- What an event does to the record of each name, for `apply` of internal/netboxwebhook/handler.go.
use coredns_netbox.Base.{
  ◌≡◌, refl, ◌∙◌, ◌⊎◌, inl, inr, Bool, true, false, not, ◌&&◌, Option, none, some, List, [], ◌∷◌,
  arith, if◌then◌else◌, ltb, Bool-cases, Option-cases, ◌==◌, nat_eq, if_of_both,
}
use coredns_netbox.Base.Text.{Text, text_eq}
use coredns_netbox.Base.Dict.{lookup_or}
use coredns_netbox.Record.{IpRecord, is_webhook}
use coredns_netbox.Merge.{Discoverer}
use coredns_netbox.Store
use coredns_netbox.Store.{Zones, Fault, FileStore, get_records, upsert_records, delete_records}
use coredns_netbox.Store.Upsert.{find_name}
use coredns_netbox.Store.Effects.{view, IsWellFormed}
use coredns_netbox.Store.View.{Op, run_op, run_op-IsWellFormed, run_op-promised}
use coredns_netbox.Webhook.{
  Shared, Faults, pinned_in, is_manually_pinned, admits, delete_name, upsert_record, delete_error,
  upsert_error, upsert_guarded, zone_for, drop_name, write_new,
}

-- A record that came from NetBox goes, one that was added by hand stays.
abbrev pub without_webhook : Option IpRecord → Option IpRecord
without_webhook none = none
without_webhook (some r) = if is_webhook r then none else some r

-- A record replaces an older one that came from NetBox.
abbrev pub newer : IpRecord → Option IpRecord → Option IpRecord
newer rec none = some rec
newer rec (some r) = if is_webhook r && ltb r.applied_at rec.applied_at then some rec else some r

pinned_in-find_name :
    (n : Text) (rs : List IpRecord)
    → pinned_in n rs ≡ elim (find_name n rs) [ none ↦ false | some r ↦ not (is_webhook r) ]
unfolding pinned_in
pinned_in-find_name n [] = refl
pinned_in-find_name n (r ∷ rs) = ground (arith, pinned_in-find_name n rs)

admits-find_name :
    (rec : IpRecord) (rs : List IpRecord)
    → admits rec rs ≡ elim (find_name rec.dns_name rs) [
      | none ↦ true
      | some r ↦ is_webhook r && ltb r.applied_at rec.applied_at
    ]
unfolding admits
admits-find_name rec [] = refl
admits-find_name rec (r ∷ rs) = ground (arith, admits-find_name rec rs)

abbrev pub seen : Shared → Text → Text → Option IpRecord
seen s z n = view s.store.data_zones z n

abbrev pub IsSound : Shared → Type 0
IsSound s = IsWellFormed s.store.data_zones

pub delete_name-IsSound :
    (w : Faults) (zone name : Text) (s : Shared) → IsSound s → IsSound (delete_name w zone name s)
unfolding delete_name run_op
delete_name-IsSound w zone name s h =
    run_op-IsWellFormed (Op.delete_records zone (name ∷ [])) (w name) s.store h

upsert_record-IsSound :
    (w : Faults) (zone : Text) (rec : IpRecord) (s : Shared)
    → IsSound s
    → IsSound (upsert_record w zone rec s)
unfolding upsert_record run_op
upsert_record-IsSound w zone rec s h =
    run_op-IsWellFormed (Op.upsert_records zone (rec ∷ [])) (w rec.dns_name) s.store h

pub seen-delete_name :
    (w : Faults) (zone name : Text) (s : Shared) (z n : Text)
    → IsSound s
    → seen (delete_name w zone name s) z n ≡ (if z == zone && n == name then none else seen s z n)
unfolding delete_name run_op
seen-delete_name w zone name s z n h =
    run_op-promised (Op.delete_records zone (name ∷ [])) (w name) s.store z n h ∙ ground arith

seen-upsert_record :
    (w : Faults) (zone : Text) (rec : IpRecord) (s : Shared) (z n : Text)
    → IsSound s
    → seen (upsert_record w zone rec s) z n
      ≡ (if z == zone && n == rec.dns_name then some rec else seen s z n)
unfolding upsert_record run_op
seen-upsert_record w zone rec s z n h =
    run_op-promised (Op.upsert_records zone (rec ∷ [])) (w rec.dns_name) s.store z n h
    ∙ ground arith

-- No write to disk fails.
abbrev pub NoFault : Faults → Type 0
NoFault w = (n : Text) → w n ≡ none

pub delete_error-none :
    (w : Faults) (zone name : Text) (s : Shared) → NoFault w → delete_error w zone name s ≡ none
unfolding delete_records Store.persist
delete_error-none w zone name s ok = ground (arith, ok name)

upsert_error-none :
    (w : Faults) (zone : Text) (rec : IpRecord) (s : Shared)
    → NoFault w
    → upsert_error w zone rec s ≡ none
unfolding upsert_records Store.persist
upsert_error-none w zone rec s ok = ground (arith, ok rec.dns_name)

module _ (disc : Discoverer) where
  -- The name `name` belongs to zone `z`, and is `n`.
  abbrev pub hits : Text → Text → Text → Bool
  hits name z n = elim (zone_for disc name) [ none ↦ false | some zone ↦ z == zone && n == name ]

  -- What the removal and the offer of a record do to the record of `n` in `z`.
  abbrev pub forgotten : Text → Text → Text → Option IpRecord → Option IpRecord
  forgotten name z n old = if hits name z n then without_webhook old else old

  abbrev pub offered : IpRecord → Text → Text → Option IpRecord → Option IpRecord
  offered rec z n old = if hits rec.dns_name z n then newer rec old else old

  module _ (w : Faults) where
    drop_name-cases :
        (name : Text) (s : Shared)
        → ((drop_name disc w name s).0 ≡ s)
          ⊎ ((zone : Text) × ((drop_name disc w name s).0 ≡ delete_name w zone name s))
    unfolding drop_name
    drop_name-cases name s = elim (Option-cases (zone_for disc name)) [
      | inl h ↦ inl (ground (arith, h))
      | inr (zone, h) ↦ elim (Bool-cases (is_manually_pinned zone name s)) [
        | inl k ↦ inl (ground (arith, h, k))
        | inr k ↦ inr (zone, ground (arith, h, k))
      ]
    ]

    pub drop_name-IsSound :
        (name : Text) (s : Shared) → IsSound s → IsSound (drop_name disc w name s).0
    drop_name-IsSound name s h = elim (drop_name-cases name s) [
      | inl e ↦ rw e h
      | inr (zone, e) ↦ rw e (delete_name-IsSound w zone name s h)
    ]

    pub seen-drop_name :
        (name : Text) (s : Shared) (z n : Text)
        → IsSound s
        → seen (drop_name disc w name s).0 z n ≡ forgotten name z n (seen s z n)
    unfolding drop_name is_manually_pinned get_records
    seen-drop_name name s z n h = elim (Option-cases (zone_for disc name)) [
      | inl e ↦ ground (arith, e)
      | inr (zone, e) ↦ ground (
        arith,
        e,
        pinned_in-find_name name (lookup_or [] zone s.store.data_zones),
        seen-delete_name w zone name s z n h,
      )
    ]

    upsert_guarded-eq :
        (zone : Text) (rec : IpRecord) (s : Shared)
        → (upsert_guarded w zone rec s).0
          ≡ (if admits rec (get_records zone s.store) then upsert_record w zone rec s else s)
    unfolding upsert_guarded
    upsert_guarded-eq zone rec s = ground arith

    upsert_guarded-IsSound :
        (zone : Text) (rec : IpRecord) (s : Shared)
        → IsSound s
        → IsSound (upsert_guarded w zone rec s).0
    upsert_guarded-IsSound zone rec s h = rw (upsert_guarded-eq zone rec s) (
        if_of_both IsSound (admits rec (get_records zone s.store))
          (upsert_record-IsSound w zone rec s h) h)

    seen-upsert_guarded :
        (zone : Text) (rec : IpRecord) (s : Shared) (z n : Text)
        → IsSound s
        → seen (upsert_guarded w zone rec s).0 z n
          ≡ (if z == zone && n == rec.dns_name then newer rec (seen s z n) else seen s z n)
    unfolding upsert_guarded get_records
    seen-upsert_guarded zone rec s z n h = ground (
      arith,
      admits-find_name rec (lookup_or [] zone s.store.data_zones),
      seen-upsert_record w zone rec s z n h,
    )

    pub write_new-IsSound :
        (rec : IpRecord) (mutated : Bool) (s : Shared)
        → IsSound s
        → IsSound (write_new disc w rec mutated s).0
    unfolding write_new
    write_new-IsSound rec mutated s h = elim (Option-cases (zone_for disc rec.dns_name)) [
      | inl e ↦ ground (arith, e, h)
      | inr (zone, e) ↦ ground (arith, e, upsert_guarded-IsSound zone rec s h)
    ]

    pub seen-write_new :
        (rec : IpRecord) (mutated : Bool) (s : Shared) (z n : Text)
        → IsSound s
        → seen (write_new disc w rec mutated s).0 z n ≡ offered rec z n (seen s z n)
    unfolding write_new
    seen-write_new rec mutated s z n h = elim (Option-cases (zone_for disc rec.dns_name)) [
      | inl e ↦ ground (arith, e)
      | inr (zone, e) ↦ ground (arith, e, seen-upsert_guarded zone rec s z n h)
    ]
