-- ===== src/Zonegen/Order.antt =====
-- The order of the records in internal/zonegen/generator.go, and the sort by it. `sort.Slice` is an
-- insertion sort here: records that it may leave in another order agree on every field compared.
pub mod Sort
pub mod Members
use coredns_netbox.Base.{Bool, not, List, [], ◌∷◌, arith, if◌then◌else◌, ltb, Eq, ◌==◌, nat_eq}
use coredns_netbox.Base.Text.{text_eq, text_lt}
use coredns_netbox.Record.{IpRecord}

-- `if a.F != b.F { return a.F < b.F }`, and what follows it.
unfoldable pub by_field {ℓ κ} :
    {R : Type ℓ} {A : Type κ} ⦃e : Eq A⦄ (f : R → A) (lt : A → A → Bool) (rest : R → R → Bool)
    → R
    → R
    → Bool
by_field f lt rest a b = if not (f a == f b) then lt (f a) (f b) else rest a b

-- `recordLess`
unfoldable pub record_less : IpRecord → IpRecord → Bool
record_less =
    by_field (λ r. r.dns_name) text_lt
      (by_field (λ r. r.address) text_lt
        (by_field (λ r. r.family) ltb
          (by_field (λ r. r.type) text_lt
            (by_field (λ r. r.cname_target) text_lt
              (by_field (λ r. r.device_name) text_lt
                (by_field (λ r. r.interface_name) text_lt
                  (by_field (λ r. r.vrf) text_lt (λ a b. ltb a.ttl b.ttl))))))))

module _ {ℓ} {A : Type ℓ} (less : A → A → Bool) where
  unfoldable pub insert_by : A → List A → List A
  insert_by a [] = a ∷ []
  insert_by a (b ∷ l) = let rest = insert_by a l in if less b a then b ∷ rest else a ∷ b ∷ l

  unfoldable pub sort_by : List A → List A
  unfolding insert_by
  sort_by [] = []
  sort_by (a ∷ l) = insert_by a (sort_by l)

-- The copy that is sorted, in `Generate` and in `hashRecords`.
unfoldable pub sort_records : List IpRecord → List IpRecord
unfolding sort_by
sort_records = sort_by record_less
