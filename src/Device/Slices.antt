-- ===== src/Device/Slices.antt =====
-- sort.Slice as internal/ipcategorizer/categorizer.go calls it, with the orders that it sorts by.
use coredns_netbox.Base.{
  ◌≡◌, ap, ◌↔◌, inl, inr, Bool, true, false, List, ◌∷◌, arith, Bool-cases, nat_eq, In,
}
use coredns_netbox.Base.Text.{Text, text_eq, text_lt}
use coredns_netbox.Record.{IpRecord}
use coredns_netbox.Zonegen.Order.Sort.{text_lt_irrefl, text_lt_trans, text_lt-total}
use coredns_netbox.Device.Category.{SortSlice, by_interface}

-- A strict weak order, as sort.Slice asks of `less`.
pub record IsStrictWeak (less : IpRecord → IpRecord → Bool) : Type 0 where
  pub asymmetric : (r s : IpRecord) → less r s ≡ true → less s r ≡ false
  pub not_before : (r s t : IpRecord) → less r s ≡ false → less s t ≡ false → less r t ≡ false

-- What sort.Slice does: the result has the elements of the slice, and if `less` is a strict weak
-- order, none is before the first one.
pub record SortsSlices (sort : SortSlice) : Type 0 where
  pub same :
      (less : IpRecord → IpRecord → Bool) (l : List IpRecord) (r : IpRecord)
      → In r (sort less l) ↔ In r l
  pub first :
      (less : IpRecord → IpRecord → Bool) (l rest : List IpRecord) (r s : IpRecord)
      → IsStrictWeak less
      → sort less l ≡ r ∷ rest
      → In s rest
      → less s r ≡ false

text_lt-asymmetric : (a b : Text) → text_lt a b ≡ true → text_lt b a ≡ false
text_lt-asymmetric a b h = elim (Bool-cases (text_lt b a)) [
  | inr e ↦ e
  | inl e ↦ absurd (ground (arith, text_lt_irrefl a, text_lt_trans a b a h e))
]

-- What is not before the first of two names is not before an earlier one.
text_lt-not_before :
    (s b a : Text) → text_lt s b ≡ false → text_lt b a ≡ false → text_lt s a ≡ false
text_lt-not_before s b a h k = elim (Bool-cases (text_lt s a)) [
  | inr e ↦ e
  | inl e ↦ elim (Bool-cases (text_lt a b)) [
    | inl e2 ↦ absurd (ground (arith, h, text_lt_trans s a b e e2))
    | inr e2 ↦ absurd (ground (arith, h, e, ap (λ t. text_lt s t) (text_lt-total a b e2 k)))
  ]
]

pub by_interface-IsStrictWeak : IsStrictWeak by_interface
unfolding by_interface
by_interface-IsStrictWeak = record {
  asymmetric = λ r s h. text_lt-asymmetric r.interface_name s.interface_name h;
  not_before =
      λ r s t h k. text_lt-not_before r.interface_name s.interface_name t.interface_name h k;
}
