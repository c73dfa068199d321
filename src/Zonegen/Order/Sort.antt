-- ===== src/Zonegen/Order/Sort.antt =====
-- The sort is canonical: what it gives depends on which records there are, not on their order.
use coredns_netbox.Base.{
  ◌≡◌, refl, sym, ap, ◌∙◌, Bool, true, false, List, [], ◌∷◌, map, arith, ltb, Eq, nat_eq,
}
use coredns_netbox.Base.Text.{Text, text_eq, text_lt}
use coredns_netbox.Record.{IpRecord}
use mathlib.Core.Path.{ap₂}
use mathlib.Core.List.{Permᴰ}
use coredns_netbox.Zonegen.Order.{by_field, record_less, insert_by, sort_by, sort_records}

pub text_lt_irrefl : (s : Text) → text_lt s s ≡ false
unfolding text_lt
text_lt_irrefl [] = refl
text_lt_irrefl (a ∷ s) = ground (arith, text_lt_irrefl s)

pub text_lt_trans : (s t u : Text) → text_lt s t ≡ true → text_lt t u ≡ true → text_lt s u ≡ true
unfolding text_lt
text_lt_trans s [] u h k = cc
text_lt_trans s (b ∷ t) [] h k = cc
text_lt_trans [] (b ∷ t) (c ∷ u) h k = refl
text_lt_trans (a ∷ s) (b ∷ t) (c ∷ u) h k = ground (arith, text_lt_trans s t u)

pub text_lt-total : (s t : Text) → text_lt s t ≡ false → text_lt t s ≡ false → s ≡ t
unfolding text_lt
text_lt-total [] [] h k = refl
text_lt-total [] (b ∷ t) h k = cc
text_lt-total (a ∷ s) [] h k = cc
text_lt-total (a ∷ s) (b ∷ t) h k = ground (arith, text_lt-total s t)

-- A record without the two fields that zone files do not show.
abbrev pub shown : IpRecord → IpRecord
shown r = record r { source = []; applied_at = 0 }

-- A strict order, and what two values share that it does not tell apart.
record IsStrict {ℓ κ} {R : Type ℓ} (less : R → R → Bool) (Same : R → R → Type κ)
    : Type (ℓ ⊔ κ) where
  irrefl : (a : R) → less a a ≡ false
  trans : (a b c : R) → less a b ≡ true → less b c ≡ true → less a c ≡ true
  total : (a b : R) → less a b ≡ false → less b a ≡ false → Same a b

text_strict : IsStrict text_lt (λ s t. s ≡ t)
text_strict = record { irrefl = text_lt_irrefl; trans = text_lt_trans; total = text_lt-total }

nat_strict : IsStrict ltb (λ a b. a ≡ b)
nat_strict = record {
  irrefl = λ a. ground arith;
  trans = λ a b c h k. ground arith;
  total = λ a b h k. ground arith;
}

module _ {R A : Type 0} ⦃e : Eq A⦄ (f : R → A) {lt : A → A → Bool} {rest : R → R → Bool}
    {Same : R → R → Type 0} (s : IsStrict lt (λ a b. a ≡ b)) (r : IsStrict rest Same) where
  by_field_trans :
      (a b c : R)
      → by_field f lt rest a b ≡ true
      → by_field f lt rest b c ≡ true
      → by_field f lt rest a c ≡ true
  unfolding by_field
  by_field_trans a b c h k =
      ground (arith, r.trans a b c, s.trans (f a) (f b) (f c), s.irrefl (f a), s.irrefl (f b))

  by_field-total :
      (a b : R)
      → by_field f lt rest a b ≡ false
      → by_field f lt rest b a ≡ false
      → (f a ≡ f b) × Same a b
  unfolding by_field
  by_field-total a b h k = ground (arith, r.total a b, s.total (f a) (f b))

  by_field-strict : IsStrict (by_field f lt rest) (λ a b. (f a ≡ f b) × Same a b)
  by_field-strict = record {
    irrefl = λ a. unfold by_field in ground (arith, r.irrefl a);
    trans = by_field_trans;
    total = by_field-total;
  }

abbrev SameFields : IpRecord → IpRecord → Type 0
SameFields a b =
    (a.dns_name ≡ b.dns_name)
    × ((a.address ≡ b.address)
        × ((a.family ≡ b.family)
            × ((a.type ≡ b.type)
                × ((a.cname_target ≡ b.cname_target)
                    × ((a.device_name ≡ b.device_name)
                        × ((a.interface_name ≡ b.interface_name)
                            × ((a.vrf ≡ b.vrf) × (a.ttl ≡ b.ttl))))))))

ttl_strict : IsStrict (λ (a b : IpRecord). ltb a.ttl b.ttl) (λ a b. a.ttl ≡ b.ttl)
ttl_strict = record {
  irrefl = λ a. ground arith;
  trans = λ a b c h k. ground arith;
  total = λ a b h k. ground arith;
}

fields_strict : IsStrict record_less SameFields
unfolding record_less
fields_strict =
    by_field-strict (λ r. r.dns_name) text_strict
      (by_field-strict (λ r. r.address) text_strict
        (by_field-strict (λ r. r.family) nat_strict
          (by_field-strict (λ r. r.type) text_strict
            (by_field-strict (λ r. r.cname_target) text_strict
              (by_field-strict (λ r. r.device_name) text_strict
                (by_field-strict (λ r. r.interface_name) text_strict
                  (by_field-strict (λ r. r.vrf) text_strict ttl_strict)))))))

shown_of_SameFields : (a b : IpRecord) → SameFields a b → shown a ≡ shown b
shown_of_SameFields a b h = ground arith

record_less-IsStrict : IsStrict record_less (λ a b. shown a ≡ shown b)
record_less-IsStrict = record {
  irrefl = fields_strict.irrefl;
  trans = fields_strict.trans;
  total = λ a b h k. shown_of_SameFields a b (fields_strict.total a b h k);
}

insert_sorted_comm :
    (a b : IpRecord) (l : List IpRecord)
    → insert_by record_less (shown a) (insert_by record_less (shown b) l)
      ≡ insert_by record_less (shown b) (insert_by record_less (shown a) l)
unfolding insert_by
insert_sorted_comm a b [] = ground (
  arith,
  record_less-IsStrict.total (shown a) (shown b),
  record_less-IsStrict.trans (shown a) (shown b) (shown a),
  record_less-IsStrict.irrefl (shown a),
)
insert_sorted_comm a b (c ∷ l) = ground (
  arith,
  insert_sorted_comm a b l,
  record_less-IsStrict.total (shown a) (shown b),
  record_less-IsStrict.irrefl (shown a),
  record_less-IsStrict.trans (shown a) (shown b) (shown a),
  record_less-IsStrict.trans c (shown a) (shown b),
  record_less-IsStrict.trans c (shown b) (shown a),
)

less-shown : (a b : IpRecord) → record_less (shown a) (shown b) ≡ record_less a b
unfolding record_less by_field
less-shown a b = refl

insert_shown :
    (a : IpRecord) (l : List IpRecord)
    → map shown (insert_by record_less a l) ≡ insert_by record_less (shown a) (map shown l)
unfolding insert_by
insert_shown a [] = refl
insert_shown a (b ∷ l) = ground (arith, less-shown b a, insert_shown a l)

pub map-sort_records : (l : List IpRecord) → map shown (sort_records l) ≡ sort_records (map shown l)
unfolding sort_records
map-sort_records [] = refl
map-sort_records (a ∷ l) =
    insert_shown a (sort_by record_less l)
    ∙ ap (insert_by record_less (shown a)) (map-sort_records l)

sort_shown_perm :
    {xs ys : List IpRecord}
    → Permᴰ xs ys
    → sort_records (map shown xs) ≡ sort_records (map shown ys)
unfolding sort_records
sort_shown_perm Permᴰ.nil = refl
sort_shown_perm (Permᴰ.cons e p) =
    ap₂ (λ x l. insert_by record_less (shown x) l) e (sort_shown_perm p)
sort_shown_perm (Permᴰ.swap {a = a} {b = b} {l = l} e f) =
    insert_sorted_comm a b (sort_by record_less (map shown l))
    ∙ ap₂
        (λ x y.
          insert_by record_less (shown x)
            (insert_by record_less (shown y) (sort_by record_less (map shown l))))
        f e
sort_shown_perm (Permᴰ.trans p q) = sort_shown_perm p ∙ sort_shown_perm q

-- The sorted records show the same fields whatever the order in which they were given.
pub sort_records-perm :
    {xs ys : List IpRecord}
    → Permᴰ xs ys
    → map shown (sort_records xs) ≡ map shown (sort_records ys)
sort_records-perm {xs} {ys} p = map-sort_records xs ∙ sort_shown_perm p ∙ sym (map-sort_records ys)
