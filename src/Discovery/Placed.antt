-- ===== src/Discovery/Placed.antt =====
-- internal/zonediscovery: which records the loops of the discoverers place in which zone.
use coredns_netbox.Base.{
  ℕ, ◌-◌, ◌≤◌, ◌≡◌, refl, sym, ◌∙◌, inl, inr, Bool, true, ◌&&◌, Option, none, some, List, [], ◌∷◌,
  ◌++◌, append_assoc, append-nil, arith, if◌then◌else◌, leb, Option-cases, ◌==◌, nat_eq, length,
  drop, keep, length-drop,
}
use coredns_netbox.Base.Text.{Text, text_eq, join, dot}
use coredns_netbox.Base.Dict.{lookup_or, lookup-insert}
use coredns_netbox.Record.{IpRecord}
use coredns_netbox.Base.Words.{IsUnder, join-drop-IsUnder}
use coredns_netbox.Merge.{ZoneMap}
use coredns_netbox.Discovery.{place, place_all, undot, labels_of, depth_zone, zone_depth}

-- The records that the loop places in a zone, in the order of the input.
unfoldable pub placed_in :
    (IpRecord → Option (Text × IpRecord)) → Text → List IpRecord → List IpRecord
placed_in f zone [] = []
placed_in f zone (r ∷ rs) =
    let rest = placed_in f zone rs in
    elim (f r) [ none ↦ rest | some (z, s) ↦ if zone == z then s ∷ rest else rest ]

pub lookup_or-place_all :
    (f : IpRecord → Option (Text × IpRecord)) (zone : Text) (rs : List IpRecord) (zm : ZoneMap)
    → lookup_or [] zone (place_all f rs zm) ≡ lookup_or [] zone zm ++ placed_in f zone rs
unfolding place_all placed_in
lookup_or-place_all f zone [] zm = sym (append-nil (lookup_or [] zone zm))
lookup_or-place_all f zone (r ∷ rs) zm = elim (Option-cases (f r)) [
  | inl e ↦ rw (e, place_all, placed_in) (lookup_or-place_all f zone rs zm)
  | inr ((z, s), e) ↦ ground (
    arith,
    e,
    lookup_or-place_all f zone rs (place z s zm),
    lookup-insert zone z (lookup_or [] z zm ++ s ∷ []) zm,
    append_assoc (lookup_or [] z zm) (s ∷ []) (placed_in f z rs),
  )
]

abbrev pub deep_enough : ℕ → Text → Bool
deep_enough depth name = leb depth (length (labels_of name))

-- The last `depth` labels of a name.
abbrev pub last_labels : ℕ → Text → Text
last_labels depth name = join (drop (length (labels_of name) - depth) (labels_of name)) dot

placed_in-depth_zone :
    (depth : ℕ) (zone : Text) (rs : List IpRecord)
    → placed_in (depth_zone depth) zone rs
      ≡ keep (λ r. deep_enough depth r.dns_name && zone == last_labels depth r.dns_name) rs
unfolding placed_in depth_zone
placed_in-depth_zone depth zone [] = refl
placed_in-depth_zone depth zone (r ∷ rs) = ground (arith, placed_in-depth_zone depth zone rs)

-- With a depth of two labels or more, discovery by depth succeeds, and a zone has exactly the
-- records whose names have so many labels and end with it, in the order of the input.
pub zone_depth-keep :
    (depth : ℕ) (rs : List IpRecord)
    → 2 ≤ depth
    → (zm : ZoneMap) × (zone_depth depth rs ≡ some zm)
      × ((zone : Text)
          → lookup_or [] zone zm
            ≡ keep (λ r. deep_enough depth r.dns_name && zone == last_labels depth r.dns_name) rs)
unfolding zone_depth
zone_depth-keep depth rs h = (
  place_all (depth_zone depth) rs [],
  ground (arith, h),
  λ zone. lookup_or-place_all (depth_zone depth) zone rs [] ∙ placed_in-depth_zone depth zone rs,
)

le_of_leb : {a b : ℕ} → leb a b ≡ true → a ≤ b
le_of_leb h = ground (arith, h)

-- With a depth of two or more, the zone that a name of so many labels gets is one that the name lies under.
pub last_labels-IsUnder :
    (depth : ℕ) (name : Text)
    → 2 ≤ depth
    → deep_enough depth name ≡ true
    → IsUnder (last_labels depth name) (undot name)
last_labels-IsUnder depth name lo h =
    let n = length (labels_of name) in
    join-drop-IsUnder (undot name) (n - depth)
      (omega (arith, lo, le_of_leb h, length-drop (n - depth) (labels_of name)))
