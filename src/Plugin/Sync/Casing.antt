-- ===== src/Plugin/Sync/Casing.antt =====
-- ServeDNS of coredns/plugins/netboxreload/plugin.go looks the lower-case name up in a map whose keys
-- are origins as the file names spell them.
use coredns_netbox.Base.{◌≡◌, refl, sym, ◌≢◌, inl, inr, some, [], ◌∷◌, ◌++◌, arith, nat_eq}
use coredns_netbox.Base.Text.{Text, text_eq, to_lower, dot}
use coredns_netbox.Base.Words.{IsUnder}
use coredns_netbox.Plugin.{Dns, Zone, find_zone}
use coredns_netbox.Plugin.Finding.{Finds, find_zone-Finds}
use coredns_netbox.Plugin.Reload.{Loaded}
use coredns_netbox.Plugin.Sync.{InStep}

to_lower_twice : (s : Text) → to_lower (to_lower s) ≡ to_lower s
unfolding to_lower
to_lower_twice [] = refl
to_lower_twice (c ∷ s) = ground (arith, to_lower_twice s)

lower_append : (p s : Text) → to_lower (p ++ s) ≡ p ++ s → to_lower s ≡ s
unfolding to_lower
lower_append [] s h = h
lower_append (c ∷ p) s h = lower_append p s (ground (arith, h))

lower_origin : (o q : Text) → IsUnder o (to_lower q) → to_lower o ≡ o
unfolding IsUnder
lower_origin o q (inl e) = rw (sym e) (to_lower_twice q)
lower_origin o q (inr (p, e, _)) =
    lower_append (dot ∷ []) o (lower_append p (dot ∷ o) (rw (sym e) (to_lower_twice q)))

-- Over maps that are in step, a zone whose origin has a letter in upper case answers no query.
pub upper_zone_unserved :
    (dns : Dns) (l : Loaded) (z : Zone) (q : Text)
    → InStep dns l
    → to_lower z.origin ≢ z.origin
    → find_zone l.zones (to_lower q) ≢ some z
unfolding Finds
upper_zone_unserved dns l z q i upper h =
    let (o, under, eo, _) = rw h at (find_zone-Finds l.zones (to_lower q)) in
    let (f, c, _, _, same) = i.from_file o z eo in upper (rw same (lower_origin o q under))
