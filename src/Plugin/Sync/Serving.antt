-- ===== src/Plugin/Sync/Serving.antt =====
-- reloadZones of coredns/plugins/netboxreload/plugin.go: what is served after a reload.
use coredns_netbox.Base.{
  suc, ◌≡◌, refl, sym, ap, ◌∙◌, ◌⊎◌, inl, inr, false, none, some, [], ◌∷◌, arith, Bool-cases,
  Option-cases, ◌==◌, nat_eq, ==_iff, ==_refl, length,
}
use coredns_netbox.Base.Text.{Text, text_eq}
use coredns_netbox.Base.Dict.{Dict, lookup, erase, NodupKeys, lookup-erase}
use coredns_netbox.Plugin.{Dns, Zone}
use coredns_netbox.Plugin.Reload.{
  CachedZone, Loaded, Result, done, load_failed, nil_zone, Source, load,
}
use coredns_netbox.Plugin.Swap.{Plugin, other_zone, any_other, changed, swap, reload_zones}
use coredns_netbox.Plugin.Sync.{Documented, InStep}
use coredns_netbox.Plugin.Sync.Loading.{IsUndotted, Loading, load-Loading}

erase_absent {κ} : {V : Type κ} (k : Text) (d : Dict Text V) → lookup k d ≡ none → erase k d ≡ d
erase_absent k [] h = refl
erase_absent k ((j, w) ∷ d) h = ground (arith, h, erase_absent k d)

length-erase {κ} :
    {V : Type κ} (k : Text) (v : V) (d : Dict Text V)
    → NodupKeys d
    → lookup k d ≡ some v
    → suc (length (erase k d)) ≡ length d
length-erase k v [] u h = absurd (ground (arith, h))
length-erase k v ((j, w) ∷ d) (fresh, u) h = elim (Bool-cases (k == j)) [
  | inl e ↦ rw (e, erase_absent k d (rw ((==_iff k j).0 e) fresh)) refl
  | inr e ↦ ground (arith, e, length-erase k v d u, h)
]

erase-NodupKeys {κ} :
    {V : Type κ} (k : Text) (d : Dict Text V) → NodupKeys d → NodupKeys (erase k d)
erase-NodupKeys k [] u = tt
erase-NodupKeys k ((j, w) ∷ d) (fresh, u) =
    ground (arith, erase-NodupKeys k d u, lookup-erase j k d, fresh)

-- A map within another of the same size is the other.
pub same_size {κ} :
    {V : Type κ} (d e : Dict Text V)
    → NodupKeys d
    → NodupKeys e
    → length d ≡ length e
    → ((k : Text) (v : V) → lookup k d ≡ some v → lookup k e ≡ some v)
    → (k : Text) → lookup k d ≡ lookup k e
same_size [] [] ud ue el h k = refl
same_size [] (_ ∷ e) ud ue el h k = absurd (omega (arith, el))
same_size ((j, v) ∷ d) e (fresh, ud) ue el h k =
    let there = h j v (rw (==_refl j) refl) in
    let ih =
      same_size d (erase j e) ud (erase-NodupKeys j e ue)
        (omega (arith, el, length-erase j v e ue there))
        (λ i w hi. ground (arith, hi, fresh, h i w, lookup-erase i j e)) k in
    ground (arith, ih, lookup-erase k j e, there)

-- With no entry that differs, each new one is an old one.
any_other_old :
    (old new : Dict Text CachedZone) (f : Text) (c : CachedZone)
    → any_other old new ≡ false
    → lookup f new ≡ some c
    → other_zone old f c ≡ false
unfolding any_other
any_other_old old [] f c h e = absurd (ground (arith, e))
any_other_old old ((g, d) ∷ new) f c h e = elim (Bool-cases (f == g)) [
  | inl same ↦
      let entry : c ≡ d = ground (arith, same, e) in
      rw ((==_iff f g).0 same, entry) (ground (arith, h))
  | inr other_ ↦ any_other_old old new f c (ground (arith, h)) (ground (arith, e, other_))
]

same_pointer :
    (old : Dict Text CachedZone) (f : Text) (c : CachedZone)
    → other_zone old f c ≡ false
    → (o : CachedZone) × (lookup f old ≡ some o) × (o.zone.pointer ≡ c.zone.pointer)
same_pointer old f c h = elim (Option-cases (lookup f old)) [
  | inl n ↦ absurd (ground (arith, n, h))
  | inr (o, eo) ↦ (o, eo, ground (arith, eo, h))
]

at_origin :
    (zones : Dict Text Zone) (y z : Zone) (o : Text)
    → y ≡ z
    → z.origin ≡ o
    → lookup y.origin zones ≡ some y
    → lookup o zones ≡ some z
at_origin zones y z o ey eo h =
    ap (λ j. lookup j zones) (sym eo ∙ ap (λ (x : Zone). x.origin) (sym ey)) ∙ h ∙ ap some ey

module _ (dns : Dns) (doc : Documented dns) (p : Plugin) (held : InStep dns p) (l : Loaded)
    (i : Loading dns doc p.cache p.next held.cached l) where
  -- An entry with the zone of the old one is the old one: a zone that was parsed is at a new address.
  kept_entry :
      any_other p.cache l.cache ≡ false
      → (f : Text) (c : CachedZone) → lookup f l.cache ≡ some c
      → lookup f p.cache ≡ some c
  kept_entry h f c e =
      let (o, eo, ep) = same_pointer p.cache f c (any_other_old p.cache l.cache f c h e) in
      let (_, _, lt) = held.cached f o eo in
      elim (i.fresh f c e) [ inl old ↦ old | inr new ↦ absurd (omega (arith, lt, new, ep)) ]

  unchanged_cache :
      changed p.cache l.cache ≡ false → (f : Text) → lookup f l.cache ≡ lookup f p.cache
  unfolding changed
  unchanged_cache h =
      same_size l.cache p.cache i.in_step.once held.once (ground (arith, h))
        (kept_entry (ground (arith, h)))

  -- In step with the same files, the maps of zones are the same.
  unchanged_zones :
      changed p.cache l.cache ≡ false → (o : Text) → lookup o p.zones ≡ lookup o l.zones
  unchanged_zones h o = elim (Option-cases (lookup o p.zones)) [
    | inr (z, e) ↦
        let (f, c, ec, ez, eo) = held.from_file o z e in
        let new = i.in_step.served f c (unchanged_cache h f ∙ ec) in
        e ∙ sym (at_origin l.zones c.zone z o ez eo new)
    | inl e ↦ elim (Option-cases (lookup o l.zones)) [
      | inl e2 ↦ e ∙ sym e2
      | inr (z, e2) ↦
          let (f, c, ec, ez, eo) = i.in_step.from_file o z e2 in
          let old = held.served f c (sym (unchanged_cache h f) ∙ ec) in
          absurd (ground (arith, e, at_origin p.zones c.zone z o ez eo old))
    ]
  ]

  InStep-kept : changed p.cache l.cache ≡ false → InStep dns (record l { zones = p.zones })
  InStep-kept h =
      let same = unchanged_zones h in
      record {
        once = i.in_step.once;
        cached = i.in_step.cached;
        served = λ f c e. same c.zone.origin ∙ i.in_step.served f c e;
        from_file = λ o z e. i.in_step.from_file o z (sym (same o) ∙ e);
      }

  pub InStep-swap : InStep dns (swap p l).0
  unfolding swap
  InStep-swap = elim (Bool-cases (changed p.cache l.cache)) [
    | inl e ↦ rw (e, swap) i.in_step
    | inr e ↦ rw (e, swap) (InStep-kept e)
  ]

  pub lookup-swap : (o : Text) → lookup o (swap p l).0.zones ≡ lookup o l.zones
  unfolding swap
  lookup-swap o = elim (Bool-cases (changed p.cache l.cache)) [
    | inl e ↦ rw (e, swap) refl
    | inr e ↦ rw (e, swap) (unchanged_zones e o)
  ]

Result-cases {ℓ} :
    {A : Type ℓ} (r : Result A) → ((a : A) × (r ≡ done a)) ⊎ ((r ≡ load_failed) ⊎ (r ≡ nil_zone))
Result-cases (done a) = inl (a, refl)
Result-cases load_failed = inr (inl refl)
Result-cases nil_zone = inr (inr refl)

module _ (dns : Dns) (doc : Documented dns) where
  -- Where Fqdn is as documented and no name of the source ends with a dot, a reload, whatever it ends with, keeps the zones
  -- that are served in step with the cache.
  pub reload_zones-InStep :
      (source : Source) (p : Plugin)
      → IsUndotted source
      → InStep dns p
      → InStep dns (reload_zones dns source p).0
  unfolding reload_zones
  reload_zones-InStep source p u held = elim (Result-cases (load dns source p.cache p.next)) [
    | inl (l, h) ↦
        rw (h, reload_zones)
          (InStep-swap dns doc p held l
            (load-Loading dns doc p.cache p.next held.cached source l u h))
    | inr (inl h) ↦ rw (h, reload_zones) held
    | inr (inr h) ↦ rw (h, reload_zones) held
  ]

  -- Where Fqdn is as documented, no name of the source ends with a dot, and the load gives zones, a reload over maps that
  -- are in step serves exactly those zones, also where it finds the cache unchanged and keeps the
  -- old map.
  pub reload_zones-serves :
      (source : Source) (p : Plugin) (l : Loaded)
      → IsUndotted source
      → InStep dns p
      → load dns source p.cache p.next ≡ done l
      → (o : Text) → lookup o (reload_zones dns source p).0.zones ≡ lookup o l.zones
  unfolding reload_zones
  reload_zones-serves source p l u held h o =
      rw (h, reload_zones)
        (lookup-swap dns doc p held l (load-Loading dns doc p.cache p.next held.cached source l u h)
          o)
