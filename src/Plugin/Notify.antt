-- ===== src/Plugin/Notify.antt =====
-- coredns/plugins/netboxreload: the NOTIFYs behind a reload (sendNotifies of notify.go, and its call in
-- reloadZones). package transfer is a parameter: what it answers for a zone.
use coredns_netbox.Base.{
  ◌≡◌, refl, sym, ap, ◌≢◌, ◌↔◌, inl, inr, Bool, true, Option, none, some, List, [], ◌∷◌, arith,
  Bool-cases, nat_eq, contains,
}
use coredns_netbox.Base.Text.{Text, text_eq}
use coredns_netbox.Base.Dict.{Dict, lookup, NodupKeys}
use coredns_netbox.Plugin.{Dns, Zone}
use coredns_netbox.Plugin.Reload.{Source, Loaded, load, done}
use coredns_netbox.Plugin.Swap.{
  Plugin, ReloadResult, error, unchanged, crash, reloaded, serial_changed_zones, zone_serial,
  changed, swap, reload_zones,
}
use coredns_netbox.Plugin.Sync.{InStep, Documented}
use coredns_netbox.Plugin.Sync.Loading.{IsUndotted}
use coredns_netbox.Plugin.Sync.Serving.{reload_zones-serves}
use coredns_netbox.Plugin.Transfer.{serial_at, contains-serial_changed_zones}

-- A call of `Notify`, and whether it succeeded.
abbrev pub Sent : Type 0
Sent = Text × Bool

unfoldable pub send_loop : (Text → Bool) → List Text → List Sent
send_loop notify [] = []
send_loop notify (origin ∷ origins) = (origin, notify origin) ∷ send_loop notify origins

-- Without a transfer block there is nobody to notify.
unfoldable pub send_notifies : Option (Text → Bool) → List Text → List Sent
send_notifies none origins = []
send_notifies (some notify) origins = send_loop notify origins

-- What the goroutine of a reload sends.
unfoldable pub notifies : Option (Text → Bool) → ReloadResult → List Sent
notifies transfer error = []
notifies transfer unchanged = []
notifies transfer crash = []
notifies transfer (reloaded []) = []
notifies transfer (reloaded (origin ∷ origins)) = send_notifies transfer (origin ∷ origins)

abbrev pub notified : List Sent → List Text
notified [] = []
notified ((origin, _) ∷ sent) = origin ∷ notified sent

notified-send_loop : (notify : Text → Bool) (l : List Text) → notified (send_loop notify l) ≡ l
unfolding send_loop
notified-send_loop notify [] = refl
notified-send_loop notify (o ∷ l) = ap (λ k. o ∷ k) (notified-send_loop notify l)

notified-reloaded :
    (notify : Text → Bool) (l : List Text) → notified (notifies (some notify) (reloaded l)) ≡ l
unfolding notifies send_notifies
notified-reloaded notify [] = refl
notified-reloaded notify (o ∷ l) = notified-send_loop notify (o ∷ l)

-- The zone has a serial that it did not have before the reload.
abbrev pub Moved : Dict Text Zone → Dict Text Zone → Text → Type 0
Moved old current o = (serial_at current o ≢ none) × (serial_at current o ≢ serial_at old o)

module _ (dns : Dns) (doc : Documented dns) where
  -- Where Fqdn is as documented, no name of the source ends with a dot, the load gives zones, each
  -- origin once, and the maps are in step, a reload with a transfer block calls `Notify` for exactly
  -- the zones that have a serial and had another one or none before it; a call that fails keeps none
  -- of the others from being made.
  pub notified-reload_zones :
      (source : Source) (p : Plugin) (l : Loaded) (notify : Text → Bool) (o : Text)
      → IsUndotted source
      → InStep dns p
      → load dns source p.cache p.next ≡ done l
      → NodupKeys l.zones
      → (contains (notified (notifies (some notify) (reload_zones dns source p).1)) o ≡ true)
        ↔ Moved p.zones l.zones o
  unfolding reload_zones swap notifies
  notified-reload_zones source p l notify o u held h once =
      elim (Bool-cases (changed p.cache l.cache)) [
        | inl e ↦
            rw (h, reload_zones)
              (rw e (
                rw (notified-reloaded notify (serial_changed_zones p.zones l.zones))
                  (contains-serial_changed_zones p.zones l.zones o once)))
        | inr e ↦
            let serves = reload_zones-serves dns doc source p l u held h o in
            let kept : lookup o p.zones ≡ lookup o l.zones =
              rw (e, swap) at (rw (h, reload_zones) at serves) in
            let same : serial_at l.zones o ≡ serial_at p.zones o =
              ap (λ (found : Option Zone). elim found [ none ↦ none | some z ↦ zone_serial z ])
                (sym kept) in
            rw (h, reload_zones)
              (rw e ((λ c. absurd (ground (arith, c))), (λ m. absurd (m.1 same))))
      ]
