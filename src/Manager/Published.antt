-- ===== src/Manager/Published.antt =====
-- Which zone files a successful `Update` of internal/zonemanager/manager.go leaves.
use coredns_netbox.Base.{
  ◌≡◌, refl, ◌∙◌, false, not, ◌&&◌, ◌||◌, List, [], ◌∷◌, arith, ◌==◌, nat_eq, contains,
}
use coredns_netbox.Base.Text.{Text, text_eq, text_lt}
use coredns_netbox.Base.Dict.{keys, lookup_or, has_key, lookup-insert}
use coredns_netbox.Record.{IpRecord}
use coredns_netbox.Merge.{ZoneMap}
use coredns_netbox.Zonegen.Order.{sort_by}
use coredns_netbox.Zonegen.Order.Members.{contains-sort_by}
use coredns_netbox.Zonegen.Generator.{generate}
use coredns_netbox.Zonegen.Restart.{new_generator}
use coredns_netbox.Zonegen.Restart.Hashes.{GivesDigests}
use coredns_netbox.Zonegen.Restart.Resume.{generate_new}
use coredns_netbox.Manager.{
  Settings, no_stats, Manager, World, generator_for, store_zone, update_zone, update_zones, update,
}
use coredns_netbox.Manager.Loops.{IsHealthy, remove_orphans-has_key, contains-keys}

-- Every generator has its file. It holds of a new manager.
pub record IsBacked (m : Manager) : Type 0 where
  pub backed : (z : Text) → (has_key z m.generators && not (has_key z m.files)) ≡ false

module _ (sha : Text → Text) (cfg : Settings) (digests : GivesDigests sha) where
  pub generator_for_new :
      (z : Text) (m : Manager)
      → has_key z m.generators ≡ false
      → has_key z m.files ≡ false
      → (generator_for sha cfg z m).last_hash ≡ []
  unfolding generator_for new_generator
  generator_for_new z m h k = ground arith

  module _ (w : World) (ok : IsHealthy w) where
    has_key-update_zone :
        (z y : Text) (rs : List IpRecord) (m : Manager)
        → IsBacked m
        → (has_key z (update_zone sha cfg w y rs m).files ≡ (has_key z m.files || z == y))
          × (has_key z (update_zone sha cfg w y rs m).generators
              ≡ (has_key z m.generators || z == y))
          × ((update_zone sha cfg w y rs m).failed ≡ m.failed)
    unfolding update_zone store_zone
    has_key-update_zone z y rs m b =
        let g = generator_for sha cfg y m in
        ground (
          arith,
          ok.writes y,
          b.backed y,
          generator_for_new y m,
          generate_new sha (w.now y) rs g digests,
          lookup-insert z y (generate sha (w.now y) rs g).0 m.files,
          lookup-insert z y (generate sha (w.now y) rs g).3 m.generators,
        )

    update_zone-IsBacked :
        (y : Text) (rs : List IpRecord) (m : Manager)
        → IsBacked m
        → IsBacked (update_zone sha cfg w y rs m)
    update_zone-IsBacked y rs m b = record {
      backed = λ z. ground (arith, has_key-update_zone z y rs m b, b.backed z);
    }

    has_key-update_zones :
        (zones : ZoneMap) (z : Text) (ys : List Text) (m : Manager)
        → IsBacked m
        → m.failed ≡ false
        → (has_key z (update_zones sha cfg w zones ys m).files
            ≡ (has_key z m.files || contains ys z))
          × (has_key z (update_zones sha cfg w zones ys m).generators
              ≡ (has_key z m.generators || contains ys z))
          × ((update_zones sha cfg w zones ys m).failed ≡ false)
    unfolding update_zones
    has_key-update_zones zones z [] m b fine = ground arith
    has_key-update_zones zones z (y ∷ ys) m b fine =
        let rs = lookup_or [] y zones in
        let m' = update_zone sha cfg w y rs m in
        let (f, g, e) = has_key-update_zone z y rs m b in
        let (f', g', e') =
          has_key-update_zones zones z ys m' (update_zone-IsBacked y rs m b) (e ∙ fine) in
        ground arith

    -- Where no file operation fails, every generator of the manager has its file and SHA-256 gives
    -- digests of 64 hexadecimal digits, `Update` returns no error, and the zone files and the generators
    -- it leaves are those of the zones of its map: none is missing and none is left over.
    pub update_publishes :
        (zones : ZoneMap) (m : Manager)
        → IsBacked m
        → ((update sha cfg w zones m).failed ≡ false)
          × ((z : Text) → has_key z (update sha cfg w zones m).files ≡ has_key z zones)
          × ((z : Text) → has_key z (update sha cfg w zones m).generators ≡ has_key z zones)
    unfolding update
    update_publishes zones m b =
        let start : Manager = record m { stats = no_stats; failed = false } in
        let sorted = sort_by text_lt (keys zones) in
        let b' : IsBacked start = record { backed = b.backed } in
        let m' = update_zones sha cfg w zones sorted start in
        let step = λ (z : Text). has_key-update_zones zones z sorted start b' refl in
        let clean = λ (z : Text). remove_orphans-has_key w zones ok z m' ((step z).2) in
        let listed =
          λ (z : Text). contains-sort_by text_lt z (keys zones) ∙ contains-keys z zones in
        (
          ground (arith, step [], clean []),
          λ z. ground (arith, step z, clean z, listed z),
          λ z. ground (arith, step z, clean z, listed z),
        )
