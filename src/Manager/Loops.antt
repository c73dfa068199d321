-- ===== src/Manager/Loops.antt =====
-- The loops of `Update` and `removeOrphans` of internal/zonemanager/manager.go, seen from one zone.
use coredns_netbox.Base.{
  ℕ, ◌≡◌, refl, Bool, true, false, not, ◌&&◌, ◌||◌, List, [], ◌∷◌, arith, nat_eq, contains,
}
use coredns_netbox.Base.Text.{Text, text_eq}
use coredns_netbox.Base.Dict.{Dict, keys, lookup, has_key, lookup-erase}
use coredns_netbox.Merge.{ZoneMap}
use coredns_netbox.Manager.{
  Manager, World, remove_generators, remove_files, scan_dir, remove_orphans, drop_zone, drop_file,
}

-- No file operation fails.
pub record IsHealthy (w : World) : Type 0 where
  pub writes : (z : Text) → w.write_fails z ≡ false
  pub removes : (z : Text) → w.remove_fails z ≡ false
  pub reads : w.read_dir_fails ≡ false

-- The counters that the removal of orphans leaves alone.
abbrev pub written_counts : Manager → ℕ × ℕ × ℕ
written_counts m = (m.stats.created, m.stats.updated, m.stats.write_errors)

-- What one zone, listed in the map that is published, keeps through a step.
pub record KeepsZone (z : Text) (m m' : Manager) : Type 0 where
  pub file : lookup z m'.files ≡ lookup z m.files
  pub generator : lookup z m'.generators ≡ lookup z m.generators
  pub counts : written_counts m' ≡ written_counts m

module _ (w : World) (zones : ZoneMap) (z : Text) (active : has_key z zones ≡ true) where
  remove_generators-KeepsZone :
      (zs : List Text) (m : Manager) → KeepsZone z m (remove_generators w zones zs m)
  unfolding remove_generators drop_zone
  remove_generators-KeepsZone [] m = record { file = refl; generator = refl; counts = refl }
  remove_generators-KeepsZone (y ∷ zs) m = ground (
    arith,
    remove_generators-KeepsZone zs m,
    remove_generators-KeepsZone zs (drop_zone y m),
    lookup-erase z y m.files,
    lookup-erase z y m.generators,
  )

  remove_files-KeepsZone :
      (zs : List Text) (m : Manager) → KeepsZone z m (remove_files w zones zs m)
  unfolding remove_files drop_file
  remove_files-KeepsZone [] m = record { file = refl; generator = refl; counts = refl }
  remove_files-KeepsZone (y ∷ zs) m = ground (
    arith,
    remove_files-KeepsZone zs m,
    remove_files-KeepsZone zs (drop_file y m),
    lookup-erase z y m.files,
  )

  scan_dir-KeepsZone : (m : Manager) → KeepsZone z m (scan_dir w zones m)
  unfolding scan_dir
  scan_dir-KeepsZone m = ground (arith, remove_files-KeepsZone (keys m.files) m)

  -- The removal of orphans touches no zone of the map.
  pub remove_orphans-KeepsZone : (m : Manager) → KeepsZone z m (remove_orphans w zones m)
  unfolding remove_orphans
  remove_orphans-KeepsZone m = ground (
    arith,
    remove_generators-KeepsZone (keys m.generators) m,
    scan_dir-KeepsZone (remove_generators w zones (keys m.generators) m),
  )

pub contains-keys {ℓ} :
    {V : Type ℓ} (z : Text) (d : Dict Text V) → contains (keys d) z ≡ has_key z d
contains-keys z [] = refl
contains-keys z ((k, v) ∷ d) = ground (arith, contains-keys z d)

module _ (w : World) (zones : ZoneMap) (ok : IsHealthy w) where
  -- What a removal leaves of a zone `z`, if nothing fails.
  record Removes (z : Text) (listed : Bool) (m m' : Manager) : Type 0 where
    file : has_key z m'.files ≡ (has_key z m.files && (has_key z zones || not listed))
    fine : m'.failed ≡ m.failed

  remove_generators-Removes :
      (z : Text) (zs : List Text) (m : Manager)
      → Removes z (contains zs z) m (remove_generators w zones zs m)
        × (has_key z (remove_generators w zones zs m).generators
            ≡ (has_key z m.generators && (has_key z zones || not (contains zs z))))
  unfolding remove_generators drop_zone
  remove_generators-Removes z [] m = ground arith
  remove_generators-Removes z (y ∷ zs) m = ground (
    arith,
    ok.removes y,
    remove_generators-Removes z zs m,
    remove_generators-Removes z zs (drop_zone y m),
    lookup-erase z y m.files,
    lookup-erase z y m.generators,
  )

  remove_files-Removes :
      (z : Text) (zs : List Text) (m : Manager)
      → Removes z (contains zs z) m (remove_files w zones zs m)
        × ((remove_files w zones zs m).generators ≡ m.generators)
  unfolding remove_files drop_file
  remove_files-Removes z [] m = ground arith
  remove_files-Removes z (y ∷ zs) m = ground (
    arith,
    ok.removes y,
    remove_files-Removes z zs m,
    remove_files-Removes z zs (drop_file y m),
    lookup-erase z y m.files,
  )

  -- After the removal of orphans, no file and no generator is left for a zone outside the map.
  pub remove_orphans-has_key :
      (z : Text) (m : Manager)
      → m.failed ≡ false
      → (has_key z (remove_orphans w zones m).files ≡ (has_key z m.files && has_key z zones))
        × (has_key z (remove_orphans w zones m).generators
            ≡ (has_key z m.generators && has_key z zones))
        × ((remove_orphans w zones m).failed ≡ false)
  unfolding remove_orphans scan_dir
  remove_orphans-has_key z m fine =
      let m' = remove_generators w zones (keys m.generators) m in
      ground (
        arith,
        ok.reads,
        remove_generators-Removes z (keys m.generators) m,
        remove_files-Removes z (keys m'.files) m',
        contains-keys z m.generators,
        contains-keys z m'.files,
      )
