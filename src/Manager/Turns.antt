-- ===== src/Manager/Turns.antt =====
-- One turn of the loop of `Update` in internal/zonemanager/manager.go, as another zone sees it.
use coredns_netbox.Base.{ℕ, ◌≡◌, false, some, List, arith, ◌==◌, nat_eq}
use coredns_netbox.Base.Text.{Text, text_eq}
use coredns_netbox.Base.Dict.{lookup, lookup-insert}
use coredns_netbox.Record.{IpRecord}
use coredns_netbox.Zonegen.Generator.{Generator, generate}
use coredns_netbox.Manager.{Settings, Manager, World, generator_for, store_zone, update_zone}

module _ (sha : Text → Text) where
  -- A generator that has just generated a zone finds the same records unchanged.
  pub generate_again :
      (now later : ℕ) (records : List IpRecord) (g : Generator)
      → let g' = (generate sha now records g).3 in (generate sha later records g').1 ≡ false
  unfolding generate
  generate_again now later records g = ground arith

module _ (sha : Text → Text) (cfg : Settings) (zone : Text) where
  pub generator_for_same :
      (m m' : Manager)
      → lookup zone m'.files ≡ lookup zone m.files
      → lookup zone m'.generators ≡ lookup zone m.generators
      → generator_for sha cfg zone m' ≡ generator_for sha cfg zone m
  unfolding generator_for
  generator_for_same m m' h k = ground (arith, h, k)

  pub generator_for_held :
      (m : Manager) (g : Generator)
      → lookup zone m.generators ≡ some g
      → generator_for sha cfg zone m ≡ g
  unfolding generator_for
  generator_for_held m g held = ground arith

  -- The update of another zone.
  pub other_kept :
      (w : World) (y : Text) (rs : List IpRecord) (m : Manager)
      → zone == y ≡ false
      → (lookup zone (update_zone sha cfg w y rs m).files ≡ lookup zone m.files)
        × (lookup zone (update_zone sha cfg w y rs m).generators ≡ lookup zone m.generators)
  unfolding update_zone store_zone
  other_kept w y rs m other =
      let g = generator_for sha cfg y m in
      ground (
        arith,
        other,
        lookup-insert zone y (generate sha (w.now y) rs g).0 m.files,
        lookup-insert zone y (generate sha (w.now y) rs g).3 m.generators,
      )

  pub written_fine :
      (w : World) (y : Text) (rs : List IpRecord) (m : Manager)
      → w.write_fails y ≡ false
      → (update_zone sha cfg w y rs m).failed ≡ m.failed
  unfolding update_zone store_zone
  written_fine w y rs m fine = ground (arith, fine)
