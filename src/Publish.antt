-- ===== src/Publish.antt =====
-- `Write` of internal/merge/merge.go: the zones of NetBox and of the store are merged and handed to the
-- zone manager.
mod Tests
use coredns_netbox.Base.{
  ◌+◌, ◌-◌, ◌≡◌, ◌∙◌, ◌≢◌, Bool, ◌||◌, Option, none, some, arith, if◌then◌else◌, ltb, nat_eq,
}
use coredns_netbox.Base.Text.{Text, text_eq}
use coredns_netbox.Base.Dict.{has_key}
use coredns_netbox.Merge.{ZoneMap, Discoverer, merged_zones}
use coredns_netbox.Merge.Shadow.{has_key-merged_zones}
use coredns_netbox.Store.{FileStore}
use coredns_netbox.Zonegen.Restart.Hashes.{GivesDigests}
use coredns_netbox.Manager.{Settings, Manager, World, update}
use coredns_netbox.Manager.Loops.{IsHealthy}
use coredns_netbox.Manager.Published.{IsBacked, update_publishes}

module _ (sha : Text → Text) (cfg : Settings) where
  -- Whether a zone file changed, or an error, beside the manager.
  unfoldable pub write :
      World → ZoneMap → FileStore → Option Discoverer → Manager → Option Bool × Manager
  write w netbox store reverse_disc m =
      let m' = update sha cfg w (merged_zones netbox store reverse_disc) m in
      (
        if m'.failed
            then none
            else some (ltb 0 (m'.stats.created + m'.stats.updated + m'.stats.deleted)),
        m',
      )

  -- Without a reverse discoverer, where no file operation fails, every generator of the manager has its
  -- file and SHA-256 gives digests of 64 hexadecimal digits, `Write` returns no error, and a zone has a
  -- file after it exactly if NetBox or the store of dynamic records has that zone.
  pub write_publishes :
      (w : World) (netbox : ZoneMap) (store : FileStore) (m : Manager) (z : Text)
      → GivesDigests sha
      → IsHealthy w
      → IsBacked m
      → ((write w netbox store none m).0 ≢ none)
        × (has_key z (write w netbox store none m).1.files
            ≡ (has_key z store.data_zones || has_key z netbox))
  unfolding write
  write_publishes w netbox store m z d ok b =
      let (fine, files, _) = update_publishes sha cfg d w ok (merged_zones netbox store none) m b in
      (ground (arith, fine), files z ∙ has_key-merged_zones netbox store z)
