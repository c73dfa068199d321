-- ===== src/Publish/Tests.antt =====
-- A run of `Write` of internal/merge/merge.go.
use coredns_netbox.Base.{◌≡◌, ◌≢◌, true, none, nat_eq}
use coredns_netbox.Base.Text.{text_eq}
use coredns_netbox.Base.Dict.{has_key}
use coredns_netbox.Publish.{write, write_publishes}
use coredns_netbox.Manager.Tests.{
  settings, healthy, healthy-IsHealthy, over_old, over_old-IsBacked, polled,
}
use coredns_netbox.Samples.{sample_store, sample_sha, sample_sha-is_digest, lab}

write_publishes_example :
    ((write sample_sha settings healthy polled sample_store none over_old).0 ≢ none)
    × (has_key lab (write sample_sha settings healthy polled sample_store none over_old).1.files
        ≡ true)
unfolding text_eq
write_publishes_example =
    write_publishes sample_sha settings healthy polled sample_store over_old lab
      sample_sha-is_digest healthy-IsHealthy over_old-IsBacked
