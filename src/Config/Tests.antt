-- ===== src/Config/Tests.antt =====
-- Runs of internal/config/config.go.
use coredns_netbox.Base.{◌≡◌, refl, none, some, [], ◌∷◌, contains}
use coredns_netbox.Base.Text.{Text, codes, text_eq, split, to_lower}
use coredns_netbox.Client.{Client}
use coredns_netbox.Config.{
  trim_left, trim_right, collect_statuses, parse_publish_statuses, trim_zones, parse_zone_list,
}
use coredns_netbox.Config.Statuses.{Judged, set_publish_statuses-Judged}

abbrev value : Text
value = codes "DHCP, active,,dhcp"

parse_run : parse_publish_statuses value ≡ some (codes "dhcp" ∷ codes "active" ∷ [])
unfolding parse_publish_statuses text_eq trim_right trim_left coredns_netbox.Base.nat_eq
    collect_statuses split to_lower
parse_run = refl

unknown_run : parse_publish_statuses (codes "active,activ") ≡ none
unfolding parse_publish_statuses text_eq trim_right trim_left coredns_netbox.Base.nat_eq
    collect_statuses split to_lower
unknown_run = refl

commas_run : parse_publish_statuses (codes ",") ≡ none
unfolding parse_publish_statuses text_eq trim_right trim_left coredns_netbox.Base.nat_eq
    collect_statuses split to_lower
commas_run = refl

zones_run : parse_zone_list (codes "lab, ,dc1.lab") ≡ codes "lab" ∷ codes "dc1.lab" ∷ []
unfolding parse_zone_list text_eq trim_zones split coredns_netbox.Base.nat_eq trim_right trim_left
zones_run = refl

abbrev client : Client
client = record {
  base_url = codes "https://netbox";
  token = codes "t";
  page_size = 100;
  retry_count = 3;
  retry_base_delay = 1;
  retry_max_delay = 30;
  publish_statuses = codes "active" ∷ [];
}

set_publish_statuses-Judged_example : Judged value client (parse_publish_statuses value)
set_publish_statuses-Judged_example = set_publish_statuses-Judged value client
