-- ===== src/Client/Tests.antt =====
-- Runs of the NetBox client of internal/netboxclient/client.go.
use coredns_netbox.Base.{
  ℕ, ◌+◌, ◌-◌, ◌*◌, ◌^◌, ◌≤◌, ◌≡◌, refl, false, Option, none, some, List, [], ◌∷◌, map, arith,
  if◌then◌else◌, ◌==◌, nat_eq, length, take, drop, contains,
}
use coredns_netbox.Base.Text.{Text, codes, text_eq, has_prefix}
use coredns_netbox.Record.{IpItem, ip_item_to_record, auth_header}
use coredns_netbox.Client.{
  Client, Query, IpListResponse, new_client, trim_slashes, fetch_page, fetch_once, Calls, records,
  fetch_ip_addresses, retry_delay, shift_of,
}
use coredns_netbox.Client.Pages.{Pages, fetch_once-Pages}
use coredns_netbox.Client.Retries.{fetch-first_success, retry_delay_bounds, retry_delay_overflow}

abbrev item : Text → IpItem
item a = record { address = a; dns_name = codes "a.lab"; vrf = none; assigned_object = none }

abbrev items : List IpItem
items = item (codes "10.0.0.1/24") ∷ item (codes "10.0.0.2/24") ∷ item (codes "10.0.0.3/24") ∷ []

abbrev second : ℕ
second = 10 ^ 9

-- Pages of two items, three retries, from one second to thirty.
abbrev client : Client
client = record {
  base_url = codes "https://netbox";
  token = codes "t";
  page_size = 2;
  retry_count = 3;
  retry_base_delay = second;
  retry_max_delay = 30 * second;
  publish_statuses = codes "active" ∷ [];
}

-- A NetBox that lists the items under the status "active", and nothing under any other.
abbrev paged : Query → Option IpListResponse
paged q =
    let listed = if contains q.statuses (codes "active") then items else [] in
    if q.authorization == codes "Token t"
    then some (record { count = length listed; results = take q.limit (drop q.offset listed) })
    else none

paged-Pages : Pages items paged client
unfolding Pages nat_eq text_eq auth_header has_prefix
paged-Pages = λ offset limit. refl

new_client_run :
    new_client some (codes "https://netbox//") (codes "t") 2 3 second (30 * second) ≡ some client
unfolding new_client trim_slashes nat_eq text_eq
new_client_run = refl

fetch_once-Pages_example : fetch_once paged client ≡ some (map ip_item_to_record items)
fetch_once-Pages_example = fetch_once-Pages items paged client (omega arith) paged-Pages

-- The server fails in the first attempt.
abbrev late : Calls
late = record { server = λ k q. if k == 0 then none else paged q; cancelled = λ k. false }

fetch-first_success_example : fetch_ip_addresses late client ≡ records (map ip_item_to_record items)
unfolding fetch_once fetch_page nat_eq
fetch-first_success_example =
    fetch-first_success late client 1 (map ip_item_to_record items) (omega arith)
      (λ j h. let first : j ≡ 0 = omega (arith, h) in rw first refl) (λ j p q. refl)
      fetch_once-Pages_example

retry_delay_bounds_example :
    (4 * second - second ≤ retry_delay (λ n. 0) client 3)
    × (retry_delay (λ n. 0) client 3 ≤ 4 * second + second)
unfolding shift_of
retry_delay_bounds_example =
    retry_delay_bounds (λ n. 0) client 3 (λ n h. h) (omega arith) (omega arith)

retry_delay_overflow_run : retry_delay (λ n. 0) client 35 ≡ 0
unfolding shift_of
retry_delay_overflow_run = retry_delay_overflow (λ n. 0) client 35 (omega arith)
