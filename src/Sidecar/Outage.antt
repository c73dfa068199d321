-- ===== src/Sidecar/Outage.antt =====
-- The rounds of cmd/sidecar/main.go while NetBox cannot be reached.
use coredns_netbox.Base.{◌≡◌, true, false, none, List, [], ◌∷◌, nat_eq}
use coredns_netbox.Base.Text.{text_eq}
use coredns_netbox.Manager.{has_existing_zones}
use coredns_netbox.Sidecar.{Deployment, Round, Trigger, Sidecar}

-- NetBox cannot be reached in any of the rounds.
abbrev pub IsOutage : List (Trigger × Round) → Type 0
IsOutage [] = Unit
IsOutage ((_, r) ∷ rest) = (r.fetched ≡ none) × IsOutage rest

module _ {F : Type 0} (d : Deployment F) where
  -- The zones on disk stand guarded: no fetch has succeeded, and there are zone files.
  record IsGuarded (s : Sidecar) : Type 0 where
    unfetched : s.fetch_succeeded_once ≡ false
    cached : has_existing_zones s.manager ≡ true
