-- ===== src/Reloader/Tests.antt =====
-- Runs of the reloader of internal/reloader/reloader.go.
use coredns_netbox.Base.{◌≡◌, refl, true, false, [], ◌∷◌, arith, ltb, nat_eq, contains}
use coredns_netbox.Base.Text.{Text, codes, text_eq}
use coredns_netbox.Reloader.{Reloader, Network, new_reloader, reload_one, reload, reconcile}
use coredns_netbox.Reloader.Dirty.{contains-reload, reconcile_cleans}

-- The second attempt is the first that succeeds.
abbrev late : Network
late = record { answers = λ a k. ltb 0 k; cancelled = λ a k. false }

abbrev closed : Network
closed = record { answers = λ a k. false; cancelled = λ a k. false }

abbrev dns1 : Text
dns1 = codes "dns1:8053"

abbrev pending : Reloader
pending = record (new_reloader (dns1 ∷ [])) { dirty = dns1 ∷ [] }

contains-reload_run :
    (contains (reload closed (new_reloader (dns1 ∷ []))).dirty dns1 ≡ true)
    × (contains (reconcile closed (new_reloader (dns1 ∷ []))).dirty dns1 ≡ false)
unfolding text_eq reload_one
contains-reload_run = contains-reload closed (new_reloader (dns1 ∷ [])) dns1

reconcile_cleans_example : contains (reconcile late pending).dirty dns1 ≡ false
reconcile_cleans_example = reconcile_cleans late pending dns1 1 (omega arith) refl (λ j. refl)
