-- ===== src/Reloader.antt =====
-- internal/reloader/reloader.go: the notification of the CoreDNS instances, and the addresses that are
-- still to be notified.
pub mod Dirty
mod Tests
use coredns_netbox.Base.{
  ℕ, zero, suc, ◌+◌, Bool, true, false, not, List, [], ◌∷◌, arith, if◌then◌else◌, nat_eq, keep,
  contains,
}
use coredns_netbox.Base.Text.{Text, text_eq}

-- `addrs`, the number of `RetryDelays`, and the map `dirty`.
pub record Reloader : Type 0 where
  pub addrs : List Text
  pub retries : ℕ
  pub dirty : List Text

-- What happens to the pushes to each address: whether attempt `k` succeeds, and whether the context is
-- done while the reloader waits behind it.
pub record Network : Type 0 where
  pub answers : Text → ℕ → Bool
  pub cancelled : Text → ℕ → Bool

-- `New`
abbrev pub new_reloader : List Text → Reloader
new_reloader addrs = record { addrs = addrs; retries = 3; dirty = [] }

-- The loop of `reloadOne` from attempt `k` on, with the retries that are left.
unfoldable pub reload_one : Network → Text → ℕ → ℕ → Bool
reload_one w addr zero k = w.answers addr k
reload_one w addr (suc left) k =
    let again = reload_one w addr left (k + 1) in
    if w.answers addr k then true else if w.cancelled addr k then false else again

-- `pushDirty`: an address that was reached is clean.
unfoldable pub push_dirty : Network → Reloader → Reloader
push_dirty w r = record r { dirty = keep (λ addr. not (reload_one w addr r.retries 0)) r.dirty }

-- `r.dirty[addr] = true` for each address.
unfoldable pub mark_all : List Text → List Text → List Text
mark_all [] dirty = dirty
mark_all (addr ∷ rest) dirty = mark_all rest (if contains dirty addr then dirty else addr ∷ dirty)

unfoldable pub reload : Network → Reloader → Reloader
reload w r = push_dirty w (record r { dirty = mark_all r.addrs r.dirty })

unfoldable pub reconcile : Network → Reloader → Reloader
reconcile = push_dirty
