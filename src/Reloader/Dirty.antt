-- ===== src/Reloader/Dirty.antt =====
-- Which addresses the reloader of internal/reloader/reloader.go still has to notify.
use coredns_netbox.Base.{
  ℕ, zero, suc, ◌+◌, ◌≤◌, ◌≡◌, refl, ap, ◌∙◌, Bool, true, false, not, ◌&&◌, ◌||◌, List, [], ◌∷◌,
  arith, nat_eq, keep, contains,
}
use coredns_netbox.Base.Text.{Text, text_eq}
use coredns_netbox.Reloader.{Reloader, Network, reload_one, push_dirty, mark_all, reload, reconcile}

zero_add : (i : ℕ) → 0 + i ≡ i
zero_add i = omega arith

add_of_zero : (k i : ℕ) → i ≤ 0 → k ≡ k + i
add_of_zero k i h = omega (arith, h)

add_suc_left : (k i : ℕ) → k + 1 + i ≡ k + suc i
add_suc_left k i = omega arith

contains-keep :
    (p : Text → Bool) (l : List Text) (a : Text) → contains (keep p l) a ≡ (contains l a && p a)
contains-keep p [] a = refl
contains-keep p (b ∷ l) a = ground (arith, contains-keep p l a)

contains-mark_all :
    (addrs dirty : List Text) (a : Text)
    → contains (mark_all addrs dirty) a ≡ (contains addrs a || contains dirty a)
unfolding mark_all
contains-mark_all [] dirty a = refl
contains-mark_all (b ∷ addrs) dirty a =
    ground (arith, contains-mark_all addrs dirty a, contains-mark_all addrs (b ∷ dirty) a)

-- An attempt that is answered is reached if nothing cancels the waits before it.
reload_one-answered :
    (w : Network) (a : Text) (left k i : ℕ)
    → i ≤ left
    → w.answers a (k + i) ≡ true
    → ((j : ℕ) → w.cancelled a j ≡ false)
    → reload_one w a left k ≡ true
unfolding reload_one
reload_one-answered w a zero k i h up c = ap (w.answers a) (add_of_zero k i h) ∙ up
reload_one-answered w a (suc left) k zero h up c = ground (arith, up)
reload_one-answered w a (suc left) k (suc i) h up c = ground (
  arith,
  c k,
  reload_one-answered w a left (k + 1) i (omega (arith, h))
      (ap (w.answers a) (add_suc_left k i) ∙ up) c,
)

-- After `Reload` an address is dirty exactly if it is configured or was dirty before, and no push to it
-- succeeded; after `Reconcile`, exactly if it was dirty and no push to it succeeded.
pub contains-reload :
    (w : Network) (r : Reloader) (a : Text)
    → (contains (reload w r).dirty a
        ≡ ((contains r.addrs a || contains r.dirty a) && not (reload_one w a r.retries 0)))
      × (contains (reconcile w r).dirty a
          ≡ (contains r.dirty a && not (reload_one w a r.retries 0)))
unfolding reload reconcile push_dirty
contains-reload w r a = ground (
  arith,
  contains-keep (λ (addr : Text). not (reload_one w addr r.retries 0)) (mark_all r.addrs r.dirty) a,
  contains-keep (λ (addr : Text). not (reload_one w addr r.retries 0)) r.dirty a,
  contains-mark_all r.addrs r.dirty a,
)

-- An address that answers one of the attempts is clean after `Reconcile`, if the context stays open.
pub reconcile_cleans :
    (w : Network) (r : Reloader) (a : Text) (i : ℕ)
    → i ≤ r.retries
    → w.answers a i ≡ true
    → ((j : ℕ) → w.cancelled a j ≡ false)
    → contains (reconcile w r).dirty a ≡ false
reconcile_cleans w r a i h up c = ground (
  arith,
  (contains-reload w r a).1,
  reload_one-answered w a r.retries 0 i h (ap (w.answers a) (zero_add i) ∙ up) c,
)
