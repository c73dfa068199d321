-- ===== src/Zonegen/Order/Members.antt =====
-- What a sort leaves of the tests of membership.
use coredns_netbox.Base.{◌≡◌, refl, Bool, ◌||◌, List, [], ◌∷◌, arith, ◌==◌, nat_eq, any, contains}
use coredns_netbox.Base.Text.{Text, text_eq}
use coredns_netbox.Zonegen.Order.{sort_by, insert_by}

contains-insert_by :
    (less : Text → Text → Bool) (a z : Text) (l : List Text)
    → contains (insert_by less a l) z ≡ (z == a || contains l z)
unfolding insert_by
contains-insert_by less a z [] = refl
contains-insert_by less a z (b ∷ l) = ground (arith, contains-insert_by less a z l)

pub contains-sort_by :
    (less : Text → Text → Bool) (z : Text) (l : List Text)
    → contains (sort_by less l) z ≡ contains l z
unfolding sort_by
contains-sort_by less z [] = refl
contains-sort_by less z (a ∷ l) =
    ground (arith, contains-insert_by less a z (sort_by less l), contains-sort_by less z l)

any-insert_by :
    (less : Text → Text → Bool) (p : Text → Bool) (a : Text) (l : List Text)
    → any p (insert_by less a l) ≡ (p a || any p l)
unfolding insert_by
any-insert_by less p a [] = refl
any-insert_by less p a (b ∷ l) = ground (arith, any-insert_by less p a l)

pub any-sort_by :
    (less : Text → Text → Bool) (p : Text → Bool) (l : List Text) → any p (sort_by less l) ≡ any p l
unfolding sort_by
any-sort_by less p [] = refl
any-sort_by less p (a ∷ l) =
    ground (arith, any-insert_by less p a (sort_by less l), any-sort_by less p l)
