-- ===== src/Zonegen/Restart/Serials.antt =====
-- The SOA serial of a rendered zone is read back.
use native.Mathlib.Nat.{pow-suc}
use coredns_netbox.Base.{
  ℕ, zero, suc, ◌+◌, ◌-◌, ◌*◌, ◌/◌, ◌%◌, ◌^◌, ◌≤◌, ◌<◌, ◌≡◌, refl, ap, ◌∙◌, ◌⊎◌, Bool, true, false,
  ◌||◌, none, some, List, [], ◌∷◌, ◌++◌, append_assoc, arith, nat_eq, contains,
}
use coredns_netbox.Base.Text.{Text, codes, text_eq, has_prefix}
use coredns_netbox.Zonegen.Render.{decimal, decimal_fuel, serial_line}
use coredns_netbox.Zonegen.Restart.{
  is_digit, skip_spaces, exact_digits, marked_serial, match_serial, scan_serial,
}

exact_digits-snoc :
    (n acc : ℕ) (s : Text) (v c : ℕ) (rest : Text)
    → exact_digits n acc s ≡ some (v, c ∷ rest)
    → is_digit c ≡ true
    → exact_digits (suc n) acc s ≡ some (v * 10 + (c - 48), rest)
unfolding exact_digits
exact_digits-snoc zero acc [] v c rest h d = cc
exact_digits-snoc zero acc (b ∷ s) v c rest h d = ground arith
exact_digits-snoc (suc n) acc [] v c rest h d = cc
exact_digits-snoc (suc n) acc (b ∷ s) v c rest h d =
    ground (arith, exact_digits-snoc n (acc * 10 + (b - 48)) s v c rest)

-- The digits of a number with `k + 1` digits are read back in front of any text.
exact_digits-decimal_fuel :
    (k f n : ℕ) (rest : Text)
    → 10 ^ k ≤ n
    → n < 10 ^ suc k
    → n < f
    → exact_digits (suc k) 0 (decimal_fuel f n ++ rest) ≡ some (n, rest)
unfolding decimal_fuel
exact_digits-decimal_fuel k zero n rest lo hi fuel = absurd (omega arith)
exact_digits-decimal_fuel zero (suc f) n rest lo hi fuel = unfold exact_digits in ground arith
exact_digits-decimal_fuel (suc k) (suc f) n rest lo hi fuel = ground (
  arith,
  pow-suc 10 k,
  pow-suc 10 (suc k),
  append_assoc (decimal_fuel f (n / 10)) ((48 + n % 10) ∷ []) rest,
  exact_digits-decimal_fuel k f (n / 10) ((48 + n % 10) ∷ rest),
  exact_digits-snoc (suc k) 0 (decimal_fuel f (n / 10) ++ (48 + n % 10) ∷ rest) (n / 10)
      (48 + n % 10) rest,
)

skip_spaces-digits :
    (n acc : ℕ) (s : Text) (p : ℕ × Text) → exact_digits (suc n) acc s ≡ some p → skip_spaces s ≡ s
unfolding exact_digits skip_spaces
skip_spaces-digits n acc [] p h = cc
skip_spaces-digits n acc (c ∷ s) p h = ground arith

match_indented :
    (t : Text) (v : ℕ)
    → exact_digits 10 0 t ≡ some (v, codes "   ; serial")
    → match_serial (codes "    " ++ t) ≡ some v
unfolding match_serial has_prefix nat_eq
match_indented t v h =
    ap (λ u. marked_serial (exact_digits 10 0 u))
      (skip_spaces-digits 9 0 t (v, codes "   ; serial") h)
    ∙ ap marked_serial h

-- A serial of ten digits is read back from its line.
pub match_serial-serial_line :
    (s : ℕ) → 10 ^ 9 ≤ s → s < 10 ^ 10 → match_serial (serial_line s) ≡ some s
unfolding serial_line decimal
match_serial-serial_line s lo hi =
    match_indented (decimal_fuel (suc s) s ++ codes "   ; serial") s
      (exact_digits-decimal_fuel 9 (suc s) s (codes "   ; serial") lo hi (omega arith))

-- A line that neither ends the SOA record nor is its serial.
pub record IsQuiet (line : Text) : Type 0 where
  pub open_paren : contains line b')' ≡ false
  pub no_serial : match_serial line ≡ none

-- The scan passes it, whichever way its flag stands.
pub scan_quiet :
    (line : Text) (rest : List Text) (v : ℕ)
    → IsQuiet line
    → ((b : Bool) → scan_serial b rest ≡ some v)
    → (b : Bool) → scan_serial b (line ∷ rest) ≡ some v
unfolding scan_serial
scan_quiet line rest v q h b = ground (arith, h true, h b)

pub contains-append :
    (xs ys : Text) (a : ℕ) → contains (xs ++ ys) a ≡ (contains xs a || contains ys a)
contains-append [] ys a = refl
contains-append (x ∷ xs) ys a = ground (arith, contains-append xs ys a)

pub contains-decimal_fuel :
    (f n a : ℕ) → (a < 48) ⊎ (57 < a) → contains (decimal_fuel f n) a ≡ false
unfolding decimal_fuel
contains-decimal_fuel zero n a h = refl
contains-decimal_fuel (suc f) n a h = ground (
  arith,
  contains-decimal_fuel f (n / 10) a h,
  contains-append (decimal_fuel f (n / 10)) ((48 + n % 10) ∷ []) a,
)
