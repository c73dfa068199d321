-- ===== src/Zonegen/Restart/Scan.antt =====
-- The lines at the top of a zone file, as `readSerialFromZoneFile` of internal/zonegen/generator.go
-- reads them.
use coredns_netbox.Base.{
  ℕ, suc, ◌^◌, ◌≤◌, ◌<◌, ◌≡◌, refl, ap, ◌∙◌, inl, inr, Bool, true, false, ◌||◌, some, List, [], ◌∷◌,
  ◌++◌, arith, nat_eq, all, contains,
}
use coredns_netbox.Base.Text.{Text, codes, text_eq, has_prefix}
use coredns_netbox.Zonegen.Serial.{u32_mod}
use coredns_netbox.Zonegen.Render.{
  ZoneConfig, ttl_line, soa_line, serial_line, decimal, decimal_fuel,
}
use coredns_netbox.Zonegen.Generator.{is_digest, content_prefix, body_prefix, is_hex}
use coredns_netbox.Zonegen.Restart.{match_serial, has_text, scan_serial}
use coredns_netbox.Zonegen.Restart.Serials.{
  IsQuiet, contains-append, contains-decimal_fuel, match_serial-serial_line,
}

contains-hex : (s : Text) → all is_hex s ≡ true → contains s b')' ≡ false
contains-hex [] h = refl
contains-hex (c ∷ s) h = ground (arith, contains-hex s)

digest_open : (h : Text) → is_digest h ≡ true → contains h b')' ≡ false
unfolding is_digest
digest_open h d = contains-hex h (ground arith)

pub content-IsQuiet : (h : Text) → is_digest h ≡ true → IsQuiet (content_prefix ++ h)
content-IsQuiet h d = record {
  open_paren = unfold nat_eq in digest_open h d;
  no_serial = unfold match_serial nat_eq in refl;
}

pub body-IsQuiet : (h : Text) → is_digest h ≡ true → IsQuiet (body_prefix ++ h)
body-IsQuiet h d = record {
  open_paren = unfold nat_eq in digest_open h d;
  no_serial = unfold match_serial nat_eq in refl;
}

pub ttl-IsQuiet : (c : ZoneConfig) → IsQuiet (ttl_line c)
ttl-IsQuiet c = record {
  open_paren =
      unfold nat_eq decimal in contains-decimal_fuel (suc c.ttl) c.ttl b')' (inl (omega arith));
  no_serial = unfold match_serial nat_eq in refl;
}

soa_line_opens : (c : ZoneConfig) → has_text (soa_line c) (codes "IN SOA") ≡ true
unfolding has_text has_prefix nat_eq
soa_line_opens c = refl

scan_opens :
    (line : Text) (rest : List Text) (b : Bool)
    → has_text line (codes "IN SOA") ≡ true
    → scan_serial b (line ∷ rest) ≡ scan_serial true rest
unfolding scan_serial
scan_opens line rest b h = ground arith

-- A line with no `I` does not open the record.
no_text : (s : Text) → contains s b'I' ≡ false → has_text s (codes "IN SOA") ≡ false
unfolding has_text has_prefix
no_text [] h = ground arith
no_text (c ∷ s) h = ground (arith, no_text s)

serial_line_plain : (s : ℕ) → contains (serial_line s) b'I' ≡ false
unfolding serial_line decimal nat_eq
serial_line_plain s =
    contains-append (decimal_fuel (suc s) s) (codes "   ; serial") b'I'
    ∙ ap (λ x. x || false) (contains-decimal_fuel (suc s) s b'I' (inr (omega arith)))

scan_serial_line :
    (line : Text) (rest : List Text) (v : ℕ)
    → has_text line (codes "IN SOA") ≡ false
    → match_serial line ≡ some v
    → v < u32_mod
    → scan_serial true (line ∷ rest) ≡ some v
unfolding scan_serial
scan_serial_line line rest v h m lt = rw (h, m) (ground arith)

-- The SOA line opens the record, and the next line holds the serial.
pub scan_soa :
    (c : ZoneConfig) (s : ℕ) (rest : List Text) (b : Bool)
    → 10 ^ 9 ≤ s
    → s < u32_mod
    → scan_serial b (soa_line c ∷ serial_line s ∷ rest) ≡ some s
scan_soa c s rest b lo hi =
    scan_opens (soa_line c) (serial_line s ∷ rest) b (soa_line_opens c)
    ∙ scan_serial_line (serial_line s) rest s (no_text (serial_line s) (serial_line_plain s))
        (match_serial-serial_line s lo (omega arith)) hi

-- The first line is read with the flag down.
pub scan_first :
    (line : Text) (rest : List Text) (v : ℕ)
    → ((b : Bool) → scan_serial b rest ≡ some v)
    → scan_serial false (line ∷ rest) ≡ some v
unfolding scan_serial
scan_first line rest v h = ground (arith, h true, h false)
