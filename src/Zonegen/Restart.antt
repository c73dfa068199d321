-- ===== src/Zonegen/Restart.antt =====
-- What a new generator of internal/zonegen/generator.go takes over from the zone file on disk:
-- `readSerialFromZoneFile`, `ParseSerial` and `NewGenerator`.
pub mod Serials
pub mod Hashes
pub mod Scan
pub mod Resume
use coredns_netbox.Base.{
  ℕ, zero, suc, ◌+◌, ◌-◌, ◌*◌, Bool, true, false, not, ◌&&◌, ◌||◌, Option, none, some, List, [],
  ◌∷◌, arith, if◌then◌else◌, ltb, leb, ◌==◌, nat_eq, contains,
}
use coredns_netbox.Base.Text.{Text, codes, text_eq, has_prefix}
use coredns_netbox.Zonegen.Serial.{u32_mod}
use coredns_netbox.Zonegen.Render.{SoaTimers, ZoneConfig, default_soa_timers}
use coredns_netbox.Zonegen.Generator.{Generator, read_verified_content_hash}

abbrev pub is_digit : ℕ → Bool
is_digit c = leb b'0' c && leb c b'9'

-- `\s`
abbrev pub is_space : ℕ → Bool
is_space c = c == 32 || c == 9 || c == 10 || c == 12 || c == 13

unfoldable pub skip_spaces : Text → Text
skip_spaces [] = []
skip_spaces (c ∷ s) = let rest = skip_spaces s in if is_space c then rest else c ∷ s

-- `\d{n}`: the number that the digits spell behind `acc`, and the rest of the text.
unfoldable pub exact_digits : ℕ → ℕ → Text → Option (ℕ × Text)
exact_digits zero acc s = some (acc, s)
exact_digits (suc n) acc [] = none
exact_digits (suc n) acc (c ∷ s) =
    let rest = exact_digits n (acc * 10 + (c - 48)) s in if is_digit c then rest else none

-- `;\s*serial`
abbrev pub serial_mark : Text → Bool
serial_mark [] = false
serial_mark (c ∷ s) = c == b';' && has_prefix (skip_spaces s) (codes "serial")

abbrev pub marked_serial : Option (ℕ × Text) → Option ℕ
marked_serial none = none
marked_serial (some (v, s)) = if serial_mark (skip_spaces s) then some v else none

-- `serialRegex`; the match begins at the start of the line.
unfoldable pub match_serial : Text → Option ℕ
unfolding skip_spaces exact_digits
match_serial line = marked_serial (exact_digits 10 0 (skip_spaces line))

-- `strings.Contains`
unfoldable pub has_text : Text → Text → Bool
has_text [] part = part == []
has_text (c ∷ s) part = has_prefix (c ∷ s) part || has_text s part

-- `strconv.ParseUint(s, 10, 32)` on digits
abbrev pub parse_serial : ℕ → Option ℕ
parse_serial v = if ltb v u32_mod then some v else none

-- The loop of `readSerialFromZoneFile`; `none` is its error.
unfoldable pub scan_serial : Bool → List Text → Option ℕ
scan_serial in_soa [] = none
scan_serial in_soa (line ∷ rest) =
    let after = scan_serial true rest in
    let same = scan_serial in_soa rest in
    if has_text line (codes "IN SOA")
    then after
    else if not in_soa
    then same
    else elim (match_serial line) [
      | some v ↦ parse_serial v
      | none ↦ if contains line b')' then none else same
    ]

unfoldable pub read_serial : List Text → Option ℕ
unfolding scan_serial
read_serial = scan_serial false

-- `cfg.SOA == (SOATimers{})`
abbrev pub is_zero_soa : SoaTimers → Bool
is_zero_soa s = s.refresh == 0 && s.retry == 0 && s.expire == 0 && s.minimum == 0

abbrev pub with_default_soa : ZoneConfig → ZoneConfig
with_default_soa c = if is_zero_soa c.soa then record c { soa = default_soa_timers } else c

module _ (sha : Text → Text) where
  abbrev hash_or_empty : Option Text → Text
  hash_or_empty none = []
  hash_or_empty (some h) = h

  -- `NewGenerator` over the file at `zonePath`, which may not exist.
  unfoldable pub new_generator : ZoneConfig → Option (List Text) → Generator
  new_generator c none = record {
    config = with_default_soa c;
    last_hash = [];
    serial = 0;
    hash_from_file = false;
  }
  new_generator c (some lines) =
      let hash = hash_or_empty (read_verified_content_hash sha lines) in
      record {
        config = with_default_soa c;
        last_hash = hash;
        serial = elim (read_serial lines) [ none ↦ 0 | some v ↦ v ];
        hash_from_file = not (hash == []);
      }
