-- ===== src/Zonegen/Serial.antt =====
-- internal/zonegen/serial.go: the next SOA serial, as a function of the clock.
use coredns_netbox.Base.{
  ℕ, ◌+◌, ◌-◌, ◌*◌, ◌%◌, ◌^◌, ◌≤◌, ◌<◌, ◌≡◌, ◌≢◌, ◌⊎◌, ◌&&◌, arith, if◌then◌else◌, ltb, leb, nat_eq,
}
use coredns_netbox.Base.Text.{text_eq}

abbrev pub u32_mod : ℕ
u32_mod = 2 ^ 32

abbrev pub max_serial_drift : ℕ
max_serial_drift = 365 * 24 * 60 * 60

-- `NextSerial` at `now` seconds since the epoch. `current - ts` is taken only where it is positive.
unfoldable pub next_serial : ℕ → ℕ → ℕ
next_serial now current =
    let ts = now % u32_mod in
    if ltb ts current && ltb max_serial_drift (current - ts)
    then ts
    else if leb ts current
    then (current + 1) % u32_mod
    else ts

-- RFC 1982: a secondary that holds `a` takes `b` for newer.
abbrev pub Newer : ℕ → ℕ → Type 0
Newer a b = (0 < (b + u32_mod - a) % u32_mod) × ((b + u32_mod - a) % u32_mod < 2 ^ 31)

-- The next serial is a uint32 and never the current one.
pub next_serial_fresh :
    (now current : ℕ)
    → current < u32_mod
    → (next_serial now current < u32_mod) × (next_serial now current ≢ current)
unfolding next_serial
next_serial_fresh now current h = ground arith

-- Where the current serial is at most a year ahead of the clock and less than 2^31 behind it, every
-- secondary takes the next serial for newer, also across the wrap of uint32.
pub next_serial-Newer :
    (now current : ℕ)
    → current < u32_mod
    → current ≤ now % u32_mod + max_serial_drift
    → now % u32_mod < current + 2 ^ 31
    → Newer current (next_serial now current)
unfolding next_serial
next_serial-Newer now current h drift behind = ground arith

-- A serial more than a year ahead of the clock is given up for the clock's, and any other one goes
-- at most one second further ahead.
pub next_serial_drift :
    (now current : ℕ)
    → current + 1 < u32_mod
    → ((now % u32_mod + max_serial_drift < current) × (next_serial now current ≡ now % u32_mod))
      ⊎ ((current < next_serial now current)
          × ((next_serial now current ≡ current + 1) ⊎ (next_serial now current ≡ now % u32_mod)))
unfolding next_serial
next_serial_drift now current h = ground arith
