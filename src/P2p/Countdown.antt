-- ===== src/P2p/Countdown.antt =====
-- The countdown of an order: frontend/modules/p2p/components/shared/count-down.tsx. Instants are in
-- milliseconds, and a shown time is its numbers; the printing of a number is left out.
use mmn_tx_explorer.Base.{
  ℕ, ◌+◌, ◌-◌, ◌*◌, ◌/◌, ◌%◌, ◌≤◌, ◌<◌, Bool, Option, none, some, ◌≡◌, inl, inr, arith, ltb, ◌==◌,
  if◌then◌else◌, Bool-cases, ==_iff,
}

-- `Expired!`, days with a clock, or a clock alone: hours, minutes and seconds.
pub data Shown : Type 0 where
  expired : Shown
  with_days : ℕ → ℕ → ℕ → ℕ → Shown
  clock : ℕ → ℕ → ℕ → Shown

-- `getMs`: none where the instant is missing or no date.
abbrev pub get_ms : ℕ → Option ℕ → ℕ
get_ms now none = 0
get_ms now (some expires) = expires - now

unfoldable pub fmt : ℕ → Shown
fmt ms =
    let sec = ms / 1000 in
    let days = sec / 86400 in
    if ms == 0
    then expired
    else (if ltb 0 days
        then with_days days (sec % 86400 / 3600) (sec % 3600 / 60) (sec % 60)
        else clock (sec / 3600) (sec % 3600 / 60) (sec % 60))

-- The seconds that a shown time stands for.
abbrev pub seconds : Shown → ℕ
seconds expired = 0
seconds (with_days d h m s) = d * 86400 + h * 3600 + m * 60 + s
seconds (clock h m s) = h * 3600 + m * 60 + s

-- The numbers of a clock are those of a day, an hour and a minute.
abbrev pub IsClock : Shown → Type 0
IsClock expired = Unit
IsClock (with_days d h m s) = (1 ≤ d) × (h < 24) × (m < 60) × (s < 60)
IsClock (clock h m s) = (h < 24) × (m < 60) × (s < 60)

-- The `setInterval` callback: the time left, and whether the interval goes on.
unfoldable pub tick : ℕ → Option ℕ → ℕ × Bool
tick now expires = (get_ms now expires, ltb 0 (get_ms now expires))

seconds_of_clock : (n : ℕ) → n / 3600 * 3600 + n % 3600 / 60 * 60 + n % 60 ≡ n
seconds_of_clock n = omega arith

seconds_of_days :
    (n : ℕ) → n / 86400 * 86400 + n % 86400 / 3600 * 3600 + n % 3600 / 60 * 60 + n % 60 ≡ n
seconds_of_days n = omega arith

-- What is shown of a time left stands for its whole seconds, and it is a proper time of day after its
-- days, which are shown where there is at least one.
pub fmt_lem : (ms : ℕ) → (seconds (fmt ms) ≡ ms / 1000) × IsClock (fmt ms)
unfolding fmt
fmt_lem ms = elim (Bool-cases (ms == 0)) [
  | inl e ↦ rw (fmt, e) (omega (arith, (==_iff ms 0).0 e), tt)
  | inr e ↦ elim (Bool-cases (ltb 0 (ms / 1000 / 86400))) [
    | inl f ↦
        rw (fmt, e, f)
          (seconds_of_days (ms / 1000), (ground arith, omega arith, omega arith, omega arith))
    | inr f ↦
        rw (fmt, e, f) (seconds_of_clock (ms / 1000), (ground arith, omega arith, omega arith))
  ]
]
