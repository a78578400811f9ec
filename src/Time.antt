-- ===== src/Time.antt =====
-- `datetime`, in microseconds since `datetime.min`.
use coffee_buddy.Prelude.{ℕ, suc, ◌+◌, ◌-◌, ◌*◌, Option, none, some, leb, if◌then◌else◌}
use coffee_buddy.Number.{ℤ, pos, negsuc, ◌-ℤ◌}

-- `datetime.max`
abbrev pub latest_time : ℕ
latest_time = 315537897599999999

-- `tzinfo` is the offset from UTC at this time, or `None`.
pub record DateTime : Type 0 where
  pub ticks : ℕ
  pub tzinfo : Option ℤ

abbrev pub utc : ℕ → DateTime
utc t = record { ticks = t; tzinfo = some (pos 0) }

-- `t - timedelta(...)`; `none` is the `OverflowError`.
unfoldable pub minus : ℕ → ℤ → Option ℕ
minus t (pos n) = if leb n t then some (t - n) else none
minus t (negsuc n) = if leb (t + suc n) latest_time then some (t + suc n) else none

-- What a time is in UTC, before any check of its range; a naive time counts as UTC.
abbrev pub instant : DateTime → ℤ
instant d = elim d.tzinfo [ none ↦ pos d.ticks | some offset ↦ pos d.ticks -ℤ offset ]

abbrev pub minute : ℕ
minute = 60 * 1000000

abbrev pub second : ℕ
second = 1000000
