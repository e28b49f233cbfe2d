-- ===== src/Bpv7/DtnTime.antt =====
-- bpv7/src/dtn_time.rs: milliseconds since the DTN epoch, and what a clock shows.
use hardy.Prelude.{ℕ, ◌^◌, ◌-◌, Option, none, some, ltb, if◌then◌else◌}

pub data ℤ : Type 0 where
  pos : ℕ → ℤ
  negsuc : ℕ → ℤ

abbrev pub u64_max : ℕ
u64_max = 2 ^ 64 - 1

-- `time::OffsetDateTime`, by what is read of it: `(t - DTN_EPOCH).whole_milliseconds()` and
-- `t.nanosecond()`
pub record Instants (OffsetDateTime : Type 0) : Type 0 where
  pub whole_milliseconds : OffsetDateTime → ℤ
  pub nanosecond : OffsetDateTime → ℕ

pub record DtnTime : Type 0 where
  pub millisecs : ℕ

-- The millisecs that `saturating_from` keeps, and those that `try_from` accepts
unfoldable pub saturate : ℤ → ℕ
saturate (negsuc n) = 0
saturate (pos n) = if ltb u64_max n then u64_max else n

unfoldable pub in_range : ℤ → Option ℕ
in_range (negsuc n) = none
in_range (pos n) = if ltb u64_max n then none else some n

module _ {OffsetDateTime : Type 0} (clock : Instants OffsetDateTime) where
  unfoldable pub saturating_from : OffsetDateTime → DtnTime
  saturating_from t = record { millisecs = saturate (clock.whole_milliseconds t) }
