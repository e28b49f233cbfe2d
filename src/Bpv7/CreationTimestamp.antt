-- ===== src/Bpv7/CreationTimestamp.antt =====
-- bpv7/src/creation_timestamp.rs: creation timestamps, and how `now` issues them.
pub mod Order
pub mod Steps
pub mod Unique
use hardy.Prelude.{
  ℕ, suc, ◌+◌, ◌*◌, ◌/◌, ◌%◌, ◌^◌, min, max, Bool, true, false, ◌&&◌, ◌||◌, Option, none, some, ltb,
  ◌==◌,
}
use hardy.Bpv7.DtnTime.{Instants, DtnTime, u64_max, in_range, saturating_from}

pub record CreationTimestamp : Type 0 where
  pub creation_time : Option DtnTime
  pub sequence_number : ℕ

abbrev pub seq_bits : ℕ
seq_bits = 20

-- `#[derive(PartialOrd)]`: `None` before every time, then by time, then by sequence number
unfoldable pub lt_timestamp : Option DtnTime → ℕ → Option DtnTime → ℕ → Bool
lt_timestamp none m none n = ltb m n
lt_timestamp none m (some u) n = true
lt_timestamp (some t) m none n = false
lt_timestamp (some t) m (some u) n =
    ltb t.millisecs u.millisecs || ((t.millisecs == u.millisecs) && ltb m n)

unfoldable pub is_before : CreationTimestamp → CreationTimestamp → Bool
is_before a b = lt_timestamp a.creation_time a.sequence_number b.creation_time b.sequence_number

-- The pair that one number packs: `issued >> SEQ_BITS` and `issued & ((1 << SEQ_BITS) - 1)`
unfoldable pub unpack : ℕ → CreationTimestamp
unpack issued = record {
  creation_time = some (record { millisecs = issued / 2 ^ seq_bits });
  sequence_number = issued % 2 ^ seq_bits;
}

-- `last.saturating_add(1).max(candidate)`
unfoldable pub next : ℕ → ℕ → ℕ
next last candidate = max (min u64_max (suc last)) candidate

module _ {OffsetDateTime : Type 0} (clock : Instants OffsetDateTime) where
  -- The low bits of the shifted number are clear and hold a million, so `|` adds.
  unfoldable pub candidate_of : OffsetDateTime → ℕ
  candidate_of t =
      min (saturating_from clock t).millisecs (u64_max / 2 ^ seq_bits) * 2 ^ seq_bits
      + clock.nanosecond t % 1000000

  -- With the number of milliseconds, where it is in the range of a `DtnTime`
  unfoldable pub try_with : OffsetDateTime → Option ℕ → Option CreationTimestamp
  try_with t none = none
  try_with t (some n) = some (record {
    creation_time = some (record { millisecs = n });
    sequence_number = clock.nanosecond t % 1000000;
  })

  -- `TryFrom<time::OffsetDateTime>`
  unfoldable pub try_from : OffsetDateTime → Option CreationTimestamp
  try_from t = try_with t (in_range (clock.whole_milliseconds t))
