-- ===== src/Bpv7/CreationTimestamp/Order.antt =====
-- The packed numbers of bpv7/src/creation_timestamp.rs, against the order and the clock.
use hardy.Prelude.{ℕ, ◌+◌, ◌*◌, ◌/◌, ◌%◌, ◌^◌, ◌≤◌, ◌<◌, ◌≡◌, refl, min, some, ltb, arith}
use hardy.Bpv7.DtnTime.{Instants, pos, u64_max, saturate, in_range, saturating_from}
use hardy.Bpv7.CreationTimestamp.{
  lt_timestamp, is_before, unpack, next, candidate_of, try_with, try_from,
}

-- Packing keeps the order: the pairs of two numbers stand in the derived order exactly where the numbers do.
pub is_before-unpack : (a b : ℕ) → is_before (unpack a) (unpack b) ≡ ltb a b
unfolding lt_timestamp is_before unpack
is_before-unpack a b = ground arith

module _ {OffsetDateTime : Type 0} (clock : Instants OffsetDateTime) where
  candidate_bound : (t : OffsetDateTime) → candidate_of clock t ≤ u64_max
  unfolding candidate_of
  candidate_bound t = omega arith

  fresh :
      (n nanos last candidate : ℕ)
      → n < 2 ^ 44
      → candidate ≡ min n (u64_max / 2 ^ 20) * 2 ^ 20 + nanos % 1000000
      → last < candidate
      → (next last candidate / 2 ^ 20 ≡ n) × (next last candidate % 2 ^ 20 ≡ nanos % 1000000)
  unfolding next
  fresh n nanos last candidate h e behind = (omega arith, omega arith)

  saturate_small : (n : ℕ) → n < 2 ^ 44 → saturate (pos n) ≡ n
  unfolding saturate
  saturate_small n h = ground arith

  in_range_small : (n : ℕ) → n < 2 ^ 44 → in_range (pos n) ≡ some n
  unfolding in_range
  in_range_small n h = ground arith

  candidate_small :
      (t : OffsetDateTime) (n : ℕ)
      → clock.whole_milliseconds t ≡ pos n
      → n < 2 ^ 44
      → candidate_of clock t ≡ min n (u64_max / 2 ^ 20) * 2 ^ 20 + clock.nanosecond t % 1000000
  unfolding candidate_of saturating_from
  candidate_small t n e h = rw (e, saturate_small n h) refl

  -- Where the clock shows n milliseconds since the DTN epoch, fewer than 2^44, and no pair as late as the candidate has been issued, `now` issues the timestamp that `TryFrom` makes of the clock's time.
  pub now_fresh :
      (t : OffsetDateTime) (n last : ℕ)
      → clock.whole_milliseconds t ≡ pos n
      → n < 2 ^ 44
      → last < candidate_of clock t
      → try_from clock t ≡ some (unpack (next last (candidate_of clock t)))
  unfolding unpack try_with try_from
  now_fresh t n last e fits behind =
      let f =
        fresh n (clock.nanosecond t) last (candidate_of clock t) fits (candidate_small t n e fits)
          behind in
      rw (e, in_range_small n fits, f.0, f.1) refl
