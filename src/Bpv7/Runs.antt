-- ===== src/Bpv7/Runs.antt =====
-- bpv7/src/creation_timestamp.rs at a concrete clock.
use hardy.Prelude.{ℕ, ◌^◌, ◌*◌, ◌+◌, ◌≡◌, refl, some, [], ◌∷◌, map, arith}
use hardy.Bpv7.DtnTime.{Instants, ℤ, pos, u64_max, saturating_from, saturate}
use hardy.Bpv7.CreationTimestamp.{unpack, next, candidate_of, try_from}
use hardy.Bpv7.CreationTimestamp.Order.{now_fresh}
use hardy.Bpv7.CreationTimestamp.Steps.{
  clocked, looping, now, load, exchange, fail, Reachable, start, step,
}
use hardy.Bpv7.CreationTimestamp.Unique.{IsDescending, reachable-IsDescending}

-- Milliseconds since the epoch and nanoseconds of the second
abbrev clock : Instants (ℤ × ℕ)
clock = record { whole_milliseconds = λ t. t.0; nanosecond = λ t. t.1 }

abbrev noon : ℤ × ℕ
noon = (pos 1000, 7000042)

now_fresh_example : try_from clock noon ≡ some (unpack (next 5 (candidate_of clock noon)))
unfolding next candidate_of saturating_from saturate
now_fresh_example = now_fresh clock noon 1000 5 refl (omega arith) (omega arith)

-- Two calls at the same time that both read 0: the second exchange fails, and the call goes round.
abbrev first : ℕ
first = next 0 (candidate_of clock noon)

abbrev second : ℕ
second = next first (candidate_of clock noon)

two_calls :
    Reachable clock (record { last_issued = second; calls = []; issued = second ∷ first ∷ [] })
two_calls =
    let c = candidate_of clock noon in
    let s0 = step start (now noon) in
    let s1 = step s0 (now noon) in
    let s2 = step s1 (load [] (clocked c ∷ []) c 0 refl) in
    let s3 = step s2 (load (looping c 0 ∷ []) [] c 0 refl) in
    let s4 = step s3 (exchange [] (looping c 0 ∷ []) c 0 refl refl) in
    let s5 = step s4 (fail [] [] c 0 first refl) in step s5 (exchange [] [] c first refl refl)

reachable-IsDescending_example : IsDescending (map unpack (second ∷ first ∷ []))
unfolding next candidate_of saturating_from saturate
reachable-IsDescending_example = reachable-IsDescending clock two_calls (omega arith)

-- Two pairs in the same millisecond
noon_pairs : first ≡ 1000 * 2 ^ 20 + 42
unfolding next candidate_of saturating_from saturate
noon_pairs = refl

-- At the largest number of 64 bits the same pair is issued again.
issued_again : next u64_max 0 ≡ u64_max
unfolding next
issued_again = refl
