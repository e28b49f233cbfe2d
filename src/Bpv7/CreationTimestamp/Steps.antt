-- ===== src/Bpv7/CreationTimestamp/Steps.antt =====
-- The calls of `CreationTimestamp::now` of bpv7/src/creation_timestamp.rs, in any interleaving.
use hardy.Prelude.{ℕ, ◌≡◌, List, [], ◌∷◌, ◌++◌}
use hardy.Bpv7.DtnTime.{Instants}
use hardy.Bpv7.CreationTimestamp.{next, candidate_of}

-- Where a call is: behind its candidate, or in the loop with what it last read
pub data Call : Type 0 where
  clocked : (candidate : ℕ) → Call
  looping : (candidate last : ℕ) → Call

-- `LAST_ISSUED`, the calls that run, and the numbers that calls have issued, the latest first
pub record Issuing : Type 0 where
  pub last_issued : ℕ
  pub calls : List Call
  pub issued : List ℕ

-- A relaxed load, and an exchange that fails, may read an older value of the atomic, and a weak
-- exchange may fail for no reason: what they read is left open.
module _ {OffsetDateTime : Type 0} (clock : Instants OffsetDateTime) where
  pub data Step (s : Issuing) : Issuing → Type 0 where
    now :
        (t : OffsetDateTime)
        → Step s (record s { calls = clocked (candidate_of clock t) ∷ s.calls })
    load :
        (before after : List Call) (candidate last : ℕ)
        → s.calls ≡ before ++ (clocked candidate ∷ after)
        → Step s (record s { calls = before ++ (looping candidate last ∷ after) })
    exchange :
        (before after : List Call) (candidate last : ℕ)
        → s.calls ≡ before ++ (looping candidate last ∷ after)
        → last ≡ s.last_issued
        → Step s (record {
          last_issued = next last candidate;
          calls = before ++ after;
          issued = next last candidate ∷ s.issued;
        })
    fail :
        (before after : List Call) (candidate last actual : ℕ)
        → s.calls ≡ before ++ (looping candidate last ∷ after)
        → Step s (record s { calls = before ++ (looping candidate actual ∷ after) })

  pub data Reachable : Issuing → Type 0 where
    start : Reachable (record { last_issued = 0; calls = []; issued = [] })
    step : {s u : Issuing} → Reachable s → Step s u → Reachable u
