-- ===== src/Bpa/Reassembly/Runs.antt =====
-- Runs of bpa/src/storage/adu_reassembly.rs on two fragments.
use hardy.Prelude.{
  ℕ, ◌+◌, ◌≤◌, ◌<◌, ◌≡◌, ◌≢◌, refl, List, [], ◌∷◌, false, Option, none, some, arith, ◌==◌, length,
  if◌then◌else◌,
}
use hardy.Eid.{Eid, eq_eid, eq_ipn}
use hardy.Bpa.Reassembly.{
  Adu, Bundle, BundleId, FragmentSet, returned, Store, len, get, get_range, insert, add_fragment,
  collect, poll_fragments, copy_from_slice, copy_fragments, copy_all, assemble, tile,
  sorted_extents, insert_extent,
}
use hardy.Bpa.Reassembly.Tiling.{unique, has_key}
use hardy.Bpa.Reassembly.Result.{IsFragmentSet, IsStored, assemble-returns, assemble-whole}
use hardy.Bpa.Reassembly.Whole.{Places}
use hardy.Bpa.Reassembly.Poll.{poll_fragments-Earliest, Earliest}

abbrev source : Eid
source = Eid.ipn (record { allocator_id = 0; node_number = 2 }) 1

abbrev fragment_id : ℕ → BundleId
fragment_id offset = record {
  source = source;
  timestamp = 5;
  fragment_info = some (record { offset = offset; total_adu_length = 3 });
}

-- The fragment at 2 arrived later than the first.
abbrev first_bundle : Bundle
first_bundle = record {
  id = fragment_id 0;
  payload = record { start = 1; end = 3 };
  storage_name = some 10;
  received_at = 100;
  origin = 0;
}

abbrev second_bundle : Bundle
second_bundle = record {
  id = fragment_id 2;
  payload = record { start = 0; end = 1 };
  storage_name = some 11;
  received_at = 200;
  origin = 1;
}

abbrev first_adu : Adu
first_adu = record {
  bundle_id = fragment_id 0;
  storage_name = 10;
  payload = record { start = 1; end = 3 };
}

abbrev second_adu : Adu
second_adu = record {
  bundle_id = fragment_id 2;
  storage_name = 11;
  payload = record { start = 0; end = 1 };
}

abbrev fragments : FragmentSet
fragments = record { received_at = 100; origin = 0; adus = (2, second_adu) ∷ (0, first_adu) ∷ [] }

abbrev whole_adu : List ℕ
whole_adu = 7 ∷ 8 ∷ 9 ∷ []

abbrev load : ℕ → Option (List ℕ)
load n = if n == 10 then some (99 ∷ 7 ∷ 8 ∷ []) else if n == 11 then some (9 ∷ []) else none

abbrev store : Store
store = record { get_metadata = λ i. some first_bundle; load_data = load }

poll_run : poll_fragments second_bundle (first_bundle ∷ []) false ≡ returned (some fragments)
unfolding poll_fragments collect add_fragment insert eq_eid eq_ipn
poll_run = refl

assemble_run : assemble store fragments ≡ returned (some whole_adu)
unfolding assemble get sorted_extents insert_extent tile copy_all copy_fragments get_range
    copy_from_slice
assemble_run = refl

-- Two fragments that overlap do not make an ADU.
overlap_run :
    assemble store (record fragments { adus = (1, second_adu) ∷ (0, first_adu) ∷ [] })
    ≡ returned none
unfolding assemble get sorted_extents insert_extent tile copy_all copy_fragments get_range
    copy_from_slice
overlap_run = refl

fragments-IsFragmentSet : IsFragmentSet fragments
unfolding unique has_key
fragments-IsFragmentSet = record { keyed = ((3, refl), ((3, refl), tt)); once = refl }

fragments-other :
    (k : ℕ) (a : Adu) → get k fragments.adus ≡ some a → k ≢ 0 → (a.storage_name == 10) ≡ false
unfolding get
fragments-other k a g n = ground arith

fragments-IsStored : IsStored store fragments first_adu 3
unfolding get
fragments-IsStored = record {
  is_first = refl;
  has_total = refl;
  bounded = omega arith;
  named = λ b h. cc h;
  other_names = fragments-other;
}

assemble-returns_example : (r : Option (List ℕ)) × (assemble store fragments ≡ returned r)
assemble-returns_example =
    assemble-returns store fragments first_adu 3 fragments-IsFragmentSet fragments-IsStored

assemble-whole_example :
    (length whole_adu ≡ 3)
    × ((k : ℕ) (a : Adu) → get k fragments.adus ≡ some a → Places store whole_adu k a)
    × ((i : ℕ)
        → i < 3
        → (k : ℕ) × (a : Adu) × (get k fragments.adus ≡ some a) × (k ≤ i) × (i < k + len a.payload))
assemble-whole_example =
    assemble-whole store fragments first_adu 3 whole_adu fragments-IsFragmentSet fragments-IsStored
      assemble_run

poll_fragments-Earliest_example : Earliest second_bundle (first_bundle ∷ []) false fragments
poll_fragments-Earliest_example =
    poll_fragments-Earliest second_bundle (first_bundle ∷ []) false fragments poll_run
