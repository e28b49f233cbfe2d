-- ===== src/Bpa/Reassembly.antt =====
-- bpa/src/storage/adu_reassembly.rs: the fragments of an ADU and their reassembly, on a 64-bit target.
pub mod Tiling
pub mod Copy
pub mod Placed
pub mod Whole
pub mod Result
pub mod Poll
mod Runs
use hardy.Prelude.{
  ℕ, ◌+◌, ◌-◌, ◌^◌, min, List, [], ◌∷◌, ◌++◌, Bool, true, false, ◌&&◌, ◌||◌, not, Option, none,
  some, leb, ltb, ◌==◌, length, take, drop, if◌then◌else◌,
}
use hardy.Eid.{Eid, eq_eid}

pub record FragmentInfo : Type 0 where
  pub offset : ℕ
  pub total_adu_length : ℕ

-- `hardy_bpv7::bundle::Id`, with the creation timestamp as a number
pub record BundleId : Type 0 where
  pub source : Eid
  pub timestamp : ℕ
  pub fragment_info : Option FragmentInfo

-- `Range<usize>`
pub record Range : Type 0 where
  pub start : ℕ
  pub end : ℕ

-- What the functions read of a `Bundle`: its id, the payload range of block 1, and its metadata
pub record Bundle : Type 0 where
  pub id : BundleId
  pub payload : Range
  pub storage_name : Option ℕ
  pub received_at : ℕ
  pub origin : ℕ

-- A value of `FragmentSet::adus`
pub record Adu : Type 0 where
  pub bundle_id : BundleId
  pub storage_name : ℕ
  pub payload : Range

-- The map `adus` is its list of entries, in the order in which the program iterates.
pub record FragmentSet : Type 0 where
  pub received_at : ℕ
  pub origin : ℕ
  pub adus : List (ℕ × Adu)

-- What code comes to that may panic
pub data Outcome (A : Type 0) : Type 0 where
  returned : A → Outcome A
  panicked : Outcome A

-- `Range::len`
abbrev pub len : Range → ℕ
len r = r.end - r.start

abbrev pub saturating_add : ℕ → ℕ → ℕ
saturating_add a b = min (a + b) (2 ^ 64 - 1)

-- `HashMap::insert` and `HashMap::get`
unfoldable pub insert : ℕ → Adu → List (ℕ × Adu) → List (ℕ × Adu)
insert k v [] = (k, v) ∷ []
insert k v (e ∷ es) = if e.0 == k then (k, v) ∷ es else e ∷ insert k v es

unfoldable pub get : ℕ → List (ℕ × Adu) → Option Adu
get k [] = none
get k (e ∷ es) = if e.0 == k then some e.1 else get k es

-- The set after one more bundle, which has the source and the timestamp
unfoldable pub add_fragment : FragmentInfo → ℕ → Bundle → FragmentSet × ℕ → FragmentSet × ℕ
unfolding insert
add_fragment info storage_name b (results, adu_totals) = (
  record {
    received_at =
        if ltb b.received_at results.received_at then b.received_at else results.received_at;
    origin = if ltb b.received_at results.received_at then b.origin else results.origin;
    adus =
        insert info.offset
          (record { bundle_id = b.id; storage_name = storage_name; payload = b.payload })
          results.adus;
  },
  saturating_add adu_totals (len b.payload),
)

-- The loop over the bundles that the poll sends
unfoldable pub collect : BundleId → List Bundle → FragmentSet × ℕ → Outcome (FragmentSet × ℕ)
unfolding add_fragment eq_eid
collect id [] results = returned results
collect id (b ∷ bs) results =
    if eq_eid id.source b.id.source && id.timestamp == b.id.timestamp
    then elim b.id.fragment_info [
      | none ↦ collect id bs results
      | some info ↦ elim b.storage_name [
        | none ↦ panicked
        | some name ↦ collect id bs (add_fragment info name b results)
      ]
    ]
    else collect id bs results

-- `poll_fragments`, where the poll sends `polled`, unless the store shuts down before its end
unfoldable pub poll_fragments : Bundle → List Bundle → Bool → Outcome (Option FragmentSet)
poll_fragments bundle polled cancelled = elim bundle.id.fragment_info [
  | none ↦ panicked
  | some info ↦ elim bundle.storage_name [
    | none ↦ panicked
    | some name ↦
        let results : FragmentSet = record {
          received_at = bundle.received_at;
          origin = bundle.origin;
          adus =
              (
                info.offset,
                record { bundle_id = bundle.id; storage_name = name; payload = bundle.payload },
              )
              ∷ [];
        } in
        elim (collect bundle.id polled (results, len bundle.payload)) [
          | panicked ↦ panicked
          | returned r ↦
              returned (if not cancelled && leb info.total_adu_length r.1 then some r.0 else none)
        ]
  ]
]

-- `extents.sort_unstable()`, on pairs of an offset and a length
unfoldable pub insert_extent : ℕ × ℕ → List (ℕ × ℕ) → List (ℕ × ℕ)
insert_extent x [] = x ∷ []
insert_extent x (y ∷ ys) =
    if ltb x.0 y.0 || (x.0 == y.0 && leb x.1 y.1) then x ∷ y ∷ ys else y ∷ insert_extent x ys

unfoldable pub sorted_extents : List (ℕ × Adu) → List (ℕ × ℕ)
unfolding insert_extent
sorted_extents [] = []
sorted_extents (e ∷ es) = insert_extent (e.0, len e.1.payload) (sorted_extents es)

-- The loop that adds up `covered`
unfoldable pub tile : List (ℕ × ℕ) → ℕ → Option ℕ
tile [] covered = some covered
tile (e ∷ es) covered = if e.0 == covered then tile es (saturating_add covered e.1) else none

-- `data.get(range)`
unfoldable pub get_range : Range → List ℕ → Option (List ℕ)
get_range r data' =
    if leb r.start r.end && leb r.end (length data')
    then some (take (len r) (drop r.start data'))
    else none

-- `new_data[offset..offset + n].copy_from_slice(adu)`; `none` is a panic.
unfoldable pub copy_from_slice : ℕ → ℕ → List ℕ → List ℕ → Option (List ℕ)
copy_from_slice offset n adu new_data =
    if leb (offset + n) (length new_data) && length adu == n
    then some (take offset new_data ++ (adu ++ drop (offset + n) new_data))
    else none

abbrev pub zeros : ℕ → List ℕ
zeros ℕ.zero = []
zeros (ℕ.suc n) = 0 ∷ zeros n

-- What the function reads of the store
pub record Store : Type 0 where
  pub get_metadata : BundleId → Option Bundle
  pub load_data : ℕ → Option (List ℕ)

module _ (store : Store) where
  -- The loop over the fragments; `none` is the return of `None`.
  unfoldable pub copy_fragments : Adu → ℕ → List (ℕ × Adu) → List ℕ → Outcome (Option (List ℕ))
  unfolding get_range copy_from_slice
  copy_fragments first total [] new_data = returned (some new_data)
  copy_fragments first total (e ∷ es) new_data =
      if e.1.storage_name == first.storage_name
      then copy_fragments first total es new_data
      else elim e.1.bundle_id.fragment_info [
        | none ↦ panicked
        | some fi ↦
            if not (fi.total_adu_length == total)
            then returned none
            else if ltb total (saturating_add fi.offset (len e.1.payload))
            then returned none
            else elim (store.load_data e.1.storage_name) [
              | none ↦ returned none
              | some data' ↦ elim (get_range e.1.payload data') [
                | none ↦ returned none
                | some adu ↦ elim (copy_from_slice fi.offset (len e.1.payload) adu new_data) [
                  | none ↦ panicked
                  | some written ↦ copy_fragments first total es written
                ]
              ]
            ]
      ]

  -- The copy of the first fragment, and then of the others
  unfoldable pub copy_all : Adu → ℕ → List ℕ → List (ℕ × Adu) → Outcome (Option (List ℕ))
  copy_all first total old_data adus =
      if ltb total (len first.payload)
      then returned none
      else elim (get_range first.payload old_data) [
        | none ↦ returned none
        | some payload ↦ elim (copy_from_slice 0 (len first.payload) payload (zeros total)) [
          | none ↦ panicked
          | some new_data ↦ copy_fragments first total adus new_data
        ]
      ]

  -- `reassemble` up to the bytes of the whole ADU
  unfoldable pub assemble : FragmentSet → Outcome (Option (List ℕ))
  assemble results = elim (get 0 results.adus) [
    | none ↦ returned none
    | some first ↦ elim (store.get_metadata first.bundle_id) [
      | none ↦ returned none
      | some bundle ↦ elim bundle.storage_name [
        | none ↦ panicked
        | some name ↦ elim (store.load_data name) [
          | none ↦ returned none
          | some old_data ↦ elim first.bundle_id.fragment_info [
            | none ↦ panicked
            | some info ↦ elim (tile (sorted_extents results.adus) 0) [
              | none ↦ returned none
              | some covered ↦
                  if not (covered == info.total_adu_length)
                  then returned none
                  else copy_all first info.total_adu_length old_data results.adus
            ]
          ]
        ]
      ]
    ]
  ]
