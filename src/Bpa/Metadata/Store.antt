-- ===== src/Bpa/Metadata/Store.antt =====
-- bpa/src/storage/metadata_mem.rs: `MetadataMemStorage`. Each operation holds the lock of the store from
-- its first access to its last, so it is one function on the state. `now` is the time of the call.
use hardy.Prelude.{
  ℕ, ◌+◌, ◌-◌, ◌/◌, ◌%◌, ◌^◌, List, [], ◌∷◌, Bool, true, false, not, ◌&&◌, Option, none, some, leb,
  ltb, ◌==◌, take, if◌then◌else◌,
}
use hardy.Eid.{Eid, eq_eid}
use hardy.Bpa.Reassembly.{BundleId}
use hardy.Bpa.Metadata.Status.{
  BundleStatus, new, forward_pending, forward_ack_pending, deliver_pending, waiting,
  waiting_for_service, eq_status, same_queue,
}
use hardy.Bpa.Metadata.Bundles.{Bundle, expiry, has_expired, eq_id}
use hardy.Bpa.Metadata.Recency.{LruCache}

pub data Entry : Type 0 where
  live : Bundle → Entry
  tombstone : ℕ → Entry

-- `Entry::live`
abbrev pub entry_live : Entry → Option Bundle
entry_live (live b) = some b
entry_live (tombstone expiry) = none

abbrev pub is_live : Entry → Bool
is_live (live b) = true
is_live (tombstone expiry) = false

abbrev pub is_tombstone : Entry → Bool
is_tombstone (live b) = false
is_tombstone (tombstone expiry) = true

pub data Edge : Type 0 where
  enter : ℕ → Edge
  exit : ℕ → ℕ → Edge

pub record Inner (C : Type 0) : Type 0 where
  pub entries : C
  pub live : ℕ
  pub tombstones : ℕ
  pub near_capacity : Bool
  pub evicted_live : ℕ

pub record MetadataMemStorage (C : Type 0) : Type 0 where
  pub inner : Inner C
  pub high_watermark : ℕ
  pub low_watermark : ℕ

-- `n += 1` and `n -= 1` on a `usize` or a `u64`, which wrap around
abbrev pub increment : ℕ → ℕ
increment n = (n + 1) % 2 ^ 64

abbrev pub decrement : ℕ → ℕ
decrement n = (n + 2 ^ 64 - 1) % 2 ^ 64

-- The counters for an entry that leaves the cache, replaced if it has the key that was pushed
unfoldable pub release : {C : Type 0} → ℕ → BundleId → Option (BundleId × Entry) → Inner C → Inner C
release now key none inner = inner
release now key (some (k, live b)) inner =
    if eq_id k key
    then record inner { live = decrement inner.live }
    else if has_expired now b
    then record inner { live = decrement inner.live }
    else record inner { live = decrement inner.live; evicted_live = increment inner.evicted_live }
release now key (some (k, tombstone expiry)) inner = record inner {
  tombstones = decrement inner.tombstones;
}

unfoldable pub count_new : {C : Type 0} → Entry → Inner C → Inner C
count_new (live b) inner = record inner { live = increment inner.live }
count_new (tombstone expiry) inner = record inner { tombstones = increment inner.tombstones }

-- A tombstone whose bundle has expired is demoted.
unfoldable pub demotes : ℕ → Entry → Bool
demotes now (live b) = false
demotes now (tombstone expiry) = leb expiry now

-- A live entry is not put over a tombstone.
unfoldable pub refused : Entry → Option Entry → Bool
refused (live b) (some (tombstone expiry)) = true
refused _ _ = false

-- `Inner::check_watermark`
unfoldable pub check_watermark : {C : Type 0} → ℕ → ℕ → Inner C → Inner C × Option Edge
check_watermark high low inner =
    if not inner.near_capacity && leb high inner.live
    then (record inner { near_capacity = true }, some (enter inner.live))
    else if inner.near_capacity && ltb inner.live low
    then (
      record inner { near_capacity = false; evicted_live = 0 },
      some (exit inner.live inner.evicted_live),
    )
    else (inner, none)

-- `sort_unstable_by_key`: an ascending order
unfoldable pub insert_by : {A : Type 0} → (A → ℕ) → A → List A → List A
insert_by key x [] = x ∷ []
insert_by key x (y ∷ ys) = if leb (key x) (key y) then x ∷ y ∷ ys else y ∷ insert_by key x ys

unfoldable pub sort_by_key : {A : Type 0} → (A → ℕ) → List A → List A
sort_by_key key [] = []
sort_by_key key (x ∷ xs) = insert_by key x (sort_by_key key xs)

-- The live bundles that pass a test, in the order of the cache
unfoldable pub live_where : (Bundle → Bool) → List (BundleId × Entry) → List Bundle
live_where p [] = []
live_where p ((k, live b) ∷ es) = if p b then b ∷ live_where p es else live_where p es
live_where p ((k, tombstone expiry) ∷ es) = live_where p es

-- A write of one status to the live bundles with a status that passes a test, and their number
abbrev pub reset_entry : (BundleStatus → Bool) → BundleStatus → Entry → Entry
reset_entry p status (live b) = if p b.status then live (record b { status = status }) else live b
reset_entry p status (tombstone expiry) = tombstone expiry

unfoldable pub count_reset : (BundleStatus → Bool) → List (BundleId × Entry) → ℕ
count_reset p [] = 0
count_reset p ((k, live b) ∷ es) = (if p b.status then 1 else 0) + count_reset p es
count_reset p ((k, tombstone expiry) ∷ es) = count_reset p es

abbrev pub is_fragment : Bundle → Bool
is_fragment b = elim b.id.fragment_info as (λ _. Bool) [ none ↦ false | some info ↦ true ]

abbrev pub fragment_offset : Bundle → ℕ
fragment_offset b = elim b.id.fragment_info as (λ _. ℕ) [ none ↦ 0 | some info ↦ info.offset ]

abbrev pub is_queued_for : ℕ → BundleStatus → Bool
is_queued_for peer (forward_pending p _ _) = p == peer
is_queued_for peer _ = false

abbrev pub is_sent_to : ℕ → BundleStatus → Bool
is_sent_to peer (forward_ack_pending p) = p == peer
is_sent_to peer _ = false

abbrev pub is_delivered_to : Eid → BundleStatus → Bool
is_delivered_to service (deliver_pending s) = eq_eid s service
is_delivered_to service _ = false

module _ (lru : LruCache Entry) where
  open lru use {Cache}

  -- `Inner::upsert`
  unfoldable pub upsert : ℕ → BundleId → Entry → Inner Cache → Inner Cache
  unfolding release count_new demotes refused
  upsert now key value inner =
      if refused value (lru.peek inner.entries key)
      then inner
      else (let (entries, out) = lru.push inner.entries key value in
          let counted = release now key out (count_new value inner) in
          record counted {
            entries = if demotes now value then lru.demote entries key else entries;
          })

  -- `MetadataMemStorage::new`
  unfoldable pub create : Option ℕ → MetadataMemStorage Cache
  create max_bundles =
      let max = elim max_bundles as (λ _. ℕ) [ none ↦ 1048576 | some n ↦ n ] in
      record {
        inner = record {
          entries = lru.new max;
          live = 0;
          tombstones = 0;
          near_capacity = false;
          evicted_live = 0;
        };
        high_watermark = max - max / 20;
        low_watermark = max - max / 10;
      }

  -- `upsert` and `check_watermark` under the lock, as `apply` calls them
  unfoldable pub apply : ℕ → BundleId → Entry → MetadataMemStorage Cache → MetadataMemStorage Cache
  apply now key value s = record s {
    inner = (check_watermark s.high_watermark s.low_watermark (upsert now key value s.inner)).0;
  }

  unfoldable pub get : BundleId → MetadataMemStorage Cache → Option Bundle
  get id s = elim (lru.peek s.inner.entries id) [ none ↦ none | some e ↦ entry_live e ]

  unfoldable pub insert : ℕ → Bundle → MetadataMemStorage Cache → MetadataMemStorage Cache × Bool
  insert now b s = elim (lru.peek s.inner.entries b.id) [
    | some e ↦ (s, false)
    | none ↦ (apply now b.id (live b) s, true)
  ]

  unfoldable pub replace : ℕ → Bundle → MetadataMemStorage Cache → MetadataMemStorage Cache
  replace now b s = apply now b.id (live b) s

  -- The live bundle of an id whose status is the expected one
  unfoldable pub expected_bundle :
      BundleId → BundleStatus → MetadataMemStorage Cache → Option Bundle
  expected_bundle id expected s = elim (lru.peek s.inner.entries id) [
    | none ↦ none
    | some e ↦ elim e [
      | live b ↦ if eq_status b.status expected then some b else none
      | tombstone expiry ↦ none
    ]
  ]

  unfoldable pub swap_status :
      BundleId
      → BundleStatus
      → BundleStatus
      → MetadataMemStorage Cache
      → MetadataMemStorage Cache × Bool
  swap_status id expected status s = elim (expected_bundle id expected s) [
    | none ↦ (s, false)
    | some b ↦
        let written = lru.set_peeked s.inner.entries id (live (record b { status = status })) in
        (record s { inner = record (s.inner) { entries = lru.promote written id } }, true)
  ]

  unfoldable pub tombstone_if :
      ℕ → BundleId → BundleStatus → MetadataMemStorage Cache → MetadataMemStorage Cache × Bool
  tombstone_if now id expected s = elim (expected_bundle id expected s) [
    | none ↦ (s, false)
    | some b ↦ (apply now id (tombstone (expiry b)) s, true)
  ]

  -- The time until which a tombstone is kept
  abbrev pub entry_expiry : Entry → ℕ
  entry_expiry (live b) = expiry b
  entry_expiry (tombstone expiry) = expiry

  unfoldable pub bury : ℕ → BundleId → MetadataMemStorage Cache → MetadataMemStorage Cache
  bury now id s = elim (lru.peek s.inner.entries id) [
    | none ↦ s
    | some e ↦ apply now id (tombstone (entry_expiry e)) s
  ]

  unfoldable pub reset :
      (BundleStatus → Bool) → BundleStatus → MetadataMemStorage Cache → MetadataMemStorage Cache × ℕ
  reset p status s = (
    record s {
      inner = record (s.inner) { entries = lru.update_all s.inner.entries (reset_entry p status) };
    },
    count_reset p (lru.entries s.inner.entries),
  )

  unfoldable pub reset_peer_queue : ℕ → MetadataMemStorage Cache → MetadataMemStorage Cache × ℕ
  unfolding reset
  reset_peer_queue peer s = reset (is_queued_for peer) waiting s

  unfoldable pub reset_peer_ack_pending :
      ℕ → MetadataMemStorage Cache → MetadataMemStorage Cache × ℕ
  unfolding reset
  reset_peer_ack_pending peer s = reset (is_sent_to peer) waiting s

  unfoldable pub reset_service_queue : Eid → MetadataMemStorage Cache → MetadataMemStorage Cache × ℕ
  unfolding reset
  reset_service_queue service s = reset (is_delivered_to service) (waiting_for_service service) s

  -- What the polls send, in order, for as long as the receiver takes it
  unfoldable pub poll_expiry : MetadataMemStorage Cache → List Bundle
  poll_expiry s =
      sort_by_key expiry
        (live_where (λ b. not (eq_status b.status new)) (lru.entries s.inner.entries))

  unfoldable pub poll_waiting : MetadataMemStorage Cache → List Bundle
  poll_waiting s =
      sort_by_key (λ b. b.received_at)
        (live_where (λ b. eq_status b.status waiting) (lru.entries s.inner.entries))

  unfoldable pub poll_service_waiting : Eid → MetadataMemStorage Cache → List Bundle
  poll_service_waiting source s =
      sort_by_key (λ b. b.received_at)
        (live_where (λ b. eq_status b.status (waiting_for_service source))
          (lru.entries s.inner.entries))

  unfoldable pub poll_adu_fragments : BundleStatus → MetadataMemStorage Cache → List Bundle
  poll_adu_fragments status s =
      sort_by_key fragment_offset
        (live_where (λ b. eq_status b.status status && is_fragment b) (lru.entries s.inner.entries))

  unfoldable pub poll_pending : BundleStatus → ℕ → MetadataMemStorage Cache → List Bundle
  poll_pending state limit s = take limit (
      sort_by_key (λ b. b.received_at)
        (live_where (λ b. same_queue b.status state) (lru.entries s.inner.entries)))
