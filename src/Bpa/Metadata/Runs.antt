-- ===== src/Bpa/Metadata/Runs.antt =====
-- bpa/src/storage/metadata_mem.rs at concrete stores, over a cache that is a list.
use hardy.Prelude.{
  ℕ, ◌+◌, ◌-◌, ◌≤◌, ◌≡◌, ◌⊎◌, refl, true, false, none, some, List, [], ◌∷◌, length, arith,
  if◌then◌else◌,
}
use hardy.Cbor.Bytes.{All}
use hardy.Eid.{Eid, eq_eid}
use hardy.Bpa.Reassembly.{BundleId}
use hardy.Bpa.Metadata.Status.{BundleStatus, waiting, forward_pending, dispatching, new, same_queue}
use hardy.Bpa.Metadata.Bundles.{Bundle, eq_id, eq_fragment, expiry, has_expired}
use hardy.Bpa.Metadata.Recency.{
  LruCache, find, write_at, map_values, push_entries, promote_entries, demote_entries, split_last,
}
use hardy.Bpa.Metadata.Recency.Laws.{count, AreUnique}
use hardy.Bpa.Metadata.Store
use hardy.Bpa.Metadata.Store.{
  is_queued_for, Entry, live, tombstone, is_live, is_tombstone, Inner, MetadataMemStorage,
}
use hardy.Bpa.Metadata.Tidy.{IsTidy}
use hardy.Bpa.Metadata.Operations.{Operation, run}
use hardy.Bpa.Metadata.Puts.{view}
use hardy.Bpa.Metadata.Invariant.{after, counters_exact}
use hardy.Bpa.Metadata.Races.{swap, delete, wins, wins_once, holds, tombstone_stays}
use hardy.Bpa.Metadata.Resets.{live_count, is_waiting, reset_peer_queue-moves}
use hardy.Bpa.Metadata.Polls.{In, Held, IsAscending, poll_pending-Earliest}

-- A capacity and a list of entries
abbrev ListCache : Type 0
ListCache = ℕ × List (BundleId × Entry)

abbrev list_cache : LruCache Entry
list_cache = record {
  Cache = ListCache;
  new = λ n. (n, []);
  capacity = λ c. c.0;
  entries = λ c. c.1;
  peek = λ c k. find k c.1;
  push = λ c k v. ((c.0, (push_entries c.0 k v c.1).0), (push_entries c.0 k v c.1).1);
  promote = λ c k. (c.0, promote_entries k c.1);
  demote = λ c k. (c.0, demote_entries k c.1);
  set_peeked = λ c k v. (c.0, write_at k v c.1);
  update_all = λ c f. (c.0, map_values f c.1);
  entries-new = λ n. refl;
  capacity-new = λ n. refl;
  peek_lem = λ c k. refl;
  entries-push = λ c k v. refl;
  push_out = λ c k v. refl;
  capacity-push = λ c k v. refl;
  entries-promote = λ c k. refl;
  capacity-promote = λ c k. refl;
  entries-demote = λ c k. refl;
  capacity-demote = λ c k. refl;
  entries-set_peeked = λ c k v. refl;
  capacity-set_peeked = λ c k v. refl;
  entries-update_all = λ c f. refl;
  capacity-update_all = λ c f. refl;
}

abbrev id_of : ℕ → BundleId
id_of n = record { source = Eid.local_node 7; timestamp = n; fragment_info = none }

abbrev bundle : ℕ → BundleStatus → Bundle
bundle n status = record {
  id = id_of n;
  created = some 1000;
  lifetime = 500;
  age = none;
  received_at = 2000 - n;
  status = status;
  payload = n;
}

-- A full store of a live bundle and a tombstone
abbrev store : MetadataMemStorage ListCache
store = record {
  inner = record {
    entries = (2, (id_of 1, live (bundle 1 waiting)) ∷ (id_of 2, tombstone 1500) ∷ []);
    live = 1;
    tombstones = 1;
    near_capacity = false;
    evicted_live = 0;
  };
  high_watermark = 2;
  low_watermark = 2;
}

store-IsTidy : IsTidy list_cache store.inner
unfolding find count eq_id eq_eid eq_fragment
store-IsTidy = record {
  unique = (refl, (refl, tt));
  sized = omega arith;
  positive = omega arith;
  bounded = omega arith;
  live_counted = refl;
  tombstones_counted = refl;
}

-- Two calls of a store of one entry
abbrev calls : List (ℕ × Operation)
calls = (10, Operation.insert (bundle 1 new)) ∷ (20, Operation.bury (id_of 1)) ∷ []

counters_exact_example :
    ((after list_cache 1 calls).live ≡ count is_live (after list_cache 1 calls).entries.1)
    × ((after list_cache 1 calls).tombstones
        ≡ count is_tombstone (after list_cache 1 calls).entries.1)
    × AreUnique (after list_cache 1 calls).entries.1
    × ((after list_cache 1 calls).live + (after list_cache 1 calls).tombstones
        ≤ (after list_cache 1 calls).entries.0)
counters_exact_example = counters_exact list_cache 1 calls (omega arith) (omega arith)

wins_once_example :
    wins list_cache 1200 (id_of 1) waiting (swap dispatching ∷ delete ∷ swap new ∷ []) store
    ≡ (if holds waiting (view list_cache store (id_of 1)) then 1 else 0)
wins_once_example =
    wins_once list_cache 1200 (id_of 1) waiting (swap dispatching) (delete ∷ swap new ∷ []) store
      store-IsTidy ((λ e. cc), (tt, ((λ e. cc), tt)))

tombstone_stays_example :
    (view list_cache (run list_cache 1200 (Operation.replace (bundle 2 new)) store).0 (id_of 2)
      ≡ some (tombstone 1500))
    ⊎ ((view list_cache (run list_cache 1200 (Operation.replace (bundle 2 new)) store).0 (id_of 2)
          ≡ none)
        × (2 ≤ length store.inner.entries.1))
unfolding find eq_id eq_eid eq_fragment
tombstone_stays_example =
    tombstone_stays list_cache 1200 (Operation.replace (bundle 2 new)) store (id_of 2) 1500
      store-IsTidy refl

poll_pending-Earliest_example :
    IsAscending (λ c. c.received_at) (Store.poll_pending list_cache waiting 5 store)
    × (length (Store.poll_pending list_cache waiting 5 store) ≤ 5)
    × (In (bundle 1 waiting) (Store.poll_pending list_cache waiting 5 store)
        → Held (bundle 1 waiting) store.inner.entries.1 × (same_queue waiting waiting ≡ true))
    × (Held (bundle 1 waiting) store.inner.entries.1
        → same_queue waiting waiting ≡ true
        → In (bundle 1 waiting) (Store.poll_pending list_cache waiting 5 store)
          ⊎ ((length (Store.poll_pending list_cache waiting 5 store) ≡ 5)
              × All (λ c. c.received_at ≤ 1999) (Store.poll_pending list_cache waiting 5 store)))
poll_pending-Earliest_example = poll_pending-Earliest list_cache waiting 5 store (bundle 1 waiting)

-- A store with a bundle that is queued for the peer 4
abbrev queued : MetadataMemStorage ListCache
queued = record {
  inner = record {
    entries = (
      3,
      (id_of 1, live (bundle 1 (forward_pending 4 0 (Eid.local_node 7))))
          ∷ (id_of 2, live (bundle 2 waiting))
          ∷ [],
    );
    live = 2;
    tombstones = 0;
    near_capacity = false;
    evicted_live = 0;
  };
  high_watermark = 3;
  low_watermark = 3;
}

reset_peer_queue-moves_example :
    (live_count (is_queued_for 4) (Store.reset_peer_queue list_cache 4 queued).0.inner.entries.1
      ≡ 0)
    × (live_count is_waiting (Store.reset_peer_queue list_cache 4 queued).0.inner.entries.1
        ≡ live_count is_waiting queued.inner.entries.1
          + (Store.reset_peer_queue list_cache 4 queued).1)
    × ((Store.reset_peer_queue list_cache 4 queued).1
        ≡ live_count (is_queued_for 4) queued.inner.entries.1)
reset_peer_queue-moves_example = reset_peer_queue-moves list_cache 4 queued

queued_run : (Store.reset_peer_queue list_cache 4 queued).1 ≡ 1
unfolding Store.reset_peer_queue Store.reset Store.count_reset
queued_run = refl

-- A bundle whose tombstone was evicted is put back by `replace`.
abbrev small : MetadataMemStorage ListCache
small = record {
  inner = record {
    entries = (1, (id_of 2, tombstone 1500) ∷ []);
    live = 0;
    tombstones = 1;
    near_capacity = false;
    evicted_live = 0;
  };
  high_watermark = 1;
  low_watermark = 1;
}

replaced_back :
    Store.get list_cache (id_of 2) (
      Store.replace list_cache 1200
        (bundle 2 waiting)
        (Store.insert list_cache 1200 (bundle 3 new) small).0)
    ≡ some (bundle 2 waiting)
unfolding Store.get Store.replace Store.insert Store.apply Store.upsert Store.check_watermark find
    push_entries split_last eq_id eq_eid eq_fragment has_expired expiry
replaced_back = refl
