-- ===== src/Bpa/Metadata/Invariant.antt =====
-- bpa/src/storage/metadata_mem.rs: the store stays in good order under every call.
use hardy.Prelude.{
  ℕ, ◌+◌, ◌≤◌, ◌<◌, ◌^◌, ◌≡◌, refl, sym, ◌∙◌, Bool, Option-cases, inl, inr, Option, none, some,
  List, [], ◌∷◌, length, arith, if◌then◌else◌,
}
use hardy.Bpa.Reassembly.{BundleId}
use hardy.Bpa.Metadata.Status.{BundleStatus, eq_status}
use hardy.Bpa.Metadata.Bundles.{Bundle, expiry}
use hardy.Bpa.Metadata.Recency.{LruCache, find, write_at, promote_entries}
use hardy.Bpa.Metadata.Recency.Laws.{AreUnique, count}
use hardy.Bpa.Metadata.Recency.Moves.{
  Same, promote-Same, write_at-AreUnique, length-write_at, count-write_at, map_values-AreUnique,
  length-map_values, count-map_values,
}
use hardy.Bpa.Metadata.Store.{
  Entry, live, tombstone, is_live, is_tombstone, MetadataMemStorage, Inner, create, expected_bundle,
  reset_entry,
}
use hardy.Bpa.Metadata.Store
use hardy.Bpa.Metadata.Tidy.{IsTidy, apply-IsTidy}
use hardy.Bpa.Metadata.Operations.{Operation, run}

module _ (lru : LruCache Entry) where
  open lru use {Cache}

  -- Other entries with the same counts, in place of those of the state
  exchanged :
      (inner : Inner Cache) (c : Cache)
      → IsTidy lru inner
      → AreUnique (lru.entries c)
      → length (lru.entries c) ≡ length (lru.entries inner.entries)
      → lru.capacity c ≡ lru.capacity inner.entries
      → count is_live (lru.entries c) ≡ count is_live (lru.entries inner.entries)
      → count is_tombstone (lru.entries c) ≡ count is_tombstone (lru.entries inner.entries)
      → IsTidy lru (record inner { entries = c })
  exchanged inner c h u l p a b = record {
    unique = u;
    sized = rw (p, l) h.sized;
    positive = rw p h.positive;
    bounded = rw p h.bounded;
    live_counted = h.live_counted ∙ sym a;
    tombstones_counted = h.tombstones_counted ∙ sym b;
  }

  swapped :
      (id : BundleId) (b c : Bundle) (inner : Inner Cache)
      → IsTidy lru inner
      → find id (lru.entries inner.entries) ≡ some (live b)
      → IsTidy lru
          (record inner { entries = lru.promote (lru.set_peeked inner.entries id (live c)) id })
  swapped id b c inner h there =
      exchanged inner (lru.promote (lru.set_peeked inner.entries id (live c)) id) h
        (rw moved (same.kept unique)) (rw moved (same.sized ∙ length-write_at id (live c) es))
        (lru.capacity-promote _ id ∙ lru.capacity-set_peeked inner.entries id (live c))
        (rw moved
          (same.counted is_live ∙ count-write_at is_live id (live c) (live b) es there refl))
        (rw moved (
          same.counted is_tombstone
          ∙ count-write_at is_tombstone id (live c) (live b) es there refl))
    where
      es : List (BundleId × Entry)
      es = lru.entries inner.entries

      unique : AreUnique (write_at id (live c) (lru.entries inner.entries))
      unique = write_at-AreUnique id (live c) (lru.entries inner.entries) h.unique

      same :
          Same
            (write_at id (live c) (lru.entries inner.entries))
            (promote_entries id (write_at id (live c) (lru.entries inner.entries)))
      same = promote-Same id (write_at id (live c) (lru.entries inner.entries)) unique

      moved :
          lru.entries (lru.promote (lru.set_peeked inner.entries id (live c)) id)
          ≡ promote_entries id (write_at id (live c) (lru.entries inner.entries))
      moved =
          rw (← lru.entries-set_peeked inner.entries id (live c))
            (lru.entries-promote (lru.set_peeked inner.entries id (live c)) id)

  expected_found :
      (id : BundleId) (expected : BundleStatus) (s : MetadataMemStorage Cache) (b : Bundle)
      (o : Option Entry)
      → lru.peek s.inner.entries id ≡ o
      → expected_bundle lru id expected s ≡ some b
      → o ≡ some (live b)
  unfolding expected_bundle
  expected_found id expected s b none e h =
      let missing : expected_bundle lru id expected s ≡ none = rw (e, expected_bundle) in cc
  expected_found id expected s b (some (tombstone x)) e h =
      let missing : expected_bundle lru id expected s ≡ none = rw (e, expected_bundle) in cc
  expected_found id expected s b (some (live c)) e h =
      let tested : expected_bundle lru id expected s
          ≡ (if eq_status c.status expected then some c else none) =
        rw (e, expected_bundle) in
      ground (arith, tested)

  swap_status-IsTidy :
      (id : BundleId) (expected status : BundleStatus) (s : MetadataMemStorage Cache)
      → IsTidy lru s.inner
      → IsTidy lru (Store.swap_status lru id expected status s).0.inner
  unfolding Store.swap_status
  swap_status-IsTidy id expected status s h =
      elim (Option-cases (expected_bundle lru id expected s)) [
        | inl e ↦ rw (e, Store.swap_status) h
        | inr (b, e) ↦
            rw (e, Store.swap_status)
              (swapped id b (record b { status = status }) s.inner h
                (sym (lru.peek_lem s.inner.entries id) ∙ expected_found id expected s b _ refl e))
      ]

  insert-IsTidy :
      (now : ℕ) (b : Bundle) (s : MetadataMemStorage Cache)
      → IsTidy lru s.inner
      → IsTidy lru (Store.insert lru now b s).0.inner
  unfolding Store.insert
  insert-IsTidy now b s h = elim (Option-cases (lru.peek s.inner.entries b.id)) [
    | inl e ↦ rw (e, Store.insert) (apply-IsTidy lru now b.id (live b) s h)
    | inr (v, e) ↦ rw (e, Store.insert) h
  ]

  tombstone_if-IsTidy :
      (now : ℕ) (id : BundleId) (expected : BundleStatus) (s : MetadataMemStorage Cache)
      → IsTidy lru s.inner
      → IsTidy lru (Store.tombstone_if lru now id expected s).0.inner
  unfolding Store.tombstone_if
  tombstone_if-IsTidy now id expected s h =
      elim (Option-cases (expected_bundle lru id expected s)) [
        | inl e ↦ rw (e, Store.tombstone_if) h
        | inr (b, e) ↦
            rw (e, Store.tombstone_if) (apply-IsTidy lru now id (tombstone (expiry b)) s h)
      ]

  bury-IsTidy :
      (now : ℕ) (id : BundleId) (s : MetadataMemStorage Cache)
      → IsTidy lru s.inner
      → IsTidy lru (Store.bury lru now id s).inner
  unfolding Store.bury
  bury-IsTidy now id s h = elim (Option-cases (lru.peek s.inner.entries id)) [
    | inl e ↦ rw (e, Store.bury) h
    | inr (v, e) ↦
        rw (e, Store.bury) (apply-IsTidy lru now id (tombstone (Store.entry_expiry lru v)) s h)
  ]

  reset-IsTidy :
      (p : BundleStatus → Bool) (status : BundleStatus) (s : MetadataMemStorage Cache)
      → IsTidy lru s.inner
      → IsTidy lru (Store.reset lru p status s).0.inner
  unfolding Store.reset
  reset-IsTidy p status s h =
      let all = lru.entries-update_all s.inner.entries (reset_entry p status) in
      let es = lru.entries s.inner.entries in
      exchanged s.inner _ h (rw all (map_values-AreUnique (reset_entry p status) es h.unique))
        (rw all (length-map_values (reset_entry p status) es))
        (lru.capacity-update_all s.inner.entries (reset_entry p status))
        (rw all (count-map_values is_live (reset_entry p status) es live_kept))
        (rw all (count-map_values is_tombstone (reset_entry p status) es buried_kept))
    where
      live_kept : (e : Entry) → is_live (reset_entry p status e) ≡ is_live e
      live_kept (live b) = ground arith
      live_kept (tombstone x) = refl

      buried_kept : (e : Entry) → is_tombstone (reset_entry p status e) ≡ is_tombstone e
      buried_kept (live b) = ground arith
      buried_kept (tombstone x) = refl

  pub run-IsTidy :
      (now : ℕ) (op : Operation) (s : MetadataMemStorage Cache)
      → IsTidy lru s.inner
      → IsTidy lru (run lru now op s).0.inner
  unfolding run Store.replace Store.reset_peer_queue Store.reset_peer_ack_pending
      Store.reset_service_queue
  run-IsTidy now (Operation.insert b) s h = insert-IsTidy now b s h
  run-IsTidy now (Operation.replace b) s h = apply-IsTidy lru now b.id (live b) s h
  run-IsTidy now (Operation.swap_status id expected status) s h =
      swap_status-IsTidy id expected status s h
  run-IsTidy now (Operation.tombstone_if id expected) s h = tombstone_if-IsTidy now id expected s h
  run-IsTidy now (Operation.bury id) s h = bury-IsTidy now id s h
  run-IsTidy now (Operation.reset_peer_queue peer) s h = reset-IsTidy _ _ s h
  run-IsTidy now (Operation.reset_peer_ack_pending peer) s h = reset-IsTidy _ _ s h
  run-IsTidy now (Operation.reset_service_queue service) s h = reset-IsTidy _ _ s h

  create-IsTidy : (max : ℕ) → 0 < max → max < 2 ^ 64 → IsTidy lru (create lru (some max)).inner
  unfolding create count
  create-IsTidy max p b = record {
    unique = rw (lru.entries-new max) tt;
    sized = rw (lru.entries-new max) (omega arith);
    positive = rw (lru.capacity-new max) p;
    bounded = rw (lru.capacity-new max) b;
    live_counted = rw (lru.entries-new max) refl;
    tombstones_counted = rw (lru.entries-new max) refl;
  }

  -- The calls of a list in turn, each with the time at which it is made
  pub run_all : List (ℕ × Operation) → MetadataMemStorage Cache → MetadataMemStorage Cache
  run_all [] s = s
  run_all ((now, op) ∷ calls) s = run_all calls (run lru now op s).0

  run_all-IsTidy :
      (calls : List (ℕ × Operation)) (s : MetadataMemStorage Cache)
      → IsTidy lru s.inner
      → IsTidy lru (run_all calls s).inner
  unfolding run_all
  run_all-IsTidy [] s h = h
  run_all-IsTidy ((now, op) ∷ calls) s h =
      run_all-IsTidy calls (run lru now op s).0 (run-IsTidy now op s h)

  both_counts :
      (es : List (BundleId × Entry)) → count is_live es + count is_tombstone es ≡ length es
  unfolding count
  both_counts [] = refl
  both_counts ((k, live b) ∷ es) = omega (arith, both_counts es)
  both_counts ((k, tombstone x) ∷ es) = omega (arith, both_counts es)

  -- The state after some calls of a new store
  abbrev pub after : ℕ → List (ℕ × Operation) → Inner Cache
  after max calls = (run_all calls (create lru (some max))).inner

  -- After any calls of a new store of at least one entry, the counters are the numbers of its live
  -- entries and of its tombstones, no id has two entries, and the entries are no more than the cache
  -- holds.
  pub counters_exact :
      (max : ℕ) (calls : List (ℕ × Operation))
      → 0 < max
      → max < 2 ^ 64
      → ((after max calls).live ≡ count is_live (lru.entries (after max calls).entries))
        × ((after max calls).tombstones
            ≡ count is_tombstone (lru.entries (after max calls).entries))
        × AreUnique (lru.entries (after max calls).entries)
        × ((after max calls).live + (after max calls).tombstones
            ≤ lru.capacity (after max calls).entries)
  counters_exact max calls p b =
      let h = run_all-IsTidy calls (create lru (some max)) (create-IsTidy max p b) in
      (
        h.live_counted,
        h.tombstones_counted,
        h.unique,
        omega (
          arith,
          h.sized,
          h.live_counted,
          h.tombstones_counted,
          both_counts (lru.entries (after max calls).entries),
        ),
      )
