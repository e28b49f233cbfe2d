-- ===== src/Bpa/Metadata/Resets.antt =====
-- bpa/src/storage/metadata_mem.rs: the reset of a peer's queue.
use hardy.Prelude.{ℕ, ◌+◌, ◌≡◌, refl, Bool, true, false, Bool-cases, inl, inr, List, [], ◌∷◌, arith}
use hardy.Bpa.Reassembly.{BundleId}
use hardy.Bpa.Metadata.Status.{BundleStatus, waiting, forward_pending, eq_status}
use hardy.Bpa.Metadata.Recency.{LruCache, map_values}
use hardy.Bpa.Metadata.Recency.Laws.{count}
use hardy.Bpa.Metadata.Store.{
  reset, Entry, live, tombstone, MetadataMemStorage, count_reset, reset_entry, reset_peer_queue,
  is_queued_for,
}

abbrev pub is_waiting : BundleStatus → Bool
is_waiting s = eq_status s waiting

-- The entry is live and its status passes a test.
abbrev pub has_status : (BundleStatus → Bool) → Entry → Bool
has_status p (live b) = p b.status
has_status p (tombstone expiry) = false

-- How many entries are live bundles with a status that passes a test
abbrev pub live_count : (BundleStatus → Bool) → List (BundleId × Entry) → ℕ
live_count p es = count (has_status p) es

reset-count :
    (p : BundleStatus → Bool) (es : List (BundleId × Entry))
    → ((s : BundleStatus) → p s ≡ true → is_waiting s ≡ false)
    → p waiting ≡ false
    → (live_count p (map_values (reset_entry p waiting) es) ≡ 0)
      × (live_count is_waiting (map_values (reset_entry p waiting) es)
          ≡ live_count is_waiting es + count_reset p es)
unfolding count count_reset map_values eq_status
reset-count p [] h n = (refl, refl)
reset-count p ((k, tombstone x) ∷ es) h n =
    let r = reset-count p es h n in (omega (arith, r.0), omega (arith, r.1))
reset-count p ((k, live b) ∷ es) h n =
    let (empty, more) = reset-count p es h n in
    elim (Bool-cases (p b.status)) [
      | inl e ↦
          let other : is_waiting b.status ≡ false = h b.status e in
          rw e (rw n (omega (arith, empty)), rw other (omega (arith, more)))
      | inr e ↦ rw e (rw e (omega (arith, empty)), omega (arith, more))
    ]

count_reset_lem :
    (p : BundleStatus → Bool) (es : List (BundleId × Entry)) → count_reset p es ≡ live_count p es
unfolding count count_reset
count_reset_lem p [] = refl
count_reset_lem p ((k, live b) ∷ es) = omega (arith, count_reset_lem p es)
count_reset_lem p ((k, tombstone x) ∷ es) = omega (arith, count_reset_lem p es)

module _ (lru : LruCache Entry) where
  -- The reset of a peer's queue returns how many live bundles were queued for the peer. After it none is, and as many more are waiting.
  pub reset_peer_queue-moves :
      (peer : ℕ) (s : MetadataMemStorage (lru.Cache))
      → (live_count (is_queued_for peer) (lru.entries (reset_peer_queue lru peer s).0.inner.entries)
          ≡ 0)
        × (live_count is_waiting (lru.entries (reset_peer_queue lru peer s).0.inner.entries)
            ≡ live_count is_waiting (lru.entries s.inner.entries) + (reset_peer_queue lru peer s).1)
        × ((reset_peer_queue lru peer s).1
            ≡ live_count (is_queued_for peer) (lru.entries s.inner.entries))
  unfolding reset_peer_queue reset eq_status
  reset_peer_queue-moves peer s =
      let r =
        reset-count (is_queued_for peer) (lru.entries s.inner.entries) (λ st e. queued st e) refl in
      rw (lru.entries-update_all s.inner.entries (reset_entry (is_queued_for peer) waiting))
        (r.0, r.1, count_reset_lem (is_queued_for peer) (lru.entries s.inner.entries))
    where
      queued : (st : BundleStatus) → is_queued_for peer st ≡ true → is_waiting st ≡ false
      queued (forward_pending p q n) e = refl
      queued _ e = cc
