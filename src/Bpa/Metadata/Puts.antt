-- ===== src/Bpa/Metadata/Puts.antt =====
-- bpa/src/storage/metadata_mem.rs: what an `upsert` does to the map of the store.
use hardy.Prelude.{
  ℕ, ◌≤◌, ◌≡◌, ◌∙◌, Bool, false, Option, none, some, List, length, arith, if◌then◌else◌,
}
use hardy.Bpa.Reassembly.{BundleId}
use hardy.Bpa.Metadata.Bundles.{eq_id, eq_id_iff}
use hardy.Bpa.Metadata.Recency.{LruCache, find, split_last}
use hardy.Bpa.Metadata.Recency.Laws.{
  AreUnique, Pushed, replaced, added, evicted, Pushed-find, find-split_last,
}
use hardy.Bpa.Metadata.Store.{
  Entry, live, tombstone, MetadataMemStorage, refused, apply, expected_bundle, entry_expiry,
  reset_entry, is_queued_for, is_sent_to, is_delivered_to,
}
use hardy.Bpa.Metadata.Store
use hardy.Bpa.Metadata.Tidy.{
  IsTidy, pushed, pushed-Pushed, settle-Same, upserted, upsert_lem, watermark_entries,
}
use hardy.Bpa.Metadata.Operations.{View, put}

abbrev pub is_gone : Option BundleId → BundleId → Bool
is_gone none j = false
is_gone (some k) j = eq_id k j

module _ (lru : LruCache Entry) where
  open lru use {Cache}

  -- The entry that a lookup finds
  abbrev pub view : MetadataMemStorage Cache → View
  view s j = lru.peek s.inner.entries j

  -- An entry that was put, and the key of the one that was evicted for it, if any
  pub record Put (key : BundleId) (value : Entry) (s s' : MetadataMemStorage Cache) : Type 0 where
    pub gone : Option BundleId
    pub seen :
        (j : BundleId) → view s' j ≡ (if is_gone gone j then none else put key value (view s) j)
    pub room :
        (k : BundleId)
        → gone ≡ some k
        → (view s key ≡ none)
          × (lru.capacity s.inner.entries ≤ length (lru.entries s.inner.entries))
          × (eq_id k key ≡ false)

  Pushed-Put :
      (key : BundleId) (value : Entry) (s s' : MetadataMemStorage Cache)
      {o : List (BundleId × Entry) × Option (BundleId × Entry)}
      → AreUnique (lru.entries s.inner.entries)
      → Pushed (lru.capacity s.inner.entries) key value (lru.entries s.inner.entries) o
      → ((j : BundleId) → view s' j ≡ find j o.0)
      → Put key value s s'
  Pushed-Put key value s s' u (replaced old e) h = record {
    gone = none;
    seen = λ j.
        h j
        ∙ (Pushed-find {capacity = lru.capacity s.inner.entries} j u (replaced old e)
            ∙ rw (lru.peek_lem s.inner.entries j) (ground arith));
    room = λ k e'. absurd (cc);
  }
  Pushed-Put key value s s' u (added e f) h = record {
    gone = none;
    seen = λ j.
        h j
        ∙ (Pushed-find {capacity = lru.capacity s.inner.entries} j u (added e f)
            ∙ rw (lru.peek_lem s.inner.entries j) (ground arith));
    room = λ k e'. absurd (cc);
  }
  Pushed-Put key value s s' u (evicted d rest e f full) h = record {
    gone = some (split_last d rest).1.0;
    seen = λ j.
        h j
        ∙ (Pushed-find {capacity = lru.capacity s.inner.entries} j u (evicted d rest e f full)
            ∙ rw (lru.peek_lem s.inner.entries j) (ground (arith, eq_id_iff key j, other)));
    room = λ k e'. (rw (lru.peek_lem s.inner.entries key) e, full, ground (arith, other, e'));
  }
    where
      other : eq_id (split_last d rest).1.0 key ≡ false
      other = ground (
        arith,
        find-split_last key d rest (rw f at u),
        eq_id_iff (split_last d rest).1.0 key,
        rw f at e,
      )

  pub view-apply :
      (now : ℕ) (key : BundleId) (value : Entry) (s : MetadataMemStorage Cache) (j : BundleId)
      → view (apply lru now key value s) j ≡ (
          if refused value (view s key)
          then view s j
          else find j (lru.entries (upserted lru now key value s.inner).entries))
  unfolding apply
  view-apply now key value s j =
      rw
        (
          lru.peek_lem (apply lru now key value s).inner.entries j,
          watermark_entries lru s.high_watermark s.low_watermark
              (Store.upsert lru now key value s.inner),
          upsert_lem lru now key value s.inner,
          lru.peek_lem s.inner.entries key,
          lru.peek_lem s.inner.entries j,
        )
        (ground arith)

  settled :
      (now : ℕ) (key : BundleId) (value : Entry) (s : MetadataMemStorage Cache) (j : BundleId)
      → IsTidy lru s.inner
      → find j (lru.entries (upserted lru now key value s.inner).entries)
        ≡ find j (pushed lru key value s.inner).0
  unfolding upserted
  settled now key value s j h = (settle-Same lru now key value s.inner h).found j

  pub apply-Put :
      (now : ℕ) (key : BundleId) (value : Entry) (s : MetadataMemStorage Cache)
      → IsTidy lru s.inner
      → refused value (view s key) ≡ false
      → Put key value s (apply lru now key value s)
  apply-Put now key value s h r =
      Pushed-Put key value s (apply lru now key value s) h.unique
        (pushed-Pushed lru key value s.inner h)
        (λ j. rw (view-apply now key value s j, r) (settled now key value s j h))
