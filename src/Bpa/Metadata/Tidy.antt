-- ===== src/Bpa/Metadata/Tidy.antt =====
-- bpa/src/storage/metadata_mem.rs: the counters of the store agree with its entries.
use hardy.Prelude.{
  ℕ, ◌+◌, ◌^◌, ◌≤◌, ◌<◌, ◌≡◌, refl, sym, ◌∙◌, List, [], ◌∷◌, Bool, not, ◌&&◌, leb, ltb, Bool-cases,
  inl, inr, Option, none, some, length, arith, if◌then◌else◌,
}
use hardy.Bpa.Reassembly.{BundleId}
use hardy.Bpa.Metadata.Recency.{LruCache, find, push_entries}
use hardy.Bpa.Metadata.Recency.Laws.{
  AreUnique, count, Pushed, push_entries-Pushed, Pushed-AreUnique, Pushed-length, Pushed-count,
  weight,
}
use hardy.Bpa.Metadata.Recency.Moves.{Same, demote-Same}
use hardy.Bpa.Metadata.Store.{
  Entry, live, tombstone, is_live, is_tombstone, Inner, MetadataMemStorage, release, count_new,
  demotes, refused, check_watermark, upsert, apply,
}

module _ (lru : LruCache Entry) where
  open lru use {Cache}

  -- The keys are unique, the cache holds no more than its capacity, and each counter is the number of
  -- the entries of its kind.
  pub record IsTidy (inner : Inner Cache) : Type 0 where
    pub unique : AreUnique (lru.entries inner.entries)
    pub sized : length (lru.entries inner.entries) ≤ lru.capacity inner.entries
    pub positive : 0 < lru.capacity inner.entries
    pub bounded : lru.capacity inner.entries < 2 ^ 64
    pub live_counted : inner.live ≡ count is_live (lru.entries inner.entries)
    pub tombstones_counted : inner.tombstones ≡ count is_tombstone (lru.entries inner.entries)

  count-le : {V : Type 0} (p : V → Bool) (es : List (BundleId × V)) → count p es ≤ length es
  unfolding count
  count-le p [] = omega arith
  count-le p ((k, v) ∷ es) = ground (arith, count-le p es)

  -- The entries after `upsert`, before a tombstone is demoted
  pub pushed : BundleId → Entry → Inner Cache → List (BundleId × Entry) × Option (BundleId × Entry)
  pushed key value inner =
      push_entries (lru.capacity inner.entries) key value (lru.entries inner.entries)

  pub pushed-Pushed :
      (key : BundleId) (value : Entry) (inner : Inner Cache)
      → IsTidy inner
      → Pushed
          (lru.capacity inner.entries)
          key
          value
          (lru.entries inner.entries)
          (pushed key value inner)
  unfolding pushed
  pushed-Pushed key value inner h =
      push_entries-Pushed (lru.capacity inner.entries) key value (lru.entries inner.entries)
        h.positive

  counters :
      (now : ℕ) (key : BundleId) (value : Entry) (inner : Inner Cache)
      (out : Option (BundleId × Entry)) (l t : ℕ)
      → l + weight is_live out ≡ inner.live + (if is_live value then 1 else 0)
      → t + weight is_tombstone out ≡ inner.tombstones + (if is_tombstone value then 1 else 0)
      → l < 2 ^ 64
      → t < 2 ^ 64
      → inner.live < 2 ^ 64
      → inner.tombstones < 2 ^ 64
      → ((release now key out (count_new value inner)).live ≡ l)
        × ((release now key out (count_new value inner)).tombstones ≡ t)
  unfolding release count_new
  counters now key (live b) inner none l t p q m n i j = omega arith
  counters now key (tombstone e) inner none l t p q m n i j = omega arith
  counters now key (live b) inner (some (k, live c)) l t p q m n i j = ground arith
  counters now key (live b) inner (some (k, tombstone f)) l t p q m n i j = ground arith
  counters now key (tombstone e) inner (some (k, live c)) l t p q m n i j = ground arith
  counters now key (tombstone e) inner (some (k, tombstone f)) l t p q m n i j = ground arith

  -- The cache after a push and the demotion
  pub settle : ℕ → BundleId → Entry → Inner Cache → Cache
  settle now key value inner =
      if demotes now value
      then lru.demote (lru.push inner.entries key value).0 key
      else (lru.push inner.entries key value).0

  pub settle-Same :
      (now : ℕ) (key : BundleId) (value : Entry) (inner : Inner Cache)
      → IsTidy inner
      → Same (pushed key value inner).0 (lru.entries (settle now key value inner))
  unfolding settle
  settle-Same now key value inner h = elim (Bool-cases (demotes now value)) [
    | inl e ↦
        rw (e, lru.entries-demote, entries) (demote-Same key (pushed key value inner).0 unique)
    | inr e ↦
        rw (e, entries)
          (record { found = λ j. refl; kept = λ u. u; sized = refl; counted = λ p. refl })
  ]
    where
      entries : lru.entries (lru.push inner.entries key value).0 ≡ (pushed key value inner).0
      entries = unfold pushed in lru.entries-push inner.entries key value

      unique : AreUnique (pushed key value inner).0
      unique = Pushed-AreUnique h.unique (pushed-Pushed key value inner h)

  capacity-settle :
      (now : ℕ) (key : BundleId) (value : Entry) (inner : Inner Cache)
      → lru.capacity (settle now key value inner) ≡ lru.capacity inner.entries
  unfolding settle
  capacity-settle now key value inner = elim (Bool-cases (demotes now value)) [
    | inl e ↦ rw (e, lru.capacity-demote) (lru.capacity-push inner.entries key value)
    | inr e ↦ rw e (lru.capacity-push inner.entries key value)
  ]

  -- The state after an `upsert` that is not refused
  unfoldable pub upserted : ℕ → BundleId → Entry → Inner Cache → Inner Cache
  upserted now key value inner =
      record (release now key (pushed key value inner).1 (count_new value inner)) {
        entries = settle now key value inner;
      }

  pub upsert_lem :
      (now : ℕ) (key : BundleId) (value : Entry) (inner : Inner Cache)
      → upsert lru now key value inner ≡ (
          if refused value (find key (lru.entries inner.entries))
          then inner
          else upserted now key value inner)
  unfolding upsert upserted settle pushed
  upsert_lem now key value inner =
      rw (lru.peek_lem inner.entries key, lru.push_out inner.entries key value) refl

  upserted-IsTidy :
      (now : ℕ) (key : BundleId) (value : Entry) (inner : Inner Cache)
      → IsTidy inner
      → IsTidy (upserted now key value inner)
  unfolding upserted
  upserted-IsTidy now key value inner h = record {
    unique = same.kept (Pushed-AreUnique h.unique p);
    sized = rw cap (rw same.sized (Pushed-length h.sized p));
    positive = rw cap h.positive;
    bounded = rw cap h.bounded;
    live_counted = both.0 ∙ sym (same.counted is_live);
    tombstones_counted = both.1 ∙ sym (same.counted is_tombstone);
  }
    where
      p :
          Pushed
            (lru.capacity inner.entries)
            key
            value
            (lru.entries inner.entries)
            (pushed key value inner)
      p = pushed-Pushed key value inner h

      same : Same (pushed key value inner).0 (lru.entries (settle now key value inner))
      same = settle-Same now key value inner h

      cap : lru.capacity (settle now key value inner) ≡ lru.capacity inner.entries
      cap = capacity-settle now key value inner

      both :
          ((release now key (pushed key value inner).1 (count_new value inner)).live
            ≡ count is_live (pushed key value inner).0)
          × ((release now key (pushed key value inner).1 (count_new value inner)).tombstones
              ≡ count is_tombstone (pushed key value inner).0)
      both =
          counters now key value inner (pushed key value inner).1 _ _
            (omega (arith, Pushed-count is_live p, h.live_counted))
            (omega (arith, Pushed-count is_tombstone p, h.tombstones_counted))
            (omega (
              arith,
              count-le is_live (pushed key value inner).0,
              Pushed-length h.sized p,
              h.bounded,
            ))
            (omega (
              arith,
              count-le is_tombstone (pushed key value inner).0,
              Pushed-length h.sized p,
              h.bounded,
            ))
            (omega (
              arith,
              count-le is_live (lru.entries inner.entries),
              h.sized,
              h.bounded,
              h.live_counted,
            ))
            (omega (
              arith,
              count-le is_tombstone (lru.entries inner.entries),
              h.sized,
              h.bounded,
              h.tombstones_counted,
            ))

  upsert-IsTidy :
      (now : ℕ) (key : BundleId) (value : Entry) (inner : Inner Cache)
      → IsTidy inner
      → IsTidy (upsert lru now key value inner)
  upsert-IsTidy now key value inner h =
      rw (upsert_lem now key value inner)
        (elim (Bool-cases (refused value (find key (lru.entries inner.entries)))) [
          | inl e ↦ rw e h
          | inr e ↦ rw e (upserted-IsTidy now key value inner h)
        ])

  pub watermark_entries :
      (high low : ℕ) (inner : Inner Cache)
      → (check_watermark high low inner).0.entries ≡ inner.entries
  unfolding check_watermark
  watermark_entries high low inner = ground arith

  -- The other fields do not matter.
  rebuilt :
      {inner : Inner Cache} {near : Bool} {evicted : ℕ}
      → IsTidy inner
      → IsTidy (record inner { near_capacity = near; evicted_live = evicted })
  rebuilt h = record {
    unique = h.unique;
    sized = h.sized;
    positive = h.positive;
    bounded = h.bounded;
    live_counted = h.live_counted;
    tombstones_counted = h.tombstones_counted;
  }

  watermark-IsTidy :
      (high low : ℕ) (inner : Inner Cache)
      → IsTidy inner
      → IsTidy (check_watermark high low inner).0
  unfolding check_watermark
  watermark-IsTidy high low inner h =
      elim (Bool-cases (not inner.near_capacity && leb high inner.live)) [
        | inl e ↦ rw e (rebuilt h)
        | inr e ↦ elim (Bool-cases (inner.near_capacity && ltb inner.live low)) [
          | inl f ↦ rw (e, f) (rebuilt h)
          | inr f ↦ rw (e, f) h
        ]
      ]

  pub apply-IsTidy :
      (now : ℕ) (key : BundleId) (value : Entry) (s : MetadataMemStorage Cache)
      → IsTidy s.inner
      → IsTidy (apply lru now key value s).inner
  unfolding apply
  apply-IsTidy now key value s h =
      watermark-IsTidy s.high_watermark s.low_watermark (upsert lru now key value s.inner)
        (upsert-IsTidy now key value s.inner h)
