-- ===== src/Bpa/Metadata/Refines.antt =====
-- bpa/src/storage/metadata_mem.rs: the store does what its trait promises of a map, but for the entries
-- that it evicts.
use mathlib.Core.Option
use hardy.Bpa.Metadata.Recency.Laws.{AreUnique}
use hardy.Prelude.{
  List, [], ◌∷◌, ℕ, ◌≤◌, ◌≡◌, refl, sym, ◌∙◌, ◌⊎◌, Bool, true, false, Bool-cases, Option-cases, inl,
  inr, Option, none, some, length, arith, if◌then◌else◌,
}
use hardy.Bpa.Reassembly.{BundleId}
use hardy.Bpa.Metadata.Status.{BundleStatus, eq_status, waiting, waiting_for_service}
use hardy.Bpa.Metadata.Bundles.{Bundle, expiry, eq_id, eq_id_iff}
use hardy.Bpa.Metadata.Recency.{LruCache, find, write_at}
use hardy.Bpa.Metadata.Recency.Moves.{
  promote-Same, write_at-AreUnique, find-write_at, find-map_values,
}
use hardy.Bpa.Metadata.Store.{
  count_reset, Entry, live, tombstone, MetadataMemStorage, refused, apply, expected_bundle,
  entry_expiry, reset_entry, is_queued_for, is_sent_to, is_delivered_to,
}
use hardy.Bpa.Metadata.Store
use hardy.Bpa.Metadata.Tidy.{IsTidy}
use hardy.Bpa.Metadata.Operations.{
  Operation, run, put, promised, insert_view, replace_view, swap_view, tombstone_view, bury_view,
  install_view, View, Answer, flagged, Replies, performed, Counted, AreDistinct, is_among, passes,
}
use hardy.Bpa.Metadata.Puts.{is_gone, view, Put, view-apply, apply-Put}

module _ (lru : LruCache Entry) where
  open lru use {Cache}

  -- The id of a bundle that a call may add
  abbrev pub new_key : Operation → Option BundleId
  new_key (Operation.insert b) = some b.id
  new_key (Operation.replace b) = some b.id
  new_key _ = none

  -- The map of `s'` is the target, but for one key at most. A key is lost only to a bundle that was not there, and only when the cache is full.
  pub record Refined (op : Operation) (target : View) (s s' : MetadataMemStorage Cache)
      : Type 0 where
    pub gone : Option BundleId
    pub seen : (j : BundleId) → view lru s' j ≡ (if is_gone gone j then none else target j)
    pub room :
        (k : BundleId)
        → gone ≡ some k
        → (key : BundleId) × (new_key op ≡ some key)
          × (view lru s key ≡ none)
          × (lru.capacity s.inner.entries ≤ length (lru.entries s.inner.entries))
          × (eq_id k key ≡ false)

  Put-Refined :
      (op : Operation) (key : BundleId) (value : Entry) (s s' : MetadataMemStorage Cache)
      → new_key op ≡ some key
      → ((j : BundleId) → performed op (view lru s) j ≡ put key value (view lru s) j)
      → Put lru key value s s'
      → Refined op (performed op (view lru s)) s s'
  Put-Refined op key value s s' n e p = record {
    gone = p.gone;
    seen = λ j. rw (e j) (p.seen j);
    room = λ k g. let (a, b, c) = p.room k g in (key, n, a, b, c);
  }

  -- Nothing is evicted for a key that is there.
  Put-there :
      (op : Operation) (key : BundleId) (value old : Entry) (s s' : MetadataMemStorage Cache)
      → view lru s key ≡ some old
      → ((j : BundleId) → performed op (view lru s) j ≡ put key value (view lru s) j)
      → Put lru key value s s'
      → Refined op (performed op (view lru s)) s s'
  Put-there op key value old s s' there e p = elim (Option-cases p.gone) [
    | inl g ↦ record {
      gone = none;
      seen = λ j. rw (e j) (rw g at (p.seen j));
      room = λ k q. absurd (cc);
    }
    | inr (k, g) ↦ absurd (cc (there, (p.room k g).0))
  ]

  Kept-Refined :
      (op : Operation) (s s' : MetadataMemStorage Cache)
      → ((j : BundleId) → view lru s' j ≡ performed op (view lru s) j)
      → Refined op (performed op (view lru s)) s s'
  Kept-Refined op s s' h = record { gone = none; seen = h; room = λ k q. absurd (cc) }

  abbrev pub Answered :
      Operation → MetadataMemStorage Cache → MetadataMemStorage Cache × Answer → Type 0
  Answered op s o = Replies op (view lru s) o.1 × Refined op (performed op (view lru s)) s o.0

  insert-Answered :
      (now : ℕ) (b : Bundle) (s : MetadataMemStorage Cache)
      → IsTidy lru s.inner
      → Answered (Operation.insert b) s (flagged (Store.insert lru now b s))
  unfolding performed promised Replies Store.insert refused
  insert-Answered now b s h = elim (Option-cases (view lru s b.id)) [
    | inl e ↦
        let fresh : Store.insert lru now b s ≡ (apply lru now b.id (live b) s, true) =
          rw (e, Store.insert) in
        rw fresh (
          rw (e, insert_view),
          Put-Refined (Operation.insert b) b.id (live b) s _ refl
              (λ j. rw (performed, e, insert_view))
              (apply-Put lru now b.id (live b) s h (rw (e, refused))),
        )
    | inr (v, e) ↦
        let known : Store.insert lru now b s ≡ (s, false) = rw (e, Store.insert) in
        rw known (
          rw (e, insert_view),
          Kept-Refined (Operation.insert b) s s (λ j. rw (performed, e, insert_view)),
        )
  ]

  replace-Refined :
      (now : ℕ) (b : Bundle) (s : MetadataMemStorage Cache)
      → IsTidy lru s.inner
      → (o : Option Entry) → view lru s b.id ≡ o
      → Refined
          (Operation.replace b)
          (performed (Operation.replace b) (view lru s))
          s
          (Store.replace lru now b s)
  unfolding performed promised Replies Store.replace refused
  replace-Refined now b s h none e =
      Put-Refined (Operation.replace b) b.id (live b) s _ refl
        (λ j. rw (e, install_view, replace_view))
        (apply-Put lru now b.id (live b) s h (rw (e, refused)))
  replace-Refined now b s h (some (live c)) e =
      Put-Refined (Operation.replace b) b.id (live b) s _ refl
        (λ j. rw (e, install_view, replace_view))
        (apply-Put lru now b.id (live b) s h (rw (e, refused)))
  replace-Refined now b s h (some (tombstone x)) e =
      Kept-Refined (Operation.replace b) s _
        (λ j. view-apply lru now b.id (live b) s j ∙ rw (e, install_view, replace_view, refused))

  bury-Refined :
      (now : ℕ) (id : BundleId) (s : MetadataMemStorage Cache)
      → IsTidy lru s.inner
      → (o : Option Entry) → view lru s id ≡ o
      → Refined
          (Operation.bury id)
          (performed (Operation.bury id) (view lru s))
          s
          (Store.bury lru now id s)
  unfolding performed promised Replies Store.bury refused
  bury-Refined now id s h none e =
      let gone : Store.bury lru now id s ≡ s = rw (e, Store.bury) in
      rw gone (Kept-Refined (Operation.bury id) s s (λ j. rw (e, bury_view)))
  bury-Refined now id s h (some v) e =
      let found : Store.bury lru now id s ≡ apply lru now id (tombstone (entry_expiry lru v)) s =
        rw (e, Store.bury) in
      rw found (
        Put-there (Operation.bury id) id (tombstone (entry_expiry lru v)) v s _ e
          (λ j. rw (e, bury_view) (buried v e j))
          (apply-Put lru now id (tombstone (entry_expiry lru v)) s h refl))
    where
      buried :
          (v : Entry)
          → view lru s id ≡ some v
          → (j : BundleId)
          → bury_view id (some v) (view lru s) j
            ≡ put id (tombstone (entry_expiry lru v)) (view lru s) j
      buried (live b) e j = refl
      buried (tombstone x) e j = ground (arith, e, eq_id_iff id j)

  -- The bundle that a conditional call finds, or none
  expected_cases :
      (id : BundleId) (expected : BundleStatus) (s : MetadataMemStorage Cache) (o : Option Entry)
      → view lru s id ≡ o
      → ((expected_bundle lru id expected s ≡ none)
          × ((status : BundleStatus)
              → swap_view id expected status o (view lru s) ≡ (view lru s, false))
          × (tombstone_view id expected o (view lru s) ≡ (view lru s, false)))
        ⊎ ((b : Bundle) × (expected_bundle lru id expected s ≡ some b)
            × (o ≡ some (live b))
            × ((status : BundleStatus)
                → swap_view id expected status o (view lru s)
                  ≡ (put id (live (record b { status = status })) (view lru s), true))
            × (tombstone_view id expected o (view lru s)
                ≡ (put id (tombstone (expiry b)) (view lru s), true)))
  unfolding expected_bundle
  expected_cases id expected s none e = inl (rw (e, expected_bundle), λ status. refl, refl)
  expected_cases id expected s (some (tombstone x)) e =
      inl (rw (e, expected_bundle), λ status. refl, refl)
  expected_cases id expected s (some (live b)) e = elim (Bool-cases (eq_status b.status expected)) [
    | inl q ↦ inr (b, rw (e, expected_bundle) (rw q), refl, λ status. rw q, rw q)
    | inr q ↦ inl (rw (e, expected_bundle) (rw q), λ status. rw q, rw q)
  ]

  -- A write to an entry that is there, which then counts as used
  rewritten : BundleId → Entry → MetadataMemStorage Cache → MetadataMemStorage Cache
  rewritten id e s = record s {
    inner = record (s.inner) { entries = lru.promote (lru.set_peeked s.inner.entries id e) id };
  }

  view-rewritten :
      (id j : BundleId) (e old : Entry) (s : MetadataMemStorage Cache)
      → IsTidy lru s.inner
      → view lru s id ≡ some old
      → view lru (rewritten id e s) j ≡ put id e (view lru s) j
  unfolding rewritten
  view-rewritten id j e old s h there =
      let es = lru.entries s.inner.entries in
      let there' : find id es ≡ some old = sym (lru.peek_lem s.inner.entries id) ∙ there in
      let moved = promote-Same id (write_at id e es) (write_at-AreUnique id e es h.unique) in
      rw
        (
          lru.peek_lem (rewritten id e s).inner.entries j,
          lru.entries-promote (lru.set_peeked s.inner.entries id e) id,
          lru.entries-set_peeked s.inner.entries id e,
          lru.peek_lem s.inner.entries j,
        )
        (moved.found j ∙ find-write_at j id e old es there')

  swap-Answered :
      (id : BundleId) (expected status : BundleStatus) (s : MetadataMemStorage Cache)
      → IsTidy lru s.inner
      → Answered
          (Operation.swap_status id expected status)
          s
          (flagged (Store.swap_status lru id expected status s))
  unfolding performed promised Replies Store.swap_status rewritten
  swap-Answered id expected status s h = elim (expected_cases id expected s (view lru s id) refl) [
    | inl (e, same, _) ↦
        rw (e, Store.swap_status)
          (
            rw (same status),
            Kept-Refined (Operation.swap_status id expected status) s s
                (λ j. rw (performed, same status)),
          )
    | inr (b, e, there, new, _) ↦
        rw (e, Store.swap_status)
          (
            rw (new status),
            Kept-Refined (Operation.swap_status id expected status) s _ (λ j.
                rw (performed, new status)
                  (view-rewritten id j (live (record b { status = status })) (live b) s h there)),
          )
  ]

  tombstone_if-Answered :
      (now : ℕ) (id : BundleId) (expected : BundleStatus) (s : MetadataMemStorage Cache)
      → IsTidy lru s.inner
      → Answered
          (Operation.tombstone_if id expected)
          s
          (flagged (Store.tombstone_if lru now id expected s))
  unfolding performed promised Replies Store.tombstone_if refused
  tombstone_if-Answered now id expected s h =
      elim (expected_cases id expected s (view lru s id) refl) [
        | inl (e, _, same) ↦
            rw (e, Store.tombstone_if)
              (
                rw same,
                Kept-Refined (Operation.tombstone_if id expected) s s (λ j. rw (performed, same)),
              )
        | inr (b, e, there, _, new) ↦
            rw (e, Store.tombstone_if)
              (
                rw new,
                Put-there (Operation.tombstone_if id expected) id (tombstone (expiry b)) (live b) s
                    _ there (λ j. rw (performed, new))
                    (apply-Put lru now id (tombstone (expiry b)) s h refl),
              )
      ]

  view-reset :
      (p : BundleStatus → Bool) (status : BundleStatus) (s : MetadataMemStorage Cache)
      (j : BundleId)
      → view lru (Store.reset lru p status s).0 j ≡ Option.map (reset_entry p status) (view lru s j)
  unfolding Store.reset
  view-reset p status s j =
      rw
        (
          lru.peek_lem (Store.reset lru p status s).0.inner.entries j,
          lru.entries-update_all s.inner.entries (reset_entry p status),
          lru.peek_lem s.inner.entries j,
        )
        (find-map_values j (reset_entry p status) (lru.entries s.inner.entries))

  -- The ids of the live bundles that a reset counts
  counted_ids : (BundleStatus → Bool) → List (BundleId × Entry) → List BundleId
  counted_ids p [] = []
  counted_ids p ((k, live b) ∷ es) = if p b.status then k ∷ counted_ids p es else counted_ids p es
  counted_ids p ((k, tombstone x) ∷ es) = counted_ids p es

  counted_size :
      (p : BundleStatus → Bool) (es : List (BundleId × Entry))
      → length (counted_ids p es) ≡ count_reset p es
  unfolding counted_ids count_reset
  counted_size p [] = refl
  counted_size p ((k, live b) ∷ es) = ground (arith, counted_size p es)
  counted_size p ((k, tombstone x) ∷ es) = counted_size p es

  counted_exact :
      (p : BundleStatus → Bool) (j : BundleId) (es : List (BundleId × Entry))
      → AreUnique es
      → is_among j (counted_ids p es) ≡ passes p (find j es)
  unfolding counted_ids find
  counted_exact p j [] u = refl
  counted_exact p j ((k, live b) ∷ es) u = ground (arith, counted_exact p j es, eq_id_iff k j, u.0)
  counted_exact p j ((k, tombstone x) ∷ es) u =
      ground (arith, counted_exact p j es, eq_id_iff k j, u.0)

  counted_distinct :
      (p : BundleStatus → Bool) (es : List (BundleId × Entry))
      → AreUnique es
      → AreDistinct (counted_ids p es)
  unfolding counted_ids find
  counted_distinct p [] u = tt
  counted_distinct p ((k, live b) ∷ es) u =
      let r = counted_distinct p es u.1 in
      elim (Bool-cases (p b.status)) [
        | inl e ↦ rw e (counted_exact p k es u.1 ∙ rw u.0 refl, r)
        | inr e ↦ rw e r
      ]
  counted_distinct p ((k, tombstone x) ∷ es) u = counted_distinct p es u.1

  reset-Counted :
      (p : BundleStatus → Bool) (s : MetadataMemStorage Cache)
      → IsTidy lru s.inner
      → Counted p (view lru s) (count_reset p (lru.entries s.inner.entries))
  reset-Counted p s h = record {
    ids = counted_ids p (lru.entries s.inner.entries);
    size = counted_size p (lru.entries s.inner.entries);
    distinct = counted_distinct p (lru.entries s.inner.entries) h.unique;
    exact = λ j.
        rw (lru.peek_lem s.inner.entries j)
          (counted_exact p j (lru.entries s.inner.entries) h.unique);
  }

  -- What each call does in memory
  pub run-Answered :
      (now : ℕ) (op : Operation) (s : MetadataMemStorage Cache)
      → IsTidy lru s.inner
      → Answered op s (run lru now op s)
  unfolding run performed promised Replies Store.reset_peer_queue Store.reset_peer_ack_pending
      Store.reset_service_queue Store.reset
  run-Answered now (Operation.insert b) s h = insert-Answered now b s h
  run-Answered now (Operation.replace b) s h =
      (refl, replace-Refined now b s h (view lru s b.id) refl)
  run-Answered now (Operation.swap_status id expected status) s h =
      swap-Answered id expected status s h
  run-Answered now (Operation.tombstone_if id expected) s h =
      tombstone_if-Answered now id expected s h
  run-Answered now (Operation.bury id) s h = (refl, bury-Refined now id s h (view lru s id) refl)
  run-Answered now (Operation.reset_peer_queue peer) s h = (
    (_, refl, reset-Counted (is_queued_for peer) s h),
    Kept-Refined (Operation.reset_peer_queue peer) s _ (view-reset (is_queued_for peer) waiting s),
  )
  run-Answered now (Operation.reset_peer_ack_pending peer) s h = (
    (_, refl, reset-Counted (is_sent_to peer) s h),
    Kept-Refined (Operation.reset_peer_ack_pending peer) s _
        (view-reset (is_sent_to peer) waiting s),
  )
  run-Answered now (Operation.reset_service_queue service) s h = (
    (_, refl, reset-Counted (is_delivered_to service) s h),
    Kept-Refined (Operation.reset_service_queue service) s _
        (view-reset (is_delivered_to service) (waiting_for_service service) s),
  )
