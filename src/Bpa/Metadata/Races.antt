-- ===== src/Bpa/Metadata/Races.antt =====
-- bpa/src/storage/metadata_mem.rs: the calls that contend for a bundle.
use hardy.Prelude.{
  ℕ, ◌+◌, ◌≤◌, ◌≡◌, ◌≢◌, ◌⊎◌, refl, ◌∙◌, Bool, true, false, Bool-cases, Option-cases, inl, inr,
  Option, none, some, List, [], ◌∷◌, length, arith, if◌then◌else◌,
}
use hardy.Cbor.Bytes.{All}
use hardy.Bpa.Reassembly.{BundleId}
use hardy.Bpa.Metadata.Status.{BundleStatus, eq_status, eq_status_iff}
use hardy.Bpa.Metadata.Bundles.{Bundle, expiry, eq_id, eq_id_iff}
use hardy.Bpa.Metadata.Bundles
use hardy.Bpa.Metadata.Recency.{LruCache}
use hardy.Bpa.Metadata.Store.{Entry, live, tombstone, MetadataMemStorage}
use hardy.Bpa.Metadata.Tidy.{IsTidy}
use hardy.Bpa.Metadata.Operations.{
  Operation, run, View, put, performed, Answer, flag, Replies, install_view, swap_view,
  tombstone_view, insert_view, bury_view,
}
use hardy.Bpa.Metadata.Puts.{view, is_gone}
use hardy.Bpa.Metadata.Refines.{Refined, run-Answered}
use hardy.Bpa.Metadata.Invariant.{run-IsTidy}

-- A call that contends for a bundle: to give it another status, or to delete it
pub data Claim : Type 0 where
  swap : BundleStatus → Claim
  delete : Claim

-- A call that does not write the status that all expect
abbrev pub Moves : BundleStatus → Claim → Type 0
Moves expected (swap status) = status ≢ expected
Moves expected delete = Unit

-- The entry is live and has the expected status.
abbrev pub holds : BundleStatus → Option Entry → Bool
holds expected (some (live b)) = eq_status b.status expected
holds expected _ = false

-- A call answers true.
abbrev pub is_true : Answer → Bool
is_true (flag b) = b
is_true _ = false

module _ (lru : LruCache Entry) (now : ℕ) (id : BundleId) (expected : BundleStatus) where
  open lru use {Cache}

  abbrev pub claim : Claim → Operation
  claim (swap status) = Operation.swap_status id expected status
  claim delete = Operation.tombstone_if id expected

  -- How many of the calls return true, one after the other
  pub wins : List Claim → MetadataMemStorage Cache → ℕ
  wins [] s = 0
  wins (c ∷ cs) s =
      (if is_true (run lru now (claim c) s).1 then 1 else 0) + wins cs (run lru now (claim c) s).0

  swap_claim :
      (status : BundleStatus) (v : View) (o : Option Entry)
      → v id ≡ o
      → status ≢ expected
      → ((swap_view id expected status o v).1 ≡ holds expected o)
        × (holds expected ((swap_view id expected status o v).0 id) ≡ false)
  swap_claim status v none h m = (refl, rw h refl)
  swap_claim status v (some (tombstone x)) h m = (refl, rw h refl)
  swap_claim status v (some (live b)) h m = elim (Bool-cases (eq_status b.status expected)) [
    | inl e ↦
        rw e (rw ((eq_id_iff id id).1 refl) (refl, ground (arith, eq_status_iff status expected)))
    | inr e ↦ rw e (refl, rw h e)
  ]

  delete_claim :
      (v : View) (o : Option Entry)
      → v id ≡ o
      → ((tombstone_view id expected o v).1 ≡ holds expected o)
        × (holds expected ((tombstone_view id expected o v).0 id) ≡ false)
  delete_claim v none h = (refl, rw h refl)
  delete_claim v (some (tombstone x)) h = (refl, rw h refl)
  delete_claim v (some (live b)) h = elim (Bool-cases (eq_status b.status expected)) [
    | inl e ↦ rw e (rw ((eq_id_iff id id).1 refl) (refl, refl))
    | inr e ↦ rw e (refl, rw h e)
  ]

  performed-claim :
      (c : Claim) (v : View) (a : Answer)
      → Moves expected c
      → Replies (claim c) v a
      → (is_true a ≡ holds expected (v id)) × (holds expected (performed (claim c) v id) ≡ false)
  unfolding performed Replies
  performed-claim (swap status) v a m r =
      let w = swap_claim status v (v id) refl m in (rw r w.0, w.1)
  performed-claim delete v a m r = let w = delete_claim v (v id) refl in (rw r w.0, w.1)

  seen_claim :
      (c : Claim) (s s' : MetadataMemStorage Cache)
      → Refined lru (claim c) (performed (claim c) (view lru s)) s s'
      → view lru s' id ≡ performed (claim c) (view lru s) id
  seen_claim (swap status) s s' r = elim (Option-cases r.gone) [
    | inl e ↦ rw e at (r.seen id)
    | inr (k, e) ↦ absurd (cc ((r.room k e).1))
  ]
  seen_claim delete s s' r = elim (Option-cases r.gone) [
    | inl e ↦ rw e at (r.seen id)
    | inr (k, e) ↦ absurd (cc ((r.room k e).1))
  ]

  lost :
      (cs : List Claim) (s : MetadataMemStorage Cache)
      → IsTidy lru s.inner
      → All (Moves expected) cs
      → holds expected (view lru s id) ≡ false
      → wins cs s ≡ 0
  unfolding wins
  lost [] s h m e = refl
  lost (c ∷ cs) s h m e =
      let r = run-Answered lru now (claim c) s h in
      let p = performed-claim c (view lru s) (run lru now (claim c) s).1 m.0 r.0 in
      let s' = (run lru now (claim c) s).0 in
      let refused : is_true (run lru now (claim c) s).1 ≡ false = p.0 ∙ e in
      let left : holds expected (view lru s' id) ≡ false = rw (seen_claim c s s' r.1) p.1 in
      rw refused (omega (arith, lost cs s' (run-IsTidy lru now (claim c) s h) m.1 left))

  -- Of any calls that contend for a bundle in a store in good order, each to move it on from the status
  -- that all expect or to delete it, exactly one returns true if the bundle is live with that status, and
  -- none if it is not.
  pub wins_once :
      (c : Claim) (cs : List Claim) (s : MetadataMemStorage Cache)
      → IsTidy lru s.inner
      → All (Moves expected) (c ∷ cs)
      → wins (c ∷ cs) s ≡ (if holds expected (view lru s id) then 1 else 0)
  unfolding wins
  wins_once c cs s h m =
      let r = run-Answered lru now (claim c) s h in
      let p = performed-claim c (view lru s) (run lru now (claim c) s).1 m.0 r.0 in
      let s' = (run lru now (claim c) s).0 in
      let left : holds expected (view lru s' id) ≡ false = rw (seen_claim c s s' r.1) p.1 in
      let rest : wins cs s' ≡ 0 = lost cs s' (run-IsTidy lru now (claim c) s h) m.1 left in
      let won : is_true (run lru now (claim c) s).1 ≡ holds expected (view lru s id) = p.0 in
      rw (won, rest) (ground arith)

-- A map with a tombstone: what the operations put elsewhere, by the entry that they find there
module _ (v : View) (id : BundleId) (x : ℕ) (buried : v id ≡ some (tombstone x)) where
  put_elsewhere :
      (k : BundleId) (e : Entry) → eq_id k id ≡ false → put k e v id ≡ some (tombstone x)
  put_elsewhere k e h = rw h buried

  live_elsewhere : (k : BundleId) (b : Bundle) → v k ≡ some (live b) → eq_id k id ≡ false
  live_elsewhere k b h = elim (Bool-cases (eq_id k id)) [
    | inl e ↦ let same : k ≡ id = (eq_id_iff k id).0 e in absurd (cc (same, h, buried))
    | inr e ↦ e
  ]

  none_elsewhere : (k : BundleId) → v k ≡ none → eq_id k id ≡ false
  none_elsewhere k h = elim (Bool-cases (eq_id k id)) [
    | inl e ↦ let same : k ≡ id = (eq_id_iff k id).0 e in absurd (cc (same, h, buried))
    | inr e ↦ e
  ]

  insert_buried :
      (b : Bundle) (o : Option Entry) → v b.id ≡ o → (insert_view b o v).0 id ≡ some (tombstone x)
  insert_buried b none h = put_elsewhere b.id (live b) (none_elsewhere b.id h)
  insert_buried b (some e) h = buried

  replace_buried :
      (b : Bundle) (o : Option Entry) → v b.id ≡ o → install_view b o v id ≡ some (tombstone x)
  replace_buried b none h = put_elsewhere b.id (live b) (none_elsewhere b.id h)
  replace_buried b (some (live c)) h = put_elsewhere b.id (live b) (live_elsewhere b.id c h)
  replace_buried b (some (tombstone y)) h = buried

  swap_buried :
      (k : BundleId) (expected status : BundleStatus) (o : Option Entry)
      → v k ≡ o
      → (swap_view k expected status o v).0 id ≡ some (tombstone x)
  swap_buried k expected status none h = buried
  swap_buried k expected status (some (tombstone y)) h = buried
  swap_buried k expected status (some (live b)) h = ground (arith, live_elsewhere k b h, buried)

  tombstone_buried :
      (k : BundleId) (expected : BundleStatus) (o : Option Entry)
      → v k ≡ o
      → (tombstone_view k expected o v).0 id ≡ some (tombstone x)
  tombstone_buried k expected none h = buried
  tombstone_buried k expected (some (tombstone y)) h = buried
  tombstone_buried k expected (some (live b)) h = ground (arith, live_elsewhere k b h, buried)

  bury_buried :
      (k : BundleId) (o : Option Entry) → v k ≡ o → bury_view k o v id ≡ some (tombstone x)
  bury_buried k none h = buried
  bury_buried k (some (live b)) h =
      put_elsewhere k (tombstone (Bundles.expiry b)) (live_elsewhere k b h)
  bury_buried k (some (tombstone y)) h = buried

  performed_buried : (op : Operation) → performed op v id ≡ some (tombstone x)
  unfolding performed
  performed_buried (Operation.insert b) = insert_buried b (v b.id) refl
  performed_buried (Operation.replace b) = replace_buried b (v b.id) refl
  performed_buried (Operation.swap_status k expected status) =
      swap_buried k expected status (v k) refl
  performed_buried (Operation.tombstone_if k expected) = tombstone_buried k expected (v k) refl
  performed_buried (Operation.bury k) = bury_buried k (v k) refl
  performed_buried (Operation.reset_peer_queue peer) = rw buried refl
  performed_buried (Operation.reset_peer_ack_pending peer) = rw buried refl
  performed_buried (Operation.reset_service_queue service) = rw buried refl

module _ (lru : LruCache Entry) where
  -- In a store in good order, a tombstone stays as it is under every call, or it is evicted, which takes
  -- a full cache: no call makes its bundle live.
  pub tombstone_stays :
      (now : ℕ) (op : Operation) (s : MetadataMemStorage (lru.Cache)) (id : BundleId) (expiry : ℕ)
      → IsTidy lru s.inner
      → view lru s id ≡ some (tombstone expiry)
      → (view lru (run lru now op s).0 id ≡ some (tombstone expiry))
        ⊎ ((view lru (run lru now op s).0 id ≡ none)
            × (lru.capacity s.inner.entries ≤ length (lru.entries s.inner.entries)))
  tombstone_stays now op s id expiry h e =
      let r = (run-Answered lru now op s h).1 in
      let kept = performed_buried (view lru s) id expiry e op in
      elim (Bool-cases (is_gone r.gone id)) [
        | inl g ↦ inr (rw g at (r.seen id), full r.gone refl g)
        | inr g ↦ inl ((rw g at (r.seen id)) ∙ kept)
      ]
    where
      full :
          (o : Option BundleId)
          → (run-Answered lru now op s h).1.gone ≡ o
          → is_gone o id ≡ true
          → lru.capacity s.inner.entries ≤ length (lru.entries s.inner.entries)
      full none q g = cc
      full (some k) q g = ((run-Answered lru now op s h).1.room k q).3
