-- ===== src/Bpa/Metadata/Operations.antt =====
-- bpa/src/storage/metadata_mem.rs and the trait `MetadataStorage` of bpa/src/storage/backend.rs: the
-- operations of the store, and what the trait promises of them on a map.
use hardy.Prelude.{
  ◌≡◌, ◌≢◌, List, [], ◌∷◌, ◌||◌, length, ℕ, Bool, true, false, Option, none, some, if◌then◌else◌,
}
use mathlib.Core.Option
use hardy.Eid.{Eid}
use hardy.Bpa.Reassembly.{BundleId}
use hardy.Bpa.Metadata.Status.{BundleStatus, waiting, waiting_for_service, eq_status}
use hardy.Bpa.Metadata.Bundles.{Bundle, expiry, eq_id}
use hardy.Bpa.Metadata.Recency.{LruCache}
use hardy.Bpa.Metadata.Store
use hardy.Bpa.Metadata.Store.{
  Entry, live, tombstone, entry_live, reset_entry, is_queued_for, is_sent_to, is_delivered_to,
  MetadataMemStorage,
}

-- The calls that change the store
pub data Operation : Type 0 where
  insert : Bundle → Operation
  replace : Bundle → Operation
  swap_status : BundleId → BundleStatus → BundleStatus → Operation
  tombstone_if : BundleId → BundleStatus → Operation
  bury : BundleId → Operation
  reset_peer_queue : ℕ → Operation
  reset_peer_ack_pending : ℕ → Operation
  reset_service_queue : Eid → Operation

-- What a call answers: nothing, a Boolean, or a number of bundles
pub data Answer : Type 0 where
  nothing : Answer
  flag : Bool → Answer
  number : ℕ → Answer

abbrev pub flagged {ℓ} : {A : Type ℓ} → A × Bool → A × Answer
flagged r = (r.0, flag r.1)

abbrev pub numbered {ℓ} : {A : Type ℓ} → A × ℕ → A × Answer
numbered r = (r.0, number r.1)

-- What a call leaves and answers
module _ (lru : LruCache Entry) where
  unfoldable pub run :
      ℕ → Operation → MetadataMemStorage (lru.Cache) → MetadataMemStorage (lru.Cache) × Answer
  run now (insert b) s = flagged (Store.insert lru now b s)
  run now (replace b) s = (Store.replace lru now b s, nothing)
  run now (swap_status id expected status) s = flagged (Store.swap_status lru id expected status s)
  run now (tombstone_if id expected) s = flagged (Store.tombstone_if lru now id expected s)
  run now (bury id) s = (Store.bury lru now id s, nothing)
  run now (reset_peer_queue peer) s = numbered (Store.reset_peer_queue lru peer s)
  run now (reset_peer_ack_pending peer) s = numbered (Store.reset_peer_ack_pending lru peer s)
  run now (reset_service_queue service) s = numbered (Store.reset_service_queue lru service s)

-- A map from ids to entries
abbrev pub View : Type 0
View = BundleId → Option Entry

-- The map with another entry
abbrev pub put : BundleId → Entry → View → View
put id e v j = if eq_id id j then some e else v j

abbrev pub insert_view : Bundle → Option Entry → View → View × Bool
insert_view b none v = (put b.id (live b) v, true)
insert_view b (some e) v = (v, false)

-- A replacement that finds no live bundle changes nothing.
abbrev pub replace_view : Bundle → Option Entry → View → View
replace_view b (some (live c)) v = put b.id (live b) v
replace_view b _ v = v

-- The replacement in memory, which also installs a bundle that is absent
abbrev pub install_view : Bundle → Option Entry → View → View
install_view b none v = put b.id (live b) v
install_view b o v = replace_view b o v

abbrev pub swap_view : BundleId → BundleStatus → BundleStatus → Option Entry → View → View × Bool
swap_view id expected status (some (live b)) v =
    if eq_status b.status expected
    then (put id (live (record b { status = status })) v, true)
    else (v, false)
swap_view id expected status _ v = (v, false)

abbrev pub tombstone_view : BundleId → BundleStatus → Option Entry → View → View × Bool
tombstone_view id expected (some (live b)) v =
    if eq_status b.status expected then (put id (tombstone (expiry b)) v, true) else (v, false)
tombstone_view id expected _ v = (v, false)

abbrev pub bury_view : BundleId → Option Entry → View → View
bury_view id (some (live b)) v = put id (tombstone (expiry b)) v
bury_view id _ v = v

-- The live bundles of a map with a status that passes a test
abbrev pub passes : (BundleStatus → Bool) → Option Entry → Bool
passes p (some (live b)) = p b.status
passes p _ = false

abbrev pub is_among : BundleId → List BundleId → Bool
is_among j [] = false
is_among j (i ∷ ids) = eq_id i j || is_among j ids

abbrev pub AreDistinct : List BundleId → Type 0
AreDistinct [] = Unit
AreDistinct (i ∷ ids) = (is_among i ids ≡ false) × AreDistinct ids

-- There are `n` ids of a map whose entries are live with a status that passes the test.
pub record Counted (p : BundleStatus → Bool) (v : View) (n : ℕ) : Type 0 where
  pub ids : List BundleId
  pub size : length ids ≡ n
  pub distinct : AreDistinct ids
  pub exact : (j : BundleId) → is_among j ids ≡ passes p (v j)

abbrev pub reset_view : (BundleStatus → Bool) → BundleStatus → View → View
reset_view p status v j = Option.map (reset_entry p status) (v j)

-- The map that the trait promises after a call
unfoldable pub promised : Operation → View → View
promised (insert b) v = (insert_view b (v b.id) v).0
promised (replace b) v = replace_view b (v b.id) v
promised (swap_status id expected status) v = (swap_view id expected status (v id) v).0
promised (tombstone_if id expected) v = (tombstone_view id expected (v id) v).0
promised (bury id) v = bury_view id (v id) v
promised (reset_peer_queue peer) v = reset_view (is_queued_for peer) waiting v
promised (reset_peer_ack_pending peer) v = reset_view (is_sent_to peer) waiting v
promised (reset_service_queue service) v =
    reset_view (is_delivered_to service) (waiting_for_service service) v

-- The answer that the trait promises of a call
unfoldable pub Replies : Operation → View → Answer → Type 0
Replies (insert b) v a = a ≡ flag (insert_view b (v b.id) v).1
Replies (replace b) v a = a ≡ nothing
Replies (swap_status id expected status) v a = a ≡ flag (swap_view id expected status (v id) v).1
Replies (tombstone_if id expected) v a = a ≡ flag (tombstone_view id expected (v id) v).1
Replies (bury id) v a = a ≡ nothing
Replies (reset_peer_queue peer) v a = (n : ℕ) × (a ≡ number n) × Counted (is_queued_for peer) v n
Replies (reset_peer_ack_pending peer) v a = (n : ℕ) × (a ≡ number n) × Counted (is_sent_to peer) v n
Replies (reset_service_queue service) v a =
    (n : ℕ) × (a ≡ number n) × Counted (is_delivered_to service) v n

-- The map after a call in memory, which differs for a replacement that matches nothing
unfoldable pub performed : Operation → View → View
performed (insert b) v = (insert_view b (v b.id) v).0
performed (replace b) v = install_view b (v b.id) v
performed (swap_status id expected status) v = (swap_view id expected status (v id) v).0
performed (tombstone_if id expected) v = (tombstone_view id expected (v id) v).0
performed (bury id) v = bury_view id (v id) v
performed (reset_peer_queue peer) v = reset_view (is_queued_for peer) waiting v
performed (reset_peer_ack_pending peer) v = reset_view (is_sent_to peer) waiting v
performed (reset_service_queue service) v =
    reset_view (is_delivered_to service) (waiting_for_service service) v

-- The call is not the replacement of a bundle that is absent.
abbrev pub Matches : Operation → View → Type 0
Matches (replace b) v = v b.id ≢ none
Matches _ v = Unit
