-- ===== src/Bpa/Metadata/Bundles.antt =====
-- bpa/src/bundle/mod.rs: what the store reads of a bundle. A time is a number of milliseconds since the
-- first that `OffsetDateTime` has.
use hardy.Prelude.{
  ℕ, ◌+◌, ◌-◌, ◌≡◌, ◌↔◌, min, Bool, true, false, ◌&&◌, ◌==◌, leb, Option, none, some, arith,
}
use hardy.Eid.{eq_eid}
use hardy.Eid.Laws.{eq_eid_iff}
use hardy.Bpa.Reassembly.{BundleId, FragmentInfo}
use hardy.Bpa.Metadata.Status.{BundleStatus}

-- The id, the fields that its times are computed from, and its status. `payload` stands for all else
-- that the store keeps.
pub record Bundle : Type 0 where
  pub id : BundleId
  pub created : Option ℕ
  pub lifetime : ℕ
  pub age : Option ℕ
  pub received_at : ℕ
  pub status : BundleStatus
  pub payload : ℕ

-- The last time that `OffsetDateTime` has, at which additions stop
abbrev pub time_max : ℕ
time_max = 631107417599999

unfoldable pub creation_time : Option ℕ → Option ℕ → ℕ → ℕ
creation_time (some created) age received_at = created
creation_time none (some age) received_at = received_at - age
creation_time none none received_at = received_at

-- `expiry` and `Bundle::expiry`
unfoldable pub expiry : Bundle → ℕ
unfolding creation_time
expiry b = min (creation_time b.created b.age b.received_at + b.lifetime) time_max

-- `Bundle::has_expired`
unfoldable pub has_expired : ℕ → Bundle → Bool
has_expired now b = leb (expiry b) now

-- The derived `PartialEq` of `hardy_bpv7::bundle::Id`
unfoldable pub eq_fragment : Option FragmentInfo → Option FragmentInfo → Bool
eq_fragment none none = true
eq_fragment (some a) (some b) = a.offset == b.offset && a.total_adu_length == b.total_adu_length
eq_fragment _ _ = false

unfoldable pub eq_id : BundleId → BundleId → Bool
eq_id a b =
    eq_eid a.source b.source
    && (a.timestamp == b.timestamp && eq_fragment a.fragment_info b.fragment_info)

eq_fragment_iff : (a b : Option FragmentInfo) → (eq_fragment a b ≡ true) ↔ (a ≡ b)
unfolding eq_fragment
eq_fragment_iff none none = ground arith
eq_fragment_iff (some a) (some b) = ground arith
eq_fragment_iff none (some b) = ground arith
eq_fragment_iff (some a) none = ground arith

pub eq_id_iff : (a b : BundleId) → (eq_id a b ≡ true) ↔ (a ≡ b)
unfolding eq_id
eq_id_iff a b =
    ground (arith, eq_eid_iff a.source b.source, eq_fragment_iff a.fragment_info b.fragment_info)
