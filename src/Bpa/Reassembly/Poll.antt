-- ===== src/Bpa/Reassembly/Poll.antt =====
-- bpa/src/storage/adu_reassembly.rs: the set that `poll_fragments` collects.
use mathlib.Core.Path.{subst}
use hardy.Prelude.{
  ℕ, ◌≤◌, ◌≡◌, refl, sym, ◌∙◌, List, [], ◌∷◌, Bool, true, false, ◌&&◌, ◌||◌, ◌⊎◌, inl, inr, not,
  Option, none, some, leb, ltb, Bool-cases, ◌==◌, arith, all, any,
}
use hardy.Eid.{eq_eid}
use hardy.Bpa.Reassembly.{
  Adu, Bundle, BundleId, FragmentInfo, FragmentSet, Outcome, returned, panicked, len, insert,
  add_fragment, collect, poll_fragments,
}
use hardy.Bpa.Reassembly.Tiling.{has_key, unique}
use hardy.Bpa.Reassembly.Copy.{IsKeyed, AllKeyed}
use hardy.Bpa.Reassembly.Result.{IsFragmentSet}

has_key-insert :
    (k k' : ℕ) (v : Adu) (l : List (ℕ × Adu)) → has_key k (insert k' v l) ≡ (k' == k || has_key k l)
unfolding has_key insert
has_key-insert k k' v [] = refl
has_key-insert k k' v (e ∷ l) = ground (arith, has_key-insert k k' v l)

unique-insert :
    (k : ℕ) (v : Adu) (l : List (ℕ × Adu)) → unique l ≡ true → unique (insert k v l) ≡ true
unfolding unique insert has_key
unique-insert k v [] u = refl
unique-insert k v (e ∷ l) u = ground (arith, unique-insert k v l, has_key-insert e.0 k v l)

keyed-insert :
    (k : ℕ) (v : Adu) (l : List (ℕ × Adu)) → IsKeyed (k, v) → AllKeyed l → AllKeyed (insert k v l)
unfolding insert
keyed-insert k v [] h a = (h, tt)
keyed-insert k v (e ∷ l) h (ke, a) = split (e.0 == k) refl (keyed-insert k v l h a)
  where
    split : (x : Bool) → (e.0 == k) ≡ x → AllKeyed (insert k v l) → AllKeyed (insert k v (e ∷ l))
    split true q r = rw q (h, a)
    split false q r = rw q (ke, r)

-- The bundle is a fragment of the same ADU.
unfoldable pub is_sibling : BundleId → Bundle → Bool
unfolding eq_eid
is_sibling id b =
    (eq_eid id.source b.id.source && id.timestamp == b.id.timestamp)
    && (elim b.id.fragment_info as (λ x. Bool) [ none ↦ false | some info ↦ true ])

-- The bundle is a fragment at the offset.
unfoldable pub is_at : ℕ → Bundle → Bool
is_at k b = elim b.id.fragment_info as (λ x. Bool) [ none ↦ false | some info ↦ info.offset == k ]

-- What a state of the loop has: a set with its invariants, no younger than the bundles read so far, as
-- young as one of them or as before, with the offsets of those that are fragments of the ADU
record Collected (id : BundleId) (bs : List Bundle) (before after : FragmentSet) : Type 0 where
  is_set : IsFragmentSet after
  earlier : after.received_at ≤ before.received_at
  earliest : all bs (λ b. not (is_sibling id b) || leb after.received_at b.received_at) ≡ true
  attained :
      after.received_at == before.received_at
        || any bs (λ b. is_sibling id b && b.received_at == after.received_at)
      ≡ true
  offsets :
      (k : ℕ)
      → has_key k after.adus ≡ (has_key k before.adus || any bs (λ b. is_sibling id b && is_at k b))

add-IsFragmentSet :
    (info : FragmentInfo) (name : ℕ) (b : Bundle) (s : FragmentSet) (n : ℕ)
    → b.id.fragment_info ≡ some info
    → IsFragmentSet s
    → IsFragmentSet (add_fragment info name b (s, n)).0
unfolding add_fragment
add-IsFragmentSet info name b s n e h = record {
  keyed = keyed-insert info.offset _ s.adus (info.total_adu_length, e) h.keyed;
  once = unique-insert info.offset _ s.adus h.once;
}

is_at_lem :
    (k : ℕ) (b : Bundle) (info : FragmentInfo)
    → b.id.fragment_info ≡ some info
    → is_at k b ≡ (info.offset == k)
unfolding is_at
is_at_lem k b info f = rw f refl

add_received :
    (info : FragmentInfo) (name : ℕ) (b : Bundle) (s : FragmentSet) (n : ℕ)
    → ((add_fragment info name b (s, n)).0.received_at ≡ s.received_at)
      ⊎ ((add_fragment info name b (s, n)).0.received_at ≡ b.received_at)
unfolding add_fragment
add_received info name b s n = elim (Bool-cases (ltb b.received_at s.received_at)) [
  | inl q ↦ inr (rw q refl)
  | inr q ↦ inl (rw q refl)
]

has_key-add :
    (info : FragmentInfo) (name : ℕ) (b : Bundle) (s : FragmentSet) (n k : ℕ)
    → has_key k (add_fragment info name b (s, n)).0.adus ≡ (info.offset == k || has_key k s.adus)
unfolding add_fragment
has_key-add info name b s n k = has_key-insert k info.offset _ s.adus

-- A round of the loop: it passes over the bundle, panics, or adds it.
abbrev Round : BundleId → Bundle → List Bundle → FragmentSet × ℕ → Type 0
Round id b bs s =
    ((is_sibling id b ≡ false) × (collect id (b ∷ bs) s ≡ collect id bs s))
    ⊎ ((collect id (b ∷ bs) s ≡ panicked)
        ⊎ ((info : FragmentInfo) × (name : ℕ) × (b.id.fragment_info ≡ some info)
            × (is_sibling id b ≡ true)
            × (collect id (b ∷ bs) s ≡ collect id bs (add_fragment info name b s))))

round : (id : BundleId) (b : Bundle) (bs : List Bundle) (s : FragmentSet × ℕ) → Round id b bs s
unfolding collect is_sibling
round id b bs s = at_id (eq_eid id.source b.id.source && id.timestamp == b.id.timestamp) refl
  where
    at_name :
        (info : FragmentInfo) (o : Option ℕ)
        → (eq_eid id.source b.id.source && id.timestamp == b.id.timestamp) ≡ true
        → b.id.fragment_info ≡ some info
        → b.storage_name ≡ o
        → Round id b bs s
    at_name info none q f n = inr (inl (ground (arith, q, f, n)))
    at_name info (some name) q f n =
        inr (inr (info, name, f, ground (arith, q, f), ground (arith, q, f, n)))

    at_info :
        (o : Option FragmentInfo)
        → (eq_eid id.source b.id.source && id.timestamp == b.id.timestamp) ≡ true
        → b.id.fragment_info ≡ o
        → Round id b bs s
    at_info none q f = inl (ground (arith, q, f), ground (arith, q, f))
    at_info (some info) q f = at_name info b.storage_name q f refl

    at_id :
        (x : Bool)
        → (eq_eid id.source b.id.source && id.timestamp == b.id.timestamp) ≡ x
        → Round id b bs s
    at_id false q = inl (ground (arith, q), ground (arith, q))
    at_id true q = at_info b.id.fragment_info q refl

later : (a b c : ℕ) → a ≤ b → b ≤ c → a ≤ c
later a b c h k = omega arith

collect-Collected :
    (id : BundleId) (bs : List Bundle) (s : FragmentSet) (n : ℕ) (r : FragmentSet × ℕ)
    → IsFragmentSet s
    → collect id bs (s, n) ≡ returned r
    → Collected id bs s r.0
collect-Collected id [] s n r w h =
    let same : s ≡ r.0 = unfold collect in cc in
    record {
      is_set = subst IsFragmentSet same w;
      earlier = subst (λ x. x.received_at ≤ s.received_at) same (omega arith);
      earliest = refl;
      attained = subst (λ x. x.received_at == s.received_at || false ≡ true) same (ground arith);
      offsets =
          λ k. subst (λ x. has_key k x.adus ≡ (has_key k s.adus || false)) same (ground arith);
    }
collect-Collected id (b ∷ bs) s n r w h = elim (round id b bs (s, n)) [
  | inl (q, e) ↦
      let c = collect-Collected id bs s n r w (sym e ∙ h) in
      record {
        is_set = c.is_set;
        earlier = c.earlier;
        earliest = ground (arith, q, c.earliest);
        attained = ground (arith, q, c.attained);
        offsets = λ k. ground (arith, q, c.offsets k);
      }
  | inr (inl e) ↦ cc (e, h)
  | inr (inr (info, name, f, q, e)) ↦
      let z : FragmentSet × ℕ = add_fragment info name b (s, n) in
      let c =
        collect-Collected id bs z.0 z.1 r (add-IsFragmentSet info name b s n f w) (sym e ∙ h) in
      let new : (z.0.received_at ≤ s.received_at) × (z.0.received_at ≤ b.received_at) =
        unfold add_fragment in (ground arith, ground arith) in
      record {
        is_set = c.is_set;
        earlier = later r.0.received_at z.0.received_at s.received_at c.earlier new.0;
        earliest = ground (
          arith,
          c.earliest,
          later r.0.received_at z.0.received_at b.received_at c.earlier new.1,
        );
        attained = ground (arith, q, c.attained, add_received info name b s n);
        offsets = λ k.
            ground (arith, q, c.offsets k, has_key-add info name b s n k, is_at_lem k b info f);
      }
]

-- The set with which the loop starts
abbrev first_set : Bundle → FragmentInfo → ℕ → FragmentSet
first_set bundle info name = record {
  received_at = bundle.received_at;
  origin = bundle.origin;
  adus =
      (info.offset, record { bundle_id = bundle.id; storage_name = name; payload = bundle.payload })
      ∷ [];
}

first_set-IsFragmentSet :
    (bundle : Bundle) (info : FragmentInfo) (name : ℕ)
    → bundle.id.fragment_info ≡ some info
    → IsFragmentSet (first_set bundle info name)
unfolding unique has_key
first_set-IsFragmentSet bundle info name e = record {
  keyed = ((info.total_adu_length, e), tt);
  once = refl;
}

first_set_key :
    (bundle : Bundle) (info : FragmentInfo) (name : ℕ)
    → bundle.id.fragment_info ≡ some info
    → (k : ℕ) → has_key k (first_set bundle info name).adus ≡ is_at k bundle
unfolding has_key
first_set_key bundle info name f k = ground (arith, is_at_lem k bundle info f)

module _ (bundle : Bundle) (polled : List Bundle) (cancelled : Bool) where
  abbrev pub Earliest : FragmentSet → Type 0
  Earliest s =
      IsFragmentSet s
      × (s.received_at ≤ bundle.received_at)
      × (all polled (λ b. not (is_sibling bundle.id b) || leb s.received_at b.received_at) ≡ true)
      × (s.received_at == bundle.received_at
            || any polled (λ b. is_sibling bundle.id b && b.received_at == s.received_at)
          ≡ true)
      × ((k : ℕ)
          → has_key k s.adus
            ≡ (is_at k bundle || any polled (λ b. is_sibling bundle.id b && is_at k b)))

  -- The set that `poll_fragments` returns holds each fragment under its own offset, each offset once. Its offsets are those of the bundle and of the fragments of the same ADU among the bundles that the poll sent. Its time of arrival is the earliest of theirs: no later than any of them, and that of one of them.
  pub poll_fragments-Earliest :
      (s : FragmentSet) → poll_fragments bundle polled cancelled ≡ returned (some s) → Earliest s
  unfolding poll_fragments
  poll_fragments-Earliest s h = at_info bundle.id.fragment_info refl
    where
      at_result :
          (info : FragmentInfo) (name : ℕ) (o : Outcome (FragmentSet × ℕ))
          → bundle.id.fragment_info ≡ some info
          → bundle.storage_name ≡ some name
          → collect bundle.id polled (first_set bundle info name, len bundle.payload) ≡ o
          → Earliest s
      at_result info name panicked f n c = absurd (cc (f, n, c, h))
      at_result info name (returned r) f n c =
          let x =
            collect-Collected bundle.id polled (first_set bundle info name) (len bundle.payload) r
              (first_set-IsFragmentSet bundle info name f) c in
          let same : r.0 ≡ s = ground (arith, f, n, c, h) in
          subst Earliest same (
            x.is_set,
            x.earlier,
            x.earliest,
            x.attained,
            λ k. ground (arith, x.offsets k, first_set_key bundle info name f k),
          )

      at_name :
          (info : FragmentInfo) (o : Option ℕ)
          → bundle.id.fragment_info ≡ some info
          → bundle.storage_name ≡ o
          → Earliest s
      at_name info none f n = absurd (cc (f, n, h))
      at_name info (some name) f n = at_result info name _ f n refl

      at_info : (o : Option FragmentInfo) → bundle.id.fragment_info ≡ o → Earliest s
      at_info none f = absurd (cc (f, h))
      at_info (some info) f = at_name info bundle.storage_name f refl
