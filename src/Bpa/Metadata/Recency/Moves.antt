-- ===== src/Bpa/Metadata/Recency/Moves.antt =====
-- Lists of entries that are reordered, or whose values are written.
use hardy.Prelude.{
  ◌+◌, ◌≡◌, List, [], ◌∷◌, ◌++◌, Bool, true, false, none, some, length, length-append,
  if◌then◌else◌, arith, refl, inl, inr, Bool-cases, Option-cases,
}
use mathlib.Core.Option
use hardy.Bpa.Reassembly.{BundleId}
use hardy.Bpa.Metadata.Bundles.{eq_id, eq_id_iff}
use hardy.Bpa.Metadata.Recency.{find, erase, write_at, map_values, promote_entries, demote_entries}
use hardy.Bpa.Metadata.Recency.Laws.{
  AreUnique, count, find-erase_ne, find-erase_self, erase-AreUnique, count-erase, length-erase,
}

module _ {V : Type 0} where
  pub find-append_one :
      (j k : BundleId) (v : V) (es : List (BundleId × V))
      → find k es ≡ none
      → find j (es ++ ((k, v) ∷ [])) ≡ (if eq_id k j then some v else find j es)
  unfolding find
  find-append_one j k v [] h = refl
  find-append_one j k v ((i, w) ∷ es) h =
      ground (arith, find-append_one j k v es, eq_id_iff i k, eq_id_iff i j, eq_id_iff k j)

  append_one-AreUnique :
      (k : BundleId) (v : V) (es : List (BundleId × V))
      → AreUnique es
      → find k es ≡ none
      → AreUnique (es ++ ((k, v) ∷ []))
  unfolding find
  append_one-AreUnique k v [] u h = (refl, tt)
  append_one-AreUnique k v ((i, w) ∷ es) u h = (
    ground (arith, find-append_one i k v es, eq_id_iff i k, eq_id_iff k i),
    append_one-AreUnique k v es u.1 (ground (arith, h)),
  )

  count-append_one :
      (p : V → Bool) (k : BundleId) (v : V) (es : List (BundleId × V))
      → count p (es ++ ((k, v) ∷ [])) ≡ count p es + (if p v then 1 else 0)
  unfolding count
  count-append_one p k v [] = omega arith
  count-append_one p k v ((i, w) ∷ es) = omega (arith, count-append_one p k v es)

  -- Lists of the same entries
  pub record Same (es es' : List (BundleId × V)) : Type 0 where
    pub found : (j : BundleId) → find j es' ≡ find j es
    pub kept : AreUnique es → AreUnique es'
    pub sized : length es' ≡ length es
    pub counted : (p : V → Bool) → count p es' ≡ count p es

  pub demote-Same :
      (k : BundleId) (es : List (BundleId × V)) → AreUnique es → Same es (demote_entries k es)
  unfolding demote_entries
  demote-Same k es u = elim (Option-cases (find k es)) [
    | inl e ↦
        rw (e, demote_entries)
          (record { found = λ j. refl; kept = λ v. v; sized = refl; counted = λ p. refl })
    | inr (v, e) ↦
        rw (e, demote_entries)
          (let gone = find-erase_self k es u in
            record {
              found = λ j.
                  ground (
                    arith,
                    find-append_one j k v (erase k es),
                    find-erase_ne k j es,
                    eq_id_iff k j,
                  );
              kept = λ w. append_one-AreUnique k v (erase k es) (erase-AreUnique k es w) gone;
              sized =
                  omega (arith, length-append (erase k es) ((k, v) ∷ []), length-erase k v es e);
              counted =
                  λ p. omega (arith, count-append_one p k v (erase k es), count-erase p k v es e);
            })
  ]

  pub promote-Same :
      (k : BundleId) (es : List (BundleId × V)) → AreUnique es → Same es (promote_entries k es)
  unfolding promote_entries
  promote-Same k es u = elim (Option-cases (find k es)) [
    | inl e ↦
        rw (e, promote_entries)
          (record { found = λ j. refl; kept = λ v. v; sized = refl; counted = λ p. refl })
    | inr (v, e) ↦
        rw (e, promote_entries)
          (let gone = find-erase_self k es u in
            record {
              found = λ j. unfold find in ground (arith, find-erase_ne k j es, eq_id_iff k j);
              kept = λ w. (gone, erase-AreUnique k es w);
              sized = omega (arith, length-erase k v es e);
              counted = λ p. unfold count in omega (arith, count-erase p k v es e);
            })
  ]

  pub find-write_at :
      (j k : BundleId) (w v : V) (es : List (BundleId × V))
      → find k es ≡ some v
      → find j (write_at k w es) ≡ (if eq_id k j then some w else find j es)
  unfolding find write_at
  find-write_at j k w v [] h = cc
  find-write_at j k w v ((i, x) ∷ es) h =
      ground (arith, find-write_at j k w v es, eq_id_iff i k, eq_id_iff i j, eq_id_iff k j)

  pub find-map_values :
      (j : BundleId) (f : V → V) (es : List (BundleId × V))
      → find j (map_values f es) ≡ Option.map f (find j es)
  unfolding find map_values
  find-map_values j f [] = refl
  find-map_values j f ((i, x) ∷ es) = ground (arith, find-map_values j f es)

  find-write_at_none :
      (j k : BundleId) (w : V) (es : List (BundleId × V))
      → find j es ≡ none
      → find j (write_at k w es) ≡ none
  unfolding find write_at
  find-write_at_none j k w [] h = refl
  find-write_at_none j k w ((i, x) ∷ es) h = ground (arith, find-write_at_none j k w es)

  write_at_here :
      (k : BundleId) (w : V) (i : BundleId) (x : V) (es : List (BundleId × V))
      → eq_id i k ≡ true
      → write_at k w ((i, x) ∷ es) ≡ (i, w) ∷ es
  unfolding write_at
  write_at_here k w i x es h = rw h

  write_at_skip :
      (k : BundleId) (w : V) (i : BundleId) (x : V) (es : List (BundleId × V))
      → eq_id i k ≡ false
      → write_at k w ((i, x) ∷ es) ≡ (i, x) ∷ write_at k w es
  unfolding write_at
  write_at_skip k w i x es h = rw h

  pub write_at-AreUnique :
      (k : BundleId) (w : V) (es : List (BundleId × V)) → AreUnique es → AreUnique (write_at k w es)
  unfolding find write_at
  write_at-AreUnique k w [] u = tt
  write_at-AreUnique k w ((i, x) ∷ es) u =
      let deeper = write_at-AreUnique k w es u.1 in
      elim (Bool-cases (eq_id i k)) [
        | inl e ↦ rw (write_at_here k w i x es e) u
        | inr e ↦ rw (write_at_skip k w i x es e) (find-write_at_none i k w es u.0, deeper)
      ]

  pub length-write_at :
      (k : BundleId) (w : V) (es : List (BundleId × V)) → length (write_at k w es) ≡ length es
  unfolding write_at
  length-write_at k w [] = refl
  length-write_at k w ((i, x) ∷ es) = ground (arith, length-write_at k w es)

  pub count-write_at :
      (p : V → Bool) (k : BundleId) (w v : V) (es : List (BundleId × V))
      → find k es ≡ some v
      → p w ≡ p v
      → count p (write_at k w es) ≡ count p es
  unfolding find write_at count
  count-write_at p k w v [] h q = cc
  count-write_at p k w v ((i, x) ∷ es) h q = ground (arith, count-write_at p k w v es)

  pub map_values-AreUnique :
      (f : V → V) (es : List (BundleId × V)) → AreUnique es → AreUnique (map_values f es)
  unfolding map_values
  map_values-AreUnique f [] u = tt
  map_values-AreUnique f ((i, x) ∷ es) u =
      (ground (arith, find-map_values i f es), map_values-AreUnique f es u.1)

  pub length-map_values :
      (f : V → V) (es : List (BundleId × V)) → length (map_values f es) ≡ length es
  unfolding map_values
  length-map_values f [] = refl
  length-map_values f ((i, x) ∷ es) = ground (arith, length-map_values f es)

  pub count-map_values :
      (p : V → Bool) (f : V → V) (es : List (BundleId × V))
      → ((v : V) → p (f v) ≡ p v)
      → count p (map_values f es) ≡ count p es
  unfolding map_values count
  count-map_values p f [] h = refl
  count-map_values p f ((i, x) ∷ es) h = rw (h x, count-map_values p f es h)
