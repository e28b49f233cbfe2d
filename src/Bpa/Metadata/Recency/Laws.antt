-- ===== src/Bpa/Metadata/Recency/Laws.antt =====
-- Lookups and counts in a list of entries.
use hardy.Prelude.{
  ℕ, ◌+◌, ◌≡◌, ◌<◌, ◌≤◌, List, [], ◌∷◌, ◌++◌, Bool, true, false, Option, none, some, ltb, length,
  if◌then◌else◌, arith, refl, ◌∙◌, inl, inr, Bool-cases, Option-cases,
}
use hardy.Bpa.Reassembly.{BundleId}
use hardy.Bpa.Metadata.Bundles.{eq_id, eq_id_iff}
use hardy.Bpa.Metadata.Recency.{find, erase, split_last, push_entries}

pub eq_id_sym : (i k : BundleId) → eq_id i k ≡ false → eq_id k i ≡ false
eq_id_sym i k h = ground (arith, eq_id_iff i k, eq_id_iff k i)

module _ {V : Type 0} where
  unfoldable pub count : (V → Bool) → List (BundleId × V) → ℕ
  count p [] = 0
  count p ((k, v) ∷ es) = (if p v then 1 else 0) + count p es

  -- No key stands twice.
  abbrev pub AreUnique : List (BundleId × V) → Type 0
  AreUnique [] = Unit
  AreUnique ((k, v) ∷ es) = (find k es ≡ none) × AreUnique es

  pub find-erase_ne :
      (k j : BundleId) (es : List (BundleId × V))
      → eq_id k j ≡ false
      → find j (erase k es) ≡ find j es
  unfolding find erase
  find-erase_ne k j [] h = refl
  find-erase_ne k j ((i, v) ∷ es) h =
      ground (arith, find-erase_ne k j es, eq_id_iff i k, eq_id_iff i j, eq_id_iff k j)

  pub find-erase_self :
      (k : BundleId) (es : List (BundleId × V)) → AreUnique es → find k (erase k es) ≡ none
  unfolding find erase
  find-erase_self k [] u = refl
  find-erase_self k ((i, v) ∷ es) u = ground (arith, find-erase_self k es, eq_id_iff i k)

  erase_here :
      (k i : BundleId) (v : V) (es : List (BundleId × V))
      → eq_id i k ≡ true
      → erase k ((i, v) ∷ es) ≡ es
  unfolding erase
  erase_here k i v es h = rw h

  erase_skip :
      (k i : BundleId) (v : V) (es : List (BundleId × V))
      → eq_id i k ≡ false
      → erase k ((i, v) ∷ es) ≡ (i, v) ∷ erase k es
  unfolding erase
  erase_skip k i v es h = rw h

  pub erase-AreUnique :
      (k : BundleId) (es : List (BundleId × V)) → AreUnique es → AreUnique (erase k es)
  erase-AreUnique k [] u = unfold erase in tt
  erase-AreUnique k ((i, v) ∷ es) u = elim (Bool-cases (eq_id i k)) [
    | inl e ↦ rw (erase_here k i v es e) u.1
    | inr e ↦
        rw (erase_skip k i v es e)
          (find-erase_ne k i es (eq_id_sym i k e) ∙ u.0, erase-AreUnique k es u.1)
  ]

  pub count-erase :
      (p : V → Bool) (k : BundleId) (v : V) (es : List (BundleId × V))
      → find k es ≡ some v
      → count p es ≡ count p (erase k es) + (if p v then 1 else 0)
  unfolding find erase count
  count-erase p k v [] h = cc
  count-erase p k v ((i, w) ∷ es) h = ground (arith, count-erase p k v es)

  pub length-erase :
      (k : BundleId) (v : V) (es : List (BundleId × V))
      → find k es ≡ some v
      → length es ≡ length (erase k es) + 1
  unfolding find erase
  length-erase k v [] h = cc
  length-erase k v ((i, w) ∷ es) h = ground (arith, length-erase k v es)

  -- A list that is not empty, split at its last entry
  pub split_last_join :
      (e : BundleId × V) (es : List (BundleId × V))
      → (split_last e es).0 ++ ((split_last e es).1 ∷ []) ≡ e ∷ es
  unfolding split_last
  split_last_join e [] = refl
  split_last_join e (d ∷ es) = rw (split_last_join d es)

  pub length-split_last :
      (e : BundleId × V) (es : List (BundleId × V)) → length (split_last e es).0 ≡ length es
  unfolding split_last
  length-split_last e [] = refl
  length-split_last e (d ∷ es) = omega (arith, length-split_last d es)

  pub count-split_last :
      (p : V → Bool) (e : BundleId × V) (es : List (BundleId × V))
      → count p (split_last e es).0 + (if p (split_last e es).1.1 then 1 else 0) ≡ count p (e ∷ es)
  unfolding split_last count
  count-split_last p e [] = omega arith
  count-split_last p e (d ∷ es) = omega (arith, count-split_last p d es)

  -- The last entry is found, and the others without it are found as before.
  pub find-split_last :
      (j : BundleId) (e : BundleId × V) (es : List (BundleId × V))
      → AreUnique (e ∷ es)
      → (find (split_last e es).1.0 (e ∷ es) ≡ some (split_last e es).1.1)
        × (find j (split_last e es).0
            ≡ (if eq_id (split_last e es).1.0 j then none else find j (e ∷ es)))
  unfolding split_last find
  find-split_last j e [] u = ground (arith, eq_id_iff e.0 e.0)
  find-split_last j e (d ∷ es) u =
      let last = (split_last d es).1.0 in
      ground
        (arith, find-split_last j d es u.1, eq_id_iff e.0 last, eq_id_iff e.0 j, eq_id_iff last j)

  pub split_last-AreUnique :
      (e : BundleId × V) (es : List (BundleId × V))
      → AreUnique (e ∷ es)
      → AreUnique (split_last e es).0
  unfolding split_last
  split_last-AreUnique e [] u = tt
  split_last-AreUnique e (d ∷ es) u =
      (ground (arith, find-split_last e.0 d es u.1), split_last-AreUnique d es u.1)

  -- The key of an entry that was replaced or evicted
  abbrev pub is_key : BundleId → Option (BundleId × V) → Bool
  is_key j none = false
  is_key j (some (k, v)) = eq_id k j

  hit :
      (capacity : ℕ) (k : BundleId) (v : V) (es : List (BundleId × V)) (old : V)
      → find k es ≡ some old
      → push_entries capacity k v es ≡ ((k, v) ∷ erase k es, some (k, old))
  unfolding push_entries
  hit capacity k v es old e = rw (e, push_entries)

  miss_room :
      (capacity : ℕ) (k : BundleId) (v : V) (es : List (BundleId × V))
      → find k es ≡ none
      → ltb (length es) capacity ≡ true
      → push_entries capacity k v es ≡ ((k, v) ∷ es, none)
  unfolding push_entries
  miss_room capacity k v es e room = rw (e, room, push_entries)

  miss_full :
      (capacity : ℕ) (k : BundleId) (v : V) (e : BundleId × V) (rest : List (BundleId × V))
      → find k (e ∷ rest) ≡ none
      → ltb (length (e ∷ rest)) capacity ≡ false
      → push_entries capacity k v (e ∷ rest)
        ≡ ((k, v) ∷ (split_last e rest).0, some (split_last e rest).1)
  unfolding push_entries
  miss_full capacity k v e rest f full = rw (f, full, push_entries)

  -- What a push does: it replaces the value of its key, or it adds an entry, or it evicts one to do so.
  pub data Pushed (capacity : ℕ) (k : BundleId) (v : V) (es : List (BundleId × V))
      : List (BundleId × V) × Option (BundleId × V) → Type 0 where
    replaced :
        (old : V)
        → find k es ≡ some old
        → Pushed capacity k v es ((k, v) ∷ erase k es, some (k, old))
    added : find k es ≡ none → length es < capacity → Pushed capacity k v es ((k, v) ∷ es, none)
    evicted :
        (e : BundleId × V) (rest : List (BundleId × V))
        → find k es ≡ none
        → es ≡ e ∷ rest
        → capacity ≤ length es
        → Pushed capacity k v es ((k, v) ∷ (split_last e rest).0, some (split_last e rest).1)

  pub push_entries-Pushed :
      (capacity : ℕ) (k : BundleId) (v : V) (es : List (BundleId × V))
      → 0 < capacity
      → Pushed capacity k v es (push_entries capacity k v es)
  push_entries-Pushed capacity k v es h = elim (Option-cases (find k es)) [
    | inr (old, e) ↦ rw (hit capacity k v es old e) (replaced old e)
    | inl e ↦ elim (Bool-cases (ltb (length es) capacity)) [
      | inl room ↦ rw (miss_room capacity k v es e room) (added e (ground arith))
      | inr full ↦ no_room es e full
    ]
  ]
    where
      no_room :
          (l : List (BundleId × V))
          → find k l ≡ none
          → ltb (length l) capacity ≡ false
          → Pushed capacity k v l (push_entries capacity k v l)
      no_room [] e full = absurd (ground arith)
      no_room (d ∷ rest) e full =
          rw (miss_full capacity k v d rest e full) (evicted d rest e refl (ground arith))

  -- After a push a lookup finds the new value, and of the others all but the one that was evicted.
  pub Pushed-find :
      {capacity : ℕ} {k : BundleId} {v : V} {es : List (BundleId × V)}
      {o : List (BundleId × V) × Option (BundleId × V)} (j : BundleId)
      → AreUnique es
      → Pushed capacity k v es o
      → find j o.0 ≡ (if eq_id k j then some v else if is_key j o.1 then none else find j es)
  unfolding find
  Pushed-find {k} {es} j u (replaced old e) = ground (arith, find-erase_ne k j es)
  Pushed-find {k} {es} j u (added e room) = ground arith
  Pushed-find {k} {es} j u (evicted d rest e f full) =
      rw f (ground (arith, find-split_last j d rest (rw f at u)))

  pub Pushed-AreUnique :
      {capacity : ℕ} {k : BundleId} {v : V} {es : List (BundleId × V)}
      {o : List (BundleId × V) × Option (BundleId × V)}
      → AreUnique es
      → Pushed capacity k v es o
      → AreUnique o.0
  Pushed-AreUnique {k} {es} u (replaced old e) = (find-erase_self k es u, erase-AreUnique k es u)
  Pushed-AreUnique u (added e room) = (e, u)
  Pushed-AreUnique {k} u (evicted d rest e f full) =
      let u' : AreUnique (d ∷ rest) = rw f at u in
      let e' : find k (d ∷ rest) ≡ none = rw f at e in
      (ground (arith, find-split_last k d rest u'), split_last-AreUnique d rest u')

  pub Pushed-length :
      {capacity : ℕ} {k : BundleId} {v : V} {es : List (BundleId × V)}
      {o : List (BundleId × V) × Option (BundleId × V)}
      → length es ≤ capacity
      → Pushed capacity k v es o
      → length o.0 ≤ capacity
  Pushed-length {k} {es} h (replaced old e) = omega (arith, length-erase k old es e)
  Pushed-length h (added e room) = omega arith
  Pushed-length h (evicted d rest e f full) =
      let h' : length (d ∷ rest) ≤ _ = rw f at h in omega (arith, length-split_last d rest)

  abbrev pub weight : (V → Bool) → Option (BundleId × V) → ℕ
  weight p none = 0
  weight p (some (k, v)) = if p v then 1 else 0

  -- What is counted afterwards, with the entry that left, is what was counted before, with the new one.
  pub Pushed-count :
      {capacity : ℕ} {k : BundleId} {v : V} {es : List (BundleId × V)}
      {o : List (BundleId × V) × Option (BundleId × V)} (p : V → Bool)
      → Pushed capacity k v es o
      → count p o.0 + weight p o.1 ≡ count p es + (if p v then 1 else 0)
  unfolding count
  Pushed-count {k} {es} p (replaced old e) = omega (arith, count-erase p k old es e)
  Pushed-count p (added e room) = omega arith
  Pushed-count p (evicted d rest e f full) = rw f (omega (arith, count-split_last p d rest))
