-- ===== src/Bpa/Reassembly/Result.antt =====
-- bpa/src/storage/adu_reassembly.rs: `reassemble`, from the checks to the bytes of the ADU.
use mathlib.Core.Path.{subst}
use hardy.Prelude.{
  ℕ, zero, suc, ◌+◌, ◌^◌, ◌≤◌, ◌<◌, ◌≡◌, ◌≢◌, refl, sym, ap, ◌∙◌, List, [], ◌∷◌, Bool, true, false,
  ◌⊎◌, inl, inr, Option, none, some, ltb, ◌==◌, arith, length,
}
use hardy.Bpa.Reassembly.{
  Adu, Bundle, FragmentSet, returned, Store, len, get, get_range, copy_fragments, copy_all,
  assemble, zeros, tile, sorted_extents,
}
use hardy.Bpa.Reassembly.Tiling.{has, has_key, unique, has-get, get-has, Tiles, tile-Tiles}
use hardy.Bpa.Reassembly.Copy.{
  write, length-write, write-inside, AllKeyed, Loads, get_range-length, copy-write,
}
use hardy.Bpa.Reassembly.Placed.{
  copy_fragments-returns, copy_fragments-clear, copy_fragments-length, clear, is_skipped,
}
use hardy.Bpa.Reassembly.Whole.{Places, copy_fragments-Places}

-- What `poll_fragments` keeps: the entries stand under their offsets, each offset once.
pub record IsFragmentSet (s : FragmentSet) : Type 0 where
  pub keyed : AllKeyed s.adus
  pub once : unique s.adus ≡ true

-- What the function relies on: a stored bundle has its data under the name that its metadata has, no
-- other fragment has the name of the first, and the ADU is addressable.
pub record IsStored (store : Store) (s : FragmentSet) (first : Adu) (total : ℕ) : Type 0 where
  pub is_first : get 0 s.adus ≡ some first
  pub has_total :
      first.bundle_id.fragment_info ≡ some (record { offset = 0; total_adu_length = total })
  pub bounded : total < 2 ^ 63
  pub named :
      (b : Bundle)
      → store.get_metadata first.bundle_id ≡ some b
      → b.storage_name ≡ some first.storage_name
  pub other_names :
      (k : ℕ) (a : Adu)
      → get k s.adus ≡ some a
      → k ≢ 0
      → (a.storage_name == first.storage_name) ≡ false

length-zeros : (n : ℕ) → length (zeros n) ≡ n
length-zeros zero = refl
length-zeros (suc n) = ap suc (length-zeros n)

same_total : (n : ℕ) → (n == n) ≡ true
same_total n = ground arith

module _ (store : Store) (s : FragmentSet) (first : Adu) (total : ℕ) where
  -- The checks pass, and the loop over the fragments is what remains.
  abbrev Starts : Type 0
  Starts =
      (payload : List ℕ) × Loads store first payload
      × (length payload ≡ len first.payload)
      × (length payload ≤ total)
      × Tiles s.adus total
      × (assemble store s ≡ copy_fragments store first total s.adus (write 0 payload (zeros total)))

  assemble_cases : IsStored store s first total → (assemble store s ≡ returned none) ⊎ Starts
  unfolding assemble copy_all
  assemble_cases h = at_metadata (store.get_metadata first.bundle_id) refl
    where
      at_zero :
          (payload : List ℕ)
          → length (zeros total) ≡ total
          → length payload ≡ len first.payload
          → ltb total (len first.payload) ≡ false
          → 0 + len first.payload ≤ length (zeros total)
      at_zero payload e z f = ground arith

      to_copy :
          (b : Bundle) (bytes : List ℕ)
          → store.get_metadata first.bundle_id ≡ some b
          → store.load_data first.storage_name ≡ some bytes
          → tile (sorted_extents s.adus) 0 ≡ some total
          → assemble store s ≡ copy_all store first total bytes s.adus
      to_copy b bytes m l t =
          simp (h.is_first, m, h.named b m, l, h.has_total, t, assemble, same_total total)

      at_range :
          (b : Bundle) (bytes : List ℕ) (r : Option (List ℕ))
          → store.get_metadata first.bundle_id ≡ some b
          → store.load_data first.storage_name ≡ some bytes
          → tile (sorted_extents s.adus) 0 ≡ some total
          → ltb total (len first.payload) ≡ false
          → get_range first.payload bytes ≡ r
          → (assemble store s ≡ returned none) ⊎ Starts
      at_range b bytes none m l t f g =
          inl (rw (h.is_first, m, h.named b m, l, h.has_total, t, assemble) (ground (arith, f, g)))
      at_range b bytes (some payload) m l t f g =
          let z = get_range-length first.payload bytes payload g in
          inr (
            payload,
            (bytes, l, g),
            z,
            ground (arith, f, z),
            tile-Tiles s.adus total t h.bounded,
            to_copy b bytes m l t
                ∙ ground (
                  arith,
                  f,
                  g,
                  copy-write 0 (len first.payload) payload (zeros total) z
                      (at_zero payload (length-zeros total) z f),
                ),
          )

      at_len :
          (b : Bundle) (bytes : List ℕ) (x : Bool)
          → store.get_metadata first.bundle_id ≡ some b
          → store.load_data first.storage_name ≡ some bytes
          → tile (sorted_extents s.adus) 0 ≡ some total
          → ltb total (len first.payload) ≡ x
          → (assemble store s ≡ returned none) ⊎ Starts
      at_len b bytes true m l t f =
          inl (rw (h.is_first, m, h.named b m, l, h.has_total, t, assemble) (ground (arith, f)))
      at_len b bytes false m l t f = at_range b bytes (get_range first.payload bytes) m l t f refl

      at_tile :
          (b : Bundle) (bytes : List ℕ) (o : Option ℕ)
          → store.get_metadata first.bundle_id ≡ some b
          → store.load_data first.storage_name ≡ some bytes
          → tile (sorted_extents s.adus) 0 ≡ o
          → (x : Bool) → (elim o as (λ p. Bool) [ none ↦ false | some c ↦ c == total ]) ≡ x
          → (assemble store s ≡ returned none) ⊎ Starts
      at_tile b bytes none m l t x y =
          inl (rw (h.is_first, m, h.named b m, l, h.has_total, t, assemble) refl)
      at_tile b bytes (some c) m l t false y =
          inl (rw (h.is_first, m, h.named b m, l, h.has_total, t, assemble) (ground (arith, y)))
      at_tile b bytes (some c) m l t true y =
          at_len b bytes (ltb total (len first.payload)) m l (t ∙ ap some (ground (arith, y))) refl

      at_load :
          (b : Bundle) (o : Option (List ℕ))
          → store.get_metadata first.bundle_id ≡ some b
          → store.load_data first.storage_name ≡ o
          → (assemble store s ≡ returned none) ⊎ Starts
      at_load b none m l = inl (rw (h.is_first, m, h.named b m, l, assemble) refl)
      at_load b (some bytes) m l = at_tile b bytes (tile (sorted_extents s.adus) 0) m l refl _ refl

      at_metadata :
          (o : Option Bundle)
          → store.get_metadata first.bundle_id ≡ o
          → (assemble store s ≡ returned none) ⊎ Starts
      at_metadata none m = inl (rw (h.is_first, m, assemble) refl)
      at_metadata (some b) m = at_load b (store.load_data first.storage_name) m refl

-- The first fragment is not copied twice, and the others start behind it.
first-clear :
    (first : Adu) (n i : ℕ) (l : List (ℕ × Adu))
    → i < n
    → unique l ≡ true
    → ((a : Adu) → get 0 l ≡ some a → a ≡ first)
    → ((k' n' : ℕ) → has k' n' l ≡ true → 0 < k' → n ≤ k')
    → clear first i l ≡ true
unfolding clear unique get has is_skipped has_key
first-clear first n i [] less u g a = refl
first-clear first n i (e ∷ l) less u g a = ground (
  arith,
  g e.1,
  a e.0 (len e.1.payload),
  first-clear first n i l less (ground (arith, u)) (λ b h. g b (ground (arith, key l b h, u, h)))
      (λ k' n' h. a k' n' (ground (arith, h))),
)
  where
    key : (m : List (ℕ × Adu)) (b : Adu) → get 0 m ≡ some b → has_key 0 m ≡ true
    key [] b h = cc
    key (f ∷ m) b h = ground (arith, key m b)

module _ (store : Store) (s : FragmentSet) (first : Adu) (total : ℕ) where
  zero_sized :
      (payload : List ℕ) → length payload ≤ total → length (write 0 payload (zeros total)) ≡ total
  zero_sized payload h =
      length-write 0 payload (zeros total) (ground (arith, h, length-zeros total))
      ∙ length-zeros total

  -- The reassembly of a set of fragments never panics, when storage agrees
  -- with the set and the ADU has less than 2^63 bytes: it returns the
  -- bytes of the ADU or `None`.
  pub assemble-returns :
      IsFragmentSet s
      → IsStored store s first total
      → (r : Option (List ℕ)) × (assemble store s ≡ returned r)
  assemble-returns w h = elim (assemble_cases store s first total h) [
    | inl q ↦ (none, q)
    | inr (payload, loads, z, fits, tiles, q) ↦
        let (r, f) =
          copy_fragments-returns store first total s.adus (write 0 payload (zeros total)) w.keyed
            (zero_sized payload fits) h.bounded in
        (r, q ∙ f)
  ]

  -- If the reassembly of a set of fragments returns the bytes of an ADU, when storage agrees with the
  -- set and the ADU has less than 2^63 bytes, then it has the total length of the ADU, the payload of each fragment stands in it at the
  -- fragment's offset, and each of its bytes is the byte of a fragment.
  pub assemble-whole :
      (d : List ℕ)
      → IsFragmentSet s
      → IsStored store s first total
      → assemble store s ≡ returned (some d)
      → (length d ≡ total)
        × ((k : ℕ) (a : Adu) → get k s.adus ≡ some a → Places store d k a)
        × ((i : ℕ)
            → i < total
            → (k : ℕ) × (a : Adu) × (get k s.adus ≡ some a) × (k ≤ i) × (i < k + len a.payload))
  assemble-whole d w h f = elim (assemble_cases store s first total h) [
    | inl q ↦ cc (q, f)
    | inr (payload, loads, z, fits, tiles, q) ↦ (
      copy_fragments-length store first total s.adus (write 0 payload (zeros total)) d w.keyed
          (zero_sized payload fits) h.bounded (sym q ∙ f),
      λ k a g. placed payload loads z fits tiles (sym q ∙ f) k a g (k == 0) refl,
      λ i less.
          let (k, n, m, lo, hi) = tiles.covers i less in
          let (a, g, y) = has-get k n s.adus w.once m in (k, a, g, lo, omega (arith, y, hi)),
    )
  ]
    where
      placed :
          (payload : List ℕ)
          → Loads store first payload
          → length payload ≡ len first.payload
          → length payload ≤ total
          → Tiles s.adus total
          → copy_fragments store first total s.adus (write 0 payload (zeros total))
            ≡ returned (some d)
          → (k : ℕ) (a : Adu) → get k s.adus ≡ some a
          → (x : Bool) → (k == 0) ≡ x
          → Places store d k a
      placed payload loads z fits tiles q k a g false x =
          copy_fragments-Places store first total s.adus (write 0 payload (zeros total)) d k a
            w.keyed w.once tiles.apart (zero_sized payload fits) h.bounded q g
            (h.other_names k a g (ground (arith, x)))
      placed payload loads z fits tiles q k a g true x =
          let at : 0 ≡ k = ground (arith, x) in
          let same : first ≡ a = ground (arith, h.is_first, g, at) in
          subst (λ m. Places store d m a) at
            (subst (Places store d 0) same (
              payload,
              loads,
              λ j less.
                  copy_fragments-clear store first total s.adus (write 0 payload (zeros total)) d
                    (0 + j) w.keyed (zero_sized payload fits) h.bounded q
                    (first-clear first (len first.payload) (0 + j) s.adus (omega (arith, less))
                      w.once (λ b gb. ground (arith, gb, h.is_first))
                      (λ k' n' m pos. ground (
                        arith,
                        tiles.apart 0 (len first.payload) k' n' (get-has 0 first s.adus h.is_first)
                            m pos,
                      )))
                  ∙ write-inside 0 payload (zeros total) j
                      (ground (arith, fits, length-zeros total)) (omega (arith, less, z)),
            ))
