-- ===== src/Bpa/Reassembly/Whole.antt =====
-- bpa/src/storage/adu_reassembly.rs: the ADU that comes of a set of fragments.
use mathlib.Core.Path.{subst}
use hardy.Prelude.{
  ℕ, ◌+◌, ◌^◌, ◌≤◌, ◌<◌, ◌≡◌, refl, sym, ◌∙◌, List, [], ◌∷◌, Bool, true, false, inl, inr, some,
  ◌==◌, arith, length, get_elem?,
}
use hardy.Bpa.Reassembly.{Adu, returned, Store, len, get, copy_fragments}
use hardy.Bpa.Reassembly.Tiling.{has, has_key, unique}
use hardy.Bpa.Reassembly.Copy.{write, length-write, write-inside, AllKeyed, Loads}
use hardy.Bpa.Reassembly.Placed.{is_skipped, clear, step_cases, copy_fragments-clear}

-- No fragment of the list has a byte in the `n` bytes at `k`.
abbrev Avoids : ℕ → ℕ → List (ℕ × Adu) → Type 0
Avoids k n l = (k' n' : ℕ) → has k' n' l ≡ true → (k < k' → k + n ≤ k') × (k' < k → k' + n' ≤ k)

Avoids-clear :
    (first : Adu) (k n i : ℕ) (l : List (ℕ × Adu))
    → k ≤ i
    → i < k + n
    → has_key k l ≡ false
    → Avoids k n l
    → clear first i l ≡ true
unfolding clear has_key has
Avoids-clear first k n i [] lo hi u a = refl
Avoids-clear first k n i (e ∷ l) lo hi u a =
    let at_head = a e.0 (len e.1.payload) (ground arith) in
    let rest =
      Avoids-clear first k n i l lo hi (ground (arith, u))
        (λ k' n' h. a k' n' (ground (arith, h))) in
    ground (arith, at_head, rest, u)

abbrev Apart : List (ℕ × Adu) → Type 0
Apart l = (k n k' n' : ℕ) → has k n l ≡ true → has k' n' l ≡ true → k < k' → k + n ≤ k'

Apart-Avoids : (e : ℕ × Adu) (l : List (ℕ × Adu)) → Apart (e ∷ l) → Avoids e.0 (len e.1.payload) l
unfolding has
Apart-Avoids e l a k' n' h = (
  λ less. a e.0 (len e.1.payload) k' n' (ground arith) (ground (arith, h)) less,
  λ less. a k' n' e.0 (len e.1.payload) (ground (arith, h)) (ground arith) less,
)

Apart-tail : (e : ℕ × Adu) (l : List (ℕ × Adu)) → Apart (e ∷ l) → Apart l
unfolding has
Apart-tail e l a k n k' n' h h' less = a k n k' n' (ground (arith, h)) (ground (arith, h')) less

module _ (store : Store) where
  -- The bytes that storage holds for a fragment stand at `k`.
  abbrev pub Places : List ℕ → ℕ → Adu → Type 0
  Places d k a =
      (adu : List ℕ) × Loads store a adu
      × ((j : ℕ) → j < len a.payload → get_elem? d (k + j) ≡ get_elem? adu j)

  pub copy_fragments-Places :
      (first : Adu) (total : ℕ) (l : List (ℕ × Adu)) (d d' : List ℕ) (k : ℕ) (a : Adu)
      → AllKeyed l
      → unique l ≡ true
      → Apart l
      → length d ≡ total
      → total < 2 ^ 63
      → copy_fragments store first total l d ≡ returned (some d')
      → get k l ≡ some a
      → (a.storage_name == first.storage_name) ≡ false
      → Places d' k a
  unfolding get unique
  copy_fragments-Places first total [] d d' k a keyed u ap' size b h g f = cc
  copy_fragments-Places first total (e ∷ es) d d' k a (ke, keyed) u ap' size b h g f =
      let u' : unique es ≡ true = ground (arith, u) in
      elim (step_cases store first total e es d ke size b) [
        | inl (s, q) ↦
            copy_fragments-Places first total es d d' k a keyed u' (Apart-tail e es ap') size b
              (sym q ∙ h) (unfold is_skipped in ground (arith, g, f, s)) f
        | inr (s, inl q) ↦ cc (q, h)
        | inr (s, inr (adu, loads, fits, z, q)) ↦
            at_key (e.0 == k) refl adu loads (omega (arith, size)) z (sym q ∙ h)
              (length-write e.0 adu d (omega (arith, size)) ∙ size)
              (λ g'.
                copy_fragments-Places first total es (write e.0 adu d) d' k a keyed u'
                  (Apart-tail e es ap') (length-write e.0 adu d (omega (arith, size)) ∙ size) b
                  (sym q ∙ h) g' f)
      ]
    where
      at_key :
          (x : Bool)
          → (e.0 == k) ≡ x
          → (adu : List ℕ) → Loads store e.1 adu
          → e.0 + length adu ≤ length d
          → length adu ≡ len e.1.payload
          → copy_fragments store first total es (write e.0 adu d) ≡ returned (some d')
          → length (write e.0 adu d) ≡ total
          → (get k es ≡ some a → Places d' k a)
          → Places d' k a
      at_key false x adu loads fits z q size' rest = rest (ground (arith, g, x))
      at_key true x adu loads fits z q size' rest =
          let same : e.1 ≡ a = ground (arith, g, x) in
          let at : e.0 ≡ k = ground (arith, x) in
          subst (λ m. Places d' m a) at
            (subst (Places d' e.0) same (
              adu,
              loads,
              λ j less.
                  copy_fragments-clear store first total es (write e.0 adu d) d' (e.0 + j) keyed
                    size' b q
                    (Avoids-clear first e.0 (len e.1.payload) (e.0 + j) es (omega arith)
                      (omega (arith, less)) (ground (arith, u)) (Apart-Avoids e es ap'))
                  ∙ write-inside e.0 adu d j fits (omega (arith, less, z)),
            ))
