-- ===== src/Bpa/Reassembly/Placed.antt =====
-- bpa/src/storage/adu_reassembly.rs: where the bytes of each fragment end up.
use hardy.Prelude.{
  ℕ, ◌+◌, ◌^◌, ◌<◌, ◌≡◌, refl, sym, ◌∙◌, List, [], ◌∷◌, Bool, true, false, ◌&&◌, ◌||◌, ◌⊎◌, inl,
  inr, Option, none, some, leb, ltb, ◌==◌, arith, length, get_elem?,
}
use hardy.Bpa.Reassembly.{Adu, returned, Store, len, copy_fragments}
use hardy.Bpa.Reassembly.Copy.{
  write, length-write, write-outside, IsKeyed, AllKeyed, Copies, copy_step,
}

unfoldable pub is_skipped : Adu → ℕ × Adu → Bool
is_skipped first e = e.1.storage_name == first.storage_name

-- No fragment that is copied has a byte at `i`.
unfoldable pub clear : Adu → ℕ → List (ℕ × Adu) → Bool
unfolding is_skipped
clear first i [] = true
clear first i (e ∷ es) =
    (is_skipped first e || (ltb i e.0 || leb (e.0 + len e.1.payload) i)) && clear first i es

module _ (store : Store) where
  copy-skip :
      (first : Adu) (total : ℕ) (e : ℕ × Adu) (es : List (ℕ × Adu)) (d : List ℕ)
      → is_skipped first e ≡ true
      → copy_fragments store first total (e ∷ es) d ≡ copy_fragments store first total es d
  unfolding copy_fragments is_skipped
  copy-skip first total e es d h = rw h refl

  pub step_cases :
      (first : Adu) (total : ℕ) (e : ℕ × Adu) (es : List (ℕ × Adu)) (d : List ℕ)
      → IsKeyed e
      → length d ≡ total
      → total < 2 ^ 63
      → ((is_skipped first e ≡ true)
          × (copy_fragments store first total (e ∷ es) d ≡ copy_fragments store first total es d))
        ⊎ ((is_skipped first e ≡ false)
            × ((copy_fragments store first total (e ∷ es) d ≡ returned none)
                ⊎ Copies store first total e es d))
  step_cases first total e es d (t, keyed) size b = split (is_skipped first e) refl
    where
      split :
          (s : Bool)
          → is_skipped first e ≡ s
          → ((is_skipped first e ≡ true)
              × (copy_fragments store first total (e ∷ es) d
                  ≡ copy_fragments store first total es d))
            ⊎ ((is_skipped first e ≡ false)
                × ((copy_fragments store first total (e ∷ es) d ≡ returned none)
                    ⊎ Copies store first total e es d))
      split true q = inl (q, copy-skip first total e es d q)
      split false q =
          inr (q, copy_step store first total t e es d (unfold is_skipped in q) keyed size b)

  -- The loop returns.
  pub copy_fragments-returns :
      (first : Adu) (total : ℕ) (l : List (ℕ × Adu)) (d : List ℕ)
      → AllKeyed l
      → length d ≡ total
      → total < 2 ^ 63
      → (r : Option (List ℕ)) × (copy_fragments store first total l d ≡ returned r)
  copy_fragments-returns first total [] d k size b = (some d, unfold copy_fragments in refl)
  copy_fragments-returns first total (e ∷ es) d (ke, k) size b =
      elim (step_cases first total e es d ke size b) [
        | inl (s, q) ↦ let (r, f) = copy_fragments-returns first total es d k size b in (r, q ∙ f)
        | inr (s, inl q) ↦ (none, q)
        | inr (s, inr (adu, loads, fits, z, q)) ↦
            let (r, f) =
              copy_fragments-returns first total es (write e.0 adu d) k
                (length-write e.0 adu d (omega (arith, size)) ∙ size) b in
            (r, q ∙ f)
      ]

  -- A byte that no fragment is copied to stays, and so does the length.
  pub copy_fragments-clear :
      (first : Adu) (total : ℕ) (l : List (ℕ × Adu)) (d d' : List ℕ) (i : ℕ)
      → AllKeyed l
      → length d ≡ total
      → total < 2 ^ 63
      → copy_fragments store first total l d ≡ returned (some d')
      → clear first i l ≡ true
      → get_elem? d' i ≡ get_elem? d i
  unfolding clear
  copy_fragments-clear first total [] d d' i k size b h c = unfold copy_fragments in cc
  copy_fragments-clear first total (e ∷ es) d d' i (ke, k) size b h c =
      elim (step_cases first total e es d ke size b) [
        | inl (s, q) ↦
            copy_fragments-clear first total es d d' i k size b (sym q ∙ h) (ground (arith, c))
        | inr (s, inl q) ↦ cc (q, h)
        | inr (s, inr (adu, loads, fits, z, q)) ↦
            copy_fragments-clear first total es (write e.0 adu d) d' i k
              (length-write e.0 adu d (omega (arith, size)) ∙ size) b (sym q ∙ h)
              (ground (arith, c))
            ∙ write-outside e.0 adu d i (omega (arith, size)) (ground (arith, c, s, z))
      ]

  pub copy_fragments-length :
      (first : Adu) (total : ℕ) (l : List (ℕ × Adu)) (d d' : List ℕ)
      → AllKeyed l
      → length d ≡ total
      → total < 2 ^ 63
      → copy_fragments store first total l d ≡ returned (some d')
      → length d' ≡ total
  copy_fragments-length first total [] d d' k size b h = unfold copy_fragments in cc
  copy_fragments-length first total (e ∷ es) d d' (ke, k) size b h =
      elim (step_cases first total e es d ke size b) [
        | inl (s, q) ↦ copy_fragments-length first total es d d' k size b (sym q ∙ h)
        | inr (s, inl q) ↦ cc (q, h)
        | inr (s, inr (adu, loads, fits, z, q)) ↦
            copy_fragments-length first total es (write e.0 adu d) d' k
              (length-write e.0 adu d (omega (arith, size)) ∙ size) b (sym q ∙ h)
      ]
