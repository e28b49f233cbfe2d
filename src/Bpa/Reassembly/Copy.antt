-- ===== src/Bpa/Reassembly/Copy.antt =====
-- bpa/src/storage/adu_reassembly.rs: the copies of the fragments into one ADU.
use Prim.Native.Nat.add
use hardy.Prelude.{
  ℕ, zero, suc, ◌+◌, ◌^◌, ◌≤◌, ◌<◌, ◌≡◌, refl, List, [], ◌∷◌, ◌++◌, Bool, true, false, ◌⊎◌, inl,
  inr, Option, none, some, ltb, ◌==◌, arith, length, length-append, length-take, length-drop,
  get_elem?, take, drop,
}
use hardy.Bpa.Reassembly.{
  Range, Adu, returned, Store, len, saturating_add, get_range, copy_from_slice, copy_fragments,
}

pub write : ℕ → List ℕ → List ℕ → List ℕ
write o a d = take o d ++ (a ++ drop (o + length a) d)

write-outside_front :
    (a d : List ℕ) (i : ℕ)
    → length a ≤ length d
    → length a ≤ i
    → get_elem? (a ++ drop (length a) d) i ≡ get_elem? d i
write-outside_front [] d i h k = refl
write-outside_front (x ∷ a) [] i h k = ground arith
write-outside_front (x ∷ a) (y ∷ d) zero h k = ground arith
write-outside_front (x ∷ a) (y ∷ d) (suc i) h k =
    write-outside_front a d i (omega arith) (omega arith)

get_elem?-append_left : (a r : List ℕ) (j : ℕ) → j < length a → get_elem? (a ++ r) j ≡ get_elem? a j
get_elem?-append_left [] r j h = ground arith
get_elem?-append_left (x ∷ a) r zero h = refl
get_elem?-append_left (x ∷ a) r (suc j) h = get_elem?-append_left a r j (omega arith)

pub length-write :
    (o : ℕ) (a d : List ℕ) → o + length a ≤ length d → length (write o a d) ≡ length d
unfolding write
length-write o a d h = omega (
  arith,
  length-append (take o d) (a ++ drop (o + length a) d),
  length-append a (drop (o + length a) d),
  length-take o d,
  length-drop (o + length a) d,
)

pub write-inside :
    (o : ℕ) (a d : List ℕ) (j : ℕ)
    → o + length a ≤ length d
    → j < length a
    → get_elem? (write o a d) (o + j) ≡ get_elem? a j
unfolding write
write-inside zero a d j h k =
    rw (add.zero j, add.zero (length a)) (get_elem?-append_left a (drop (length a) d) j k)
write-inside (suc o) a [] j h k = ground arith
write-inside (suc o) a (y ∷ d) j h k =
    rw (add.suc o j, add.suc o (length a)) (write-inside o a d j (omega arith) k)

pub write-outside :
    (o : ℕ) (a d : List ℕ) (i : ℕ)
    → o + length a ≤ length d
    → (i < o) ⊎ (o + length a ≤ i)
    → get_elem? (write o a d) i ≡ get_elem? d i
unfolding write
write-outside zero a d i h k =
    rw (add.zero (length a)) (write-outside_front a d i (omega arith) (ground arith))
write-outside (suc o) a [] i h k = ground arith
write-outside (suc o) a (y ∷ d) zero h k = refl
write-outside (suc o) a (y ∷ d) (suc i) h k =
    rw (add.suc o (length a)) (write-outside o a d i (omega arith) (ground arith))

pub get_range-length :
    (r : Range) (bytes adu : List ℕ) → get_range r bytes ≡ some adu → length adu ≡ len r
unfolding get_range
get_range-length r bytes adu h =
    ground (arith, length-take (len r) (drop r.start bytes), length-drop r.start bytes)

pub copy-write :
    (o n : ℕ) (adu d : List ℕ)
    → length adu ≡ n
    → o + n ≤ length d
    → copy_from_slice o n adu d ≡ some (write o adu d)
unfolding copy_from_slice write
copy-write o n adu d e h = ground (arith, e)

-- An entry stands under the offset that its bundle has.
abbrev pub IsKeyed : ℕ × Adu → Type 0
IsKeyed e =
    (t : ℕ) × (e.1.bundle_id.fragment_info ≡ some (record { offset = e.0; total_adu_length = t }))

abbrev pub AllKeyed : List (ℕ × Adu) → Type 0
AllKeyed [] = Unit
AllKeyed (e ∷ es) = IsKeyed e × AllKeyed es

module _ (store : Store) where
  -- The bytes that storage holds for a fragment
  abbrev pub Loads : Adu → List ℕ → Type 0
  Loads a adu =
      (bytes : List ℕ) × (store.load_data a.storage_name ≡ some bytes)
      × (get_range a.payload bytes ≡ some adu)

  abbrev pub Copies : Adu → ℕ → ℕ × Adu → List (ℕ × Adu) → List ℕ → Type 0
  Copies first total e es d =
      (adu : List ℕ) × Loads e.1 adu
      × (e.0 + length adu ≤ total)
      × (length adu ≡ len e.1.payload)
      × (copy_fragments store first total (e ∷ es) d
          ≡ copy_fragments store first total es (write e.0 adu d))

  pub copy_step :
      (first : Adu) (total t : ℕ) (e : ℕ × Adu) (es : List (ℕ × Adu)) (d : List ℕ)
      → (e.1.storage_name == first.storage_name) ≡ false
      → e.1.bundle_id.fragment_info ≡ some (record { offset = e.0; total_adu_length = t })
      → length d ≡ total
      → total < 2 ^ 63
      → (copy_fragments store first total (e ∷ es) d ≡ returned none) ⊎ Copies first total e es d
  unfolding copy_fragments
  copy_step first total t e es d other keyed size bound = at_total (t == total) refl
    where
      at_range :
          (bytes : List ℕ) (r : Option (List ℕ))
          → (t == total) ≡ true
          → ltb total (saturating_add e.0 (len e.1.payload)) ≡ false
          → store.load_data e.1.storage_name ≡ some bytes
          → get_range e.1.payload bytes ≡ r
          → (copy_fragments store first total (e ∷ es) d ≡ returned none)
            ⊎ Copies first total e es d
      at_range bytes none q f l g = inl (rw (other, keyed, q, f, l, g) refl)
      at_range bytes (some adu) q f l g =
          let z = get_range-length e.1.payload bytes adu g in
          let fits : e.0 + len e.1.payload ≤ total = ground arith in
          inr (
            adu,
            (bytes, l, g),
            omega arith,
            z,
            rw (other, keyed, q, f, l, g, copy-write e.0 (len e.1.payload) adu d z (omega arith))
                refl,
          )

      at_load :
          (o : Option (List ℕ))
          → (t == total) ≡ true
          → ltb total (saturating_add e.0 (len e.1.payload)) ≡ false
          → store.load_data e.1.storage_name ≡ o
          → (copy_fragments store first total (e ∷ es) d ≡ returned none)
            ⊎ Copies first total e es d
      at_load none q f l = inl (rw (other, keyed, q, f, l) refl)
      at_load (some bytes) q f l = at_range bytes (get_range e.1.payload bytes) q f l refl

      at_bound :
          (b : Bool)
          → (t == total) ≡ true
          → ltb total (saturating_add e.0 (len e.1.payload)) ≡ b
          → (copy_fragments store first total (e ∷ es) d ≡ returned none)
            ⊎ Copies first total e es d
      at_bound true q f = inl (rw (other, keyed, q, f) refl)
      at_bound false q f = at_load (store.load_data e.1.storage_name) q f refl

      at_total :
          (b : Bool)
          → (t == total) ≡ b
          → (copy_fragments store first total (e ∷ es) d ≡ returned none)
            ⊎ Copies first total e es d
      at_total false q = inl (rw (other, keyed, q) refl)
      at_total true q = at_bound (ltb total (saturating_add e.0 (len e.1.payload))) q refl
