-- ===== src/Prelude/Lists.antt =====
-- Lists measured and indexed by native numbers, under the library's names.
use Prim.Native.Nat.{ℕ, zero, suc, ◌+◌, ◌-◌, ◌<◌, min}
use mathlib.Core.Path.{◌≡◌, refl, ap}
use mathlib.Core.Logic.{◌≢◌}
use mathlib.Core.List.{List, [], ◌∷◌, ◌++◌, map}
use mathlib.Core.Bool.{Bool, true, false, ◌&&◌, ◌||◌}
use mathlib.Core.Option.{Option, none, some}
use native.Mathlib.Omega.{arith}
use Prim.Native.Nat.add

module _ {ℓ} {A : Type ℓ} where
  abbrev pub length : List A → ℕ
  length [] = 0
  length (x ∷ xs) = suc (length xs)

  abbrev pub get_elem? : List A → ℕ → Option A
  get_elem? [] i = none
  get_elem? (x ∷ xs) zero = some x
  get_elem? (x ∷ xs) (suc i) = get_elem? xs i

  -- A write out of bounds changes nothing.
  abbrev pub set : List A → ℕ → A → List A
  set [] i v = []
  set (x ∷ xs) zero v = v ∷ xs
  set (x ∷ xs) (suc i) v = x ∷ set xs i v

  pub length-append : (xs ys : List A) → length (xs ++ ys) ≡ length xs + length ys
  length-append [] ys = omega arith
  length-append (x ∷ xs) ys = omega (arith, length-append xs ys)

module _ {ℓ} {A : Type ℓ} where
  pub length-set : (xs : List A) (i : ℕ) (v : A) → length (set xs i v) ≡ length xs
  length-set [] i v = refl
  length-set (x ∷ xs) zero v = refl
  length-set (x ∷ xs) (suc i) v = ap suc (length-set xs i v)

  pub get_elem?-set_self :
      (xs : List A) (i : ℕ) (v : A) → i < length xs → get_elem? (set xs i v) i ≡ some v
  get_elem?-set_self [] i v h = elim h [ ]
  get_elem?-set_self (x ∷ xs) zero v h = refl
  get_elem?-set_self (x ∷ xs) (suc i) v h = get_elem?-set_self xs i v (omega arith)

  pub get_elem?-set_ne :
      (xs : List A) {i j : ℕ} (v : A) → i ≢ j → get_elem? (set xs i v) j ≡ get_elem? xs j
  get_elem?-set_ne [] v h = refl
  get_elem?-set_ne (x ∷ xs) {i = zero} {j = zero} v h = absurd (h refl)
  get_elem?-set_ne (x ∷ xs) {i = zero} {j = suc j} v h = refl
  get_elem?-set_ne (x ∷ xs) {i = suc i} {j = zero} v h = refl
  get_elem?-set_ne (x ∷ xs) {i = suc i} {j = suc j} v h = get_elem?-set_ne xs v (λ e. h (ap suc e))

module _ {ℓ} {A : Type ℓ} where
  abbrev pub get_or : List A → ℕ → A → A
  get_or [] i d = d
  get_or (x ∷ xs) zero d = x
  get_or (x ∷ xs) (suc i) d = get_or xs i d

  abbrev pub take : ℕ → List A → List A
  take zero xs = []
  take (suc n) [] = []
  take (suc n) (x ∷ xs) = x ∷ take n xs

  abbrev pub drop : ℕ → List A → List A
  drop zero xs = xs
  drop (suc n) [] = []
  drop (suc n) (x ∷ xs) = drop n xs

  abbrev pub replicate : ℕ → A → List A
  replicate zero a = []
  replicate (suc n) a = a ∷ replicate n a

  pub take-append-drop : (n : ℕ) (xs : List A) → take n xs ++ drop n xs ≡ xs
  take-append-drop zero xs = refl
  take-append-drop (suc n) [] = refl
  take-append-drop (suc n) (x ∷ xs) = rw (take-append-drop n xs)

  pub length-take : (n : ℕ) (xs : List A) → length (take n xs) ≡ min n (length xs)
  length-take zero xs = omega arith
  length-take (suc n) [] = omega arith
  length-take (suc n) (x ∷ xs) = omega (arith, length-take n xs)

  pub length-drop : (n : ℕ) (xs : List A) → length (drop n xs) ≡ length xs - n
  length-drop zero xs = omega arith
  length-drop (suc n) [] = omega arith
  length-drop (suc n) (x ∷ xs) = omega (arith, length-drop n xs)

  pub length-replicate : (n : ℕ) (a : A) → length (replicate n a) ≡ n
  length-replicate zero a = refl
  length-replicate (suc n) a = ap suc (length-replicate n a)

  pub length-map {κ} : {B : Type κ} (xs : List A) (f : A → B) → length (map f xs) ≡ length xs
  length-map [] f = refl
  length-map (x ∷ xs) f = ap suc (length-map xs f)

-- A cursor at `n`: what it reads, what is behind it, and how much that is.
module _ {ℓ} {A : Type ℓ} where
  pub get_elem?-of_drop :
      (xs : List A) (n : ℕ) (x : A) (rest : List A) → drop n xs ≡ x ∷ rest → get_elem? xs n ≡ some x
  get_elem?-of_drop [] zero x rest e = cc
  get_elem?-of_drop [] (suc n) x rest e = cc
  get_elem?-of_drop (y ∷ xs) zero x rest e = cc
  get_elem?-of_drop (y ∷ xs) (suc n) x rest e = get_elem?-of_drop xs n x rest e

  pub get_elem?-of_drop_nil : (xs : List A) (n : ℕ) → drop n xs ≡ [] → get_elem? xs n ≡ none
  get_elem?-of_drop_nil [] n e = refl
  get_elem?-of_drop_nil (y ∷ xs) zero e = cc
  get_elem?-of_drop_nil (y ∷ xs) (suc n) e = get_elem?-of_drop_nil xs n e

  pub drop-suc_of_drop :
      (xs : List A) (n : ℕ) (x : A) (rest : List A) → drop n xs ≡ x ∷ rest → drop (n + 1) xs ≡ rest
  drop-suc_of_drop [] zero x rest e = cc
  drop-suc_of_drop [] (suc n) x rest e = cc
  drop-suc_of_drop (y ∷ xs) zero x rest e = cc
  drop-suc_of_drop (y ∷ xs) (suc n) x rest e =
      let s : suc n + 1 ≡ suc (n + 1) = omega arith in rw s (drop-suc_of_drop xs n x rest e)

  pub drop-drop : (n m : ℕ) (xs : List A) → drop m (drop n xs) ≡ drop (n + m) xs
  drop-drop zero m xs = rw add.zero
  drop-drop (suc n) zero [] = rw add.suc
  drop-drop (suc n) (suc m) [] = rw add.suc
  drop-drop (suc n) m (x ∷ xs) = rw add.suc (drop-drop n m xs)

  pub length-of_drop :
      (xs : List A) (n : ℕ) (x : A) (rest : List A)
      → drop n xs ≡ x ∷ rest
      → n + 1 + length rest ≡ length xs
  length-of_drop [] zero x rest e = cc
  length-of_drop [] (suc n) x rest e = cc
  length-of_drop (y ∷ xs) zero x rest e = ground arith
  length-of_drop (y ∷ xs) (suc n) x rest e = omega (arith, length-of_drop xs n x rest e)

  pub drop-append_length : (xs ys : List A) → drop (length xs) (xs ++ ys) ≡ ys
  drop-append_length [] ys = refl
  drop-append_length (x ∷ xs) ys = drop-append_length xs ys

  pub take-append_length : (xs ys : List A) → take (length xs) (xs ++ ys) ≡ xs
  take-append_length [] ys = refl
  take-append_length (x ∷ xs) ys = ap (λ l. x ∷ l) (take-append_length xs ys)

  pub take-append_add : (xs ys : List A) (k : ℕ) → take (length xs + k) (xs ++ ys) ≡ xs ++ take k ys
  take-append_add [] ys k = rw add.zero
  take-append_add (x ∷ xs) ys k = rw add.suc (ap (λ l. x ∷ l) (take-append_add xs ys k))

-- `Iterator::any` and `Iterator::all`
module _ {ℓ} {A : Type ℓ} where
  abbrev pub any : List A → (A → Bool) → Bool
  any [] p = false
  any (x ∷ xs) p = p x || any xs p

  abbrev pub all : List A → (A → Bool) → Bool
  all [] p = true
  all (x ∷ xs) p = p x && all xs p
