-- ===== src/Cbor/Bytes.antt =====
-- Byte slices and big-endian integers, as cbor/src uses those of the standard library.
use mathlib.Core.List.{foldl, foldl-append, append_assoc, append-nil}
use hardy.Prelude.{
  ℕ, zero, suc, ◌+◌, ◌*◌, ◌/◌, ◌%◌, ◌^◌, ◌≤◌, ◌<◌, ◌≡◌, refl, ◌∙◌, List, [], ◌∷◌, ◌++◌, arith,
  length, length-append, length-take, take, drop,
}
use native.Mathlib.Nat.{pow-suc, add-zero}
use Prim.Native.Nat.add

abbrev pub IsByte : ℕ → Type 0
IsByte b = b < 256

abbrev pub IsU64 : ℕ → Type 0
IsU64 v = v < 2 ^ 64

abbrev pub All {ℓ κ} : {A : Type ℓ} → (A → Type κ) → List A → Type κ
All P [] = Unit
All P (x ∷ xs) = P x × All P xs

abbrev pub add_byte : ℕ → ℕ → ℕ
add_byte acc b = acc * 256 + b

-- `uN::from_be_bytes`, for a slice of any width
unfoldable pub from_be_bytes : List ℕ → ℕ
from_be_bytes bs = foldl add_byte 0 bs

-- `uN::to_be_bytes`, for a width of `n` bytes
unfoldable pub to_be_bytes : ℕ → ℕ → List ℕ
to_be_bytes zero v = []
to_be_bytes (suc n) v = to_be_bytes n (v / 256) ++ (v % 256 ∷ [])

pub length-to_be_bytes : (n v : ℕ) → length (to_be_bytes n v) ≡ n
unfolding to_be_bytes
length-to_be_bytes zero v = refl
length-to_be_bytes (suc n) v =
    omega (
      arith,
      length-append (to_be_bytes n (v / 256)) (v % 256 ∷ []),
      length-to_be_bytes n (v / 256),
    )

pub from_be_bytes-to_be_bytes : (n v : ℕ) → v < 256 ^ n → from_be_bytes (to_be_bytes n v) ≡ v
unfolding from_be_bytes to_be_bytes
from_be_bytes-to_be_bytes zero v h = omega arith
from_be_bytes-to_be_bytes (suc n) v h = rw foldl-append (
    omega
      (arith, pow-suc 256 n, from_be_bytes-to_be_bytes n (v / 256) (omega (arith, pow-suc 256 n))))

suc-add-eq : (n k : ℕ) → suc n + k ≡ n + suc k
suc-add-eq n k = omega arith

quotient : (acc b : ℕ) → IsByte b → add_byte acc b / 256 ≡ acc
quotient acc b h = omega arith

remainder : (acc b : ℕ) → IsByte b → add_byte acc b % 256 ≡ b
remainder acc b h = omega arith

-- Writing what was read, digit by digit behind an accumulator.
to_be_bytes-foldl :
    (bs : List ℕ) (n acc : ℕ)
    → All IsByte bs
    → to_be_bytes (n + length bs) (foldl add_byte acc bs) ≡ to_be_bytes n acc ++ bs
unfolding to_be_bytes
to_be_bytes-foldl [] n acc h = rw (add-zero, append-nil)
to_be_bytes-foldl (b ∷ bs) n acc (hb, hbs) =
    rw (← suc-add-eq n (length bs)) (to_be_bytes-foldl bs (suc n) (add_byte acc b) hbs ∙ last)
  where
    last : to_be_bytes (suc n) (add_byte acc b) ++ bs ≡ to_be_bytes n acc ++ (b ∷ bs)
    last = rw (quotient acc b hb, remainder acc b hb) (append_assoc (to_be_bytes n acc) (b ∷ []) bs)

pub to_be_bytes-from_be_bytes :
    (bs : List ℕ) → All IsByte bs → to_be_bytes (length bs) (from_be_bytes bs) ≡ bs
unfolding from_be_bytes to_be_bytes
to_be_bytes-from_be_bytes bs h = rw (← add.zero (length bs)) (to_be_bytes-foldl bs 0 0 h)

foldl-add_byte-lt :
    (bs : List ℕ) (n acc : ℕ)
    → All IsByte bs
    → acc < 256 ^ n
    → foldl add_byte acc bs < 256 ^ (n + length bs)
foldl-add_byte-lt [] n acc h k = rw add-zero k
foldl-add_byte-lt (b ∷ bs) n acc (hb, hbs) k =
    rw (← suc-add-eq n (length bs))
      (foldl-add_byte-lt bs (suc n) (add_byte acc b) hbs (omega (arith, pow-suc 256 n)))

pub from_be_bytes-lt : (bs : List ℕ) → All IsByte bs → from_be_bytes bs < 256 ^ length bs
unfolding from_be_bytes
from_be_bytes-lt bs h = rw (← add.zero (length bs)) (foldl-add_byte-lt bs 0 0 h (omega arith))

pub All-take {ℓ κ} :
    {A : Type ℓ} (P : A → Type κ) (n : ℕ) (xs : List A) → All P xs → All P (take n xs)
All-take P zero xs h = tt
All-take P (suc n) [] h = tt
All-take P (suc n) (x ∷ xs) h = (h.0, All-take P n xs h.1)

pub All-drop {ℓ κ} :
    {A : Type ℓ} (P : A → Type κ) (n : ℕ) (xs : List A) → All P xs → All P (drop n xs)
All-drop P zero xs h = h
All-drop P (suc n) [] h = tt
All-drop P (suc n) (x ∷ xs) h = All-drop P n xs h.1

-- The first `n` bytes as an integer.
pub read_word :
    (n : ℕ) (input : List ℕ)
    → All IsByte input
    → n ≤ length input
    → (to_be_bytes n (from_be_bytes (take n input)) ≡ take n input)
      × (from_be_bytes (take n input) < 256 ^ n)
read_word n input h k =
    let e : length (take n input) ≡ n = omega (arith, length-take n input) in
    let bytes = All-take IsByte n input h in
    (
      rw e at (to_be_bytes-from_be_bytes (take n input) bytes),
      rw e at (from_be_bytes-lt (take n input) bytes),
    )
