-- ===== src/Tcpclv4/Codec/Octet.antt =====
-- Flags in an octet, as tcpclv4/src/codec.rs tests and sets them.
use hardy.Prelude.{
  ℕ, zero, suc, ◌<◌, ◌≡◌, Bool, true, false, not, ◌&&◌, ◌||◌, ◌==◌, ltb, arith, refl, if◌then◌else◌,
}
use Prim.Native.Nat.{bit_and, bit_or}

-- `value & mask != 0`
abbrev pub is_set : ℕ → ℕ → Bool
is_set value mask = not (bit_and value mask == 0)

-- `if set { flags |= mask; }`
abbrev pub or_if : Bool → ℕ → ℕ → ℕ
or_if set mask flags = if set then bit_or flags mask else flags

-- What holds of every octet is checked at each of them.
each_octet : (ℕ → Bool) → ℕ → Bool
each_octet test zero = true
each_octet test (suc octet) = if test octet then each_octet test octet else false

each_octet-holds :
    (test : ℕ → Bool) (octets octet : ℕ)
    → octet < octets
    → each_octet test octets ≡ true
    → test octet ≡ true
unfolding each_octet
each_octet-holds test zero octet below all = absurd (omega arith)
each_octet-holds test (suc octets) octet below all =
    ground (arith, each_octet-holds test octets octet)

-- An octet whose bits under the flags are clear.
abbrev pub IsReserved : ℕ → ℕ → Type 0
IsReserved flags r = (r < 256) × (bit_and r flags ≡ 0)

implies : Bool → Bool → Bool
implies a b = not a || b

-- `x` is an octet with `low` under the flag 1 and `r` under the mask of the reserved bits.
abbrev one_kept : ℕ → ℕ → ℕ → Bool
one_kept r low x = bit_and x 1 == low && (bit_and x 0xFE == r && ltb x 256)

one_table :
    each_octet (λ r. implies (bit_and r 1 == 0) (one_kept r 0 r && one_kept r 1 (bit_or r 1))) 256
    ≡ true
unfolding each_octet implies
one_table = refl

abbrev pub Kept : ℕ → ℕ → ℕ → Type 0
Kept r low x = (bit_and x 1 ≡ low) × (bit_and x 0xFE ≡ r) × (x < 256)

-- One flag beside the reserved bits
pub one_flag : (r : ℕ) → IsReserved 1 r → Kept r 0 r × Kept r 1 (bit_or r 1)
unfolding implies
one_flag r (h, e) = ground (arith, each_octet-holds _ 256 r h one_table)

abbrev two_kept : ℕ → ℕ → ℕ → ℕ → Bool
two_kept r low high x =
    bit_and x 1 == low && (bit_and x 2 == high && (bit_and x 0xFC == r && ltb x 256))

abbrev two_all : ℕ → Bool
two_all r =
    two_kept r 0 0 r
    && (two_kept r 1 0 (bit_or r 1)
        && (two_kept r 0 2 (bit_or r 2) && two_kept r 1 2 (bit_or (bit_or r 1) 2)))

two_table : each_octet (λ r. implies (bit_and r 3 == 0) (two_all r)) 256 ≡ true
unfolding each_octet implies
two_table = refl

abbrev pub KeptTwo : ℕ → ℕ → ℕ → ℕ → Type 0
KeptTwo r low high x = (bit_and x 1 ≡ low) × (bit_and x 2 ≡ high) × (bit_and x 0xFC ≡ r) × (x < 256)

-- Two flags beside the reserved bits
pub two_flags :
    (r : ℕ)
    → IsReserved 3 r
    → KeptTwo r 0 0 r
      × KeptTwo r 1 0 (bit_or r 1)
      × KeptTwo r 0 2 (bit_or r 2)
      × KeptTwo r 1 2 (bit_or (bit_or r 1) 2)
unfolding implies
two_flags r (h, e) = ground (arith, each_octet-holds _ 256 r h two_table)
