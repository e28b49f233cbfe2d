-- ===== src/Cbor/Item.antt =====
-- The data of cbor/src/decode/head.rs and the errors of cbor/src/decode/mod.rs.
use hardy.Prelude.{ℕ, Bool, not, Option, none, some, List, [], ◌∷◌}
use hardy.Prelude.{◌≡◌, refl}
use Prim.Native.String.{String}

-- `Marker`: the major type and what the marker itself carries. `F` stands for `f64`.
pub data Marker (F : Type 0) : Type 0 where
  unsigned_integer : ℕ → Marker F
  negative_integer : ℕ → Marker F
  bytes : Option ℕ → Marker F
  text : Option ℕ → Marker F
  array : Option ℕ → Marker F
  map : Option ℕ → Marker F
  false : Marker F
  true : Marker F
  null : Marker F
  undefined : Marker F
  simple : ℕ → Marker F
  float : F → Marker F

pub record Head (F : Type 0) : Type 0 where
  pub tags : List ℕ
  pub marker : Marker F

pub data ItemKind : Type 0 where
  unsigned_integer negative_integer : ItemKind
  definite_bytes indefinite_bytes definite_text indefinite_text : ItemKind
  definite_array indefinite_array definite_map indefinite_map : ItemKind
  false true null undefined : ItemKind
  simple : ℕ → ItemKind
  float : ItemKind

pub record ItemType : Type 0 where
  pub tagged : Bool
  pub kind : ItemKind

-- `From<&Marker> for ItemKind`
unfoldable pub item_kind : {F : Type 0} → Marker F → ItemKind
item_kind (Marker.unsigned_integer _) = ItemKind.unsigned_integer
item_kind (Marker.negative_integer _) = ItemKind.negative_integer
item_kind (Marker.bytes (some _)) = ItemKind.definite_bytes
item_kind (Marker.bytes none) = ItemKind.indefinite_bytes
item_kind (Marker.text (some _)) = ItemKind.definite_text
item_kind (Marker.text none) = ItemKind.indefinite_text
item_kind (Marker.array (some _)) = ItemKind.definite_array
item_kind (Marker.array none) = ItemKind.indefinite_array
item_kind (Marker.map (some _)) = ItemKind.definite_map
item_kind (Marker.map none) = ItemKind.indefinite_map
item_kind Marker.false = ItemKind.false
item_kind Marker.true = ItemKind.true
item_kind Marker.null = ItemKind.null
item_kind Marker.undefined = ItemKind.undefined
item_kind (Marker.simple v) = ItemKind.simple v
item_kind (Marker.float _) = ItemKind.float

-- `<[T]>::is_empty`
abbrev pub is_empty {ℓ} : {A : Type ℓ} → List A → Bool
is_empty [] = Bool.true
is_empty (x ∷ xs) = Bool.false

-- `From<&Head> for ItemType`, `Head::item_type`
unfoldable pub item_type : {F : Type 0} → Head F → ItemType
unfolding item_kind
item_type h = record { tagged = not (is_empty h.tags); kind = item_kind h.marker }

-- `Error`
pub data Error : Type 0 where
  too_big : Error
  need_more_data : ℕ → Error
  additional_items no_more_items : Error
  invalid_minor_value : ℕ → Error
  incorrect_type : String → ItemType → Error
  unexpected_tag invalid_chunk : Error
  invalid_simple_type : ℕ → Error
  partial_map max_recursion invalid_utf8 try_from_int_error precision_loss : Error

-- `Result<T, Error>`. `panic` is a call of `unreachable!`; `stuck` is no value of the program: the
-- fuel of a loop ran out.
pub data Result {ℓ} (T : Type ℓ) : Type ℓ where
  stuck panic : Result T
  err : Error → Result T
  ok : T → Result T

infixl 5 ◌>>=◌
-- The operator `?`.
abbrev pub ◌>>=◌ {ℓ κ} : {T : Type ℓ} {U : Type κ} → Result T → (T → Result U) → Result U
stuck >>= k = stuck
panic >>= k = panic
err e >>= k = err e
ok t >>= k = k t

-- Where a chain succeeds, its first step does.
pub >>=-eq_ok {ℓ κ} :
    {T : Type ℓ} {U : Type κ} (r : Result T) (k : T → Result U) {u : U}
    → (r >>= k) ≡ ok u
    → (t : T) × (r ≡ ok t) × (k t ≡ ok u)
>>=-eq_ok stuck k h = cc
>>=-eq_ok panic k h = cc
>>=-eq_ok (err e) k h = cc
>>=-eq_ok (ok t) k h = (t, refl, h)
