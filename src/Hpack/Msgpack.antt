-- ===== src/Hpack/Msgpack.antt =====
-- hpack::msgpack_traits: include/cocaine/hpack/msgpack_traits.hpp, over the objects of the msgpack
-- library. A packer's calls are modelled by the object that they build.
pub mod Laws
use cocaine_core.Base.{
  refl, inr, inl, ◌⊎◌, ◌≡◌, ℕ, Bool, true, false, ◌&&◌, ◌||◌, List, [], ◌∷◌, ◌++◌, nat_beq, leb,
  if◌then◌else◌,
}
use cocaine_core.Hpack.Header.{Bytes, Header}
use cocaine_core.Hpack.Table.{HeaderTable, Access, found, out_of_range, size, at, push}

-- msgpack::object. A number other than a positive integer is kept as its bits, the keys and values
-- of a map alternate.
mutual
  pub data Object : Type 0 where
    nil : Object
    boolean : Bool → Object
    positive_integer negative_integer double : ℕ → Object
    raw : Bytes → Object
    array map_of : Objects → Object

  pub data Objects : Type 0 where
    end : Objects
    item : Object → Objects → Objects

-- pack_uncompressed
unfoldable pub pack_uncompressed : Header → Object
pack_uncompressed h = array (item (boolean false) (item (raw h.name) (item (raw h.value) end)))

-- A value, a C++ exception, or behaviour that the language leaves undefined.
pub data Outcome {ℓ} (A : Type ℓ) : Type ℓ where
  returned : A → Outcome A
  thrown : Outcome A
  undefined : Outcome A

infixl 5 ◌>>=◌
abbrev pub ◌>>=◌ {ℓ κ} : {A : Type ℓ} {B : Type κ} → Outcome A → (A → Outcome B) → Outcome B
returned a >>= f = f a
thrown >>= f = thrown
undefined >>= f = undefined

pub Outcome-cases {ℓ} :
    {A : Type ℓ} (r : Outcome A) → ((a : A) × (r ≡ returned a)) ⊎ ((r ≡ thrown) ⊎ (r ≡ undefined))
Outcome-cases (returned a) = inl (a, refl)
Outcome-cases thrown = inr (inl refl)
Outcome-cases undefined = inr (inr refl)

-- `table[idx]`
unfoldable pub entry : HeaderTable → ℕ → Outcome Header
entry table idx = elim (at table idx) [
  | found h ↦ returned h
  | out_of_range ↦ thrown
  | Access.undefined ↦ undefined
]

-- The name: an index into the table, or the bytes. Other objects have no bytes to read.
unfoldable pub name_of : HeaderTable → Object → Outcome Bytes
name_of table (positive_integer idx) = do h ← entry table idx; returned h.name
name_of table (raw bytes) = returned bytes
name_of table _ = undefined

-- The end of `unpack`: the header, stored if the flag is set.
unfoldable pub store : HeaderTable → Bool → Header → Header × HeaderTable
store table flag h = if flag then (h, push table h) else (h, table)

-- unpack
unfoldable pub unpack : Object → HeaderTable → Outcome (Header × HeaderTable)
unpack (positive_integer idx) table =
    if leb (size table) idx || nat_beq idx 0
    then thrown
    else do h ← entry table idx; returned (h, table)
unpack (array (item (boolean flag) (item name (item (raw value) end)))) table = do
  n ← name_of table name
  returned (store table flag (record { name = n; value = value }))
unpack _ table = undefined

-- The second field of a triple: a reference to the table or raw data.
unfoldable pub is_name : Object → Bool
is_name (positive_integer idx) = true
is_name (raw bytes) = true
is_name _ = false

-- The check of `unpack_vector` on one object.
unfoldable pub is_header : Object → Bool
is_header (positive_integer idx) = true
is_header (array (item (boolean flag) (item name (item (raw value) end)))) = is_name name
is_header _ = false

-- One object of `unpack_vector`: the exceptions of `unpack` end the loop with `false`.
unfoldable pub unpack_vector :
    Objects → HeaderTable → List Header → Outcome (Bool × HeaderTable × List Header)
unpack_vector end table target = returned (true, table, target)
unpack_vector (item obj rest) table target =
    if is_header obj
    then elim (unpack obj table) [
      | returned (h, t) ↦ unpack_vector rest t (target ++ h ∷ [])
      | thrown ↦ returned (false, table, target)
      | undefined ↦ undefined
    ]
    else returned (false, table, target)
