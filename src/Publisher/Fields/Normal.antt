-- ===== src/Publisher/Fields/Normal.antt =====
-- Which header tables validateHeaders accepts and what it leaves in them, message.go.
use warren.Prelude.{
  bytes_Eq, ℕ, suc, ◌≡◌, refl, ◌⊎◌, inl, inr, Bool, true, false, ◌&&◌, Option, none, arith, leb,
  nat_Eq, string_Eq,
}
use warren.Errors.{Err}
use warren.Publisher.Fields.{
  Value, Fields, Items, int_value, int32_value, int64_value, uint_value, uint64_value, other,
  unsupported, table, array, no_fields, field, no_items, item, max_header_depth, invalid,
  validate_value, validate_fields, validate_items, validate_depth, validate_headers,
}

-- A table fits a depth: no value of it has an unsupported type and the tables nest no deeper.
unfoldable mutual
  pub fits : Value → ℕ → Bool
  fits (int_value n) depth = true
  fits (uint_value n) depth = true
  fits (int32_value n) depth = true
  fits (int64_value n) depth = true
  fits (uint64_value n) depth = true
  fits (other n) depth = true
  fits (unsupported n) depth = false
  fits (table h) depth = leb (suc depth) max_header_depth && fields_fit h (suc depth)
  fits (array l) depth = items_fit l depth

  pub fields_fit : Fields → ℕ → Bool
  fields_fit no_fields depth = true
  fields_fit (field k v h) depth = fits v depth && fields_fit h depth

  pub items_fit : Items → ℕ → Bool
  items_fit no_items depth = true
  items_fit (item v l) depth = fits v depth && items_fit l depth

-- The table with int64 for int and uint64 for uint, everywhere.
unfoldable mutual
  pub coerced : Value → Value
  coerced (int_value n) = int64_value n
  coerced (uint_value n) = uint64_value n
  coerced (int32_value n) = int32_value n
  coerced (int64_value n) = int64_value n
  coerced (uint64_value n) = uint64_value n
  coerced (other n) = other n
  coerced (unsupported n) = unsupported n
  coerced (table h) = table (fields_coerced h)
  coerced (array l) = array (items_coerced l)

  pub fields_coerced : Fields → Fields
  fields_coerced no_fields = no_fields
  fields_coerced (field k v h) = field k (coerced v) (fields_coerced h)

  pub items_coerced : Items → Items
  items_coerced no_items = no_items
  items_coerced (item v l) = item (coerced v) (items_coerced l)

abbrev Verdict : {A : Type 0} → Bool → A → A × Option Err → Type 0
Verdict {A} b a r = ((b ≡ true) × (r ≡ (a, none))) ⊎ ((b ≡ false) × (r.1 ≡ invalid))

mutual
  unfolding fits coerced validate_value fields_fit fields_coerced validate_fields items_fit
      items_coerced validate_items

  validate_value-Verdict :
      (v : Value) (depth : ℕ) → Verdict (fits v depth) (coerced v) (validate_value v depth)
  validate_value-Verdict (int_value n) depth = inl (refl, refl)
  validate_value-Verdict (uint_value n) depth = inl (refl, refl)
  validate_value-Verdict (int32_value n) depth = inl (refl, refl)
  validate_value-Verdict (int64_value n) depth = inl (refl, refl)
  validate_value-Verdict (uint64_value n) depth = inl (refl, refl)
  validate_value-Verdict (other n) depth = inl (refl, refl)
  validate_value-Verdict (unsupported n) depth = inr (refl, refl)
  validate_value-Verdict (table h) depth = ground (arith, validate_fields-Verdict h (suc depth))
  validate_value-Verdict (array l) depth = ground (arith, validate_items-Verdict l depth)

  validate_fields-Verdict :
      (h : Fields) (depth : ℕ)
      → Verdict (fields_fit h depth) (fields_coerced h) (validate_fields h depth)
  validate_fields-Verdict no_fields depth = inl (refl, refl)
  validate_fields-Verdict (field k v h) depth =
      ground (arith, validate_value-Verdict v depth, validate_fields-Verdict h depth)

  validate_items-Verdict :
      (l : Items) (depth : ℕ)
      → Verdict (items_fit l depth) (items_coerced l) (validate_items l depth)
  validate_items-Verdict no_items depth = inl (refl, refl)
  validate_items-Verdict (item v l) depth =
      ground (arith, validate_value-Verdict v depth, validate_items-Verdict l depth)

-- validateHeaders accepts a table exactly when every value of it, at any level, has a supported type
-- and no table nests deeper than ten; it then leaves int64 for every int and uint64 for every uint,
-- at every level. Any other table is refused with ErrInvalidMessage.
pub validate_headers_lem :
    (h : Fields)
    → ((fields_fit h 0 ≡ true) × (validate_headers h ≡ (fields_coerced h, none)))
      ⊎ ((fields_fit h 0 ≡ false) × ((validate_headers h).1 ≡ invalid))
unfolding validate_headers validate_depth
validate_headers_lem h = validate_fields-Verdict h 0

mutual
  unfolding fits coerced fields_fit fields_coerced items_fit items_coerced

  coerced-fit : (v : Value) (depth : ℕ) → fits (coerced v) depth ≡ fits v depth
  coerced-fit (int_value n) depth = refl
  coerced-fit (uint_value n) depth = refl
  coerced-fit (int32_value n) depth = refl
  coerced-fit (int64_value n) depth = refl
  coerced-fit (uint64_value n) depth = refl
  coerced-fit (other n) depth = refl
  coerced-fit (unsupported n) depth = refl
  coerced-fit (table h) depth = ground (arith, fields_coerced-fit h (suc depth))
  coerced-fit (array l) depth = items_coerced-fit l depth

  pub fields_coerced-fit :
      (h : Fields) (depth : ℕ) → fields_fit (fields_coerced h) depth ≡ fields_fit h depth
  fields_coerced-fit no_fields depth = refl
  fields_coerced-fit (field k v h) depth =
      ground (arith, coerced-fit v depth, fields_coerced-fit h depth)

  items_coerced-fit :
      (l : Items) (depth : ℕ) → items_fit (items_coerced l) depth ≡ items_fit l depth
  items_coerced-fit no_items depth = refl
  items_coerced-fit (item v l) depth =
      ground (arith, coerced-fit v depth, items_coerced-fit l depth)
