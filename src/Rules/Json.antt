-- ===== src/Rules/Json.antt =====
-- The values that `encoding/json` puts into an `any`, and their copies, pkg/rules/service.go.
-- A number is carried as the bits of its float64, which the code only passes on.
use yapi.Common.{ℕ, ◌≡◌, refl, ap, ap₂, Bool}
use yapi.Common.Text.{Text}

mutual
  pub data Json : Type 0 where
    null : Json
    bool : Bool → Json
    num : ℕ → Json
    str : Text → Json
    arr : Items → Json
    obj : Fields → Json

  pub data Items : Type 0 where
    nil : Items
    cons : Json → Items → Items

  pub data Fields : Type 0 where
    end : Fields
    field : Text → Json → Fields → Fields

-- `deepCopyAny`, with its loop over a slice and, for a nested object, `cloneMapAny`.
unfoldable mutual
  pub deep_copy_any : Json → Json
  deep_copy_any (obj fs) = obj (clone_fields fs)
  deep_copy_any (arr xs) = arr (copy_items xs)
  deep_copy_any null = null
  deep_copy_any (bool b) = bool b
  deep_copy_any (num n) = num n
  deep_copy_any (str s) = str s

  pub copy_items : Items → Items
  copy_items nil = nil
  copy_items (cons x xs) = cons (deep_copy_any x) (copy_items xs)

  pub clone_fields : Fields → Fields
  clone_fields end = end
  clone_fields (field k v fs) = field k (deep_copy_any v) (clone_fields fs)

mutual
  unfolding deep_copy_any

  copy_same : (v : Json) → deep_copy_any v ≡ v
  copy_same (obj fs) = ap obj (fields_same fs)
  copy_same (arr xs) = ap arr (items_same xs)
  copy_same null = refl
  copy_same (bool b) = refl
  copy_same (num n) = refl
  copy_same (str s) = refl

  items_same : (xs : Items) → copy_items xs ≡ xs
  items_same nil = refl
  items_same (cons x xs) = ap₂ cons (copy_same x) (items_same xs)

  fields_same : (fs : Fields) → clone_fields fs ≡ fs
  fields_same end = refl
  fields_same (field k v fs) = ap₂ (field k) (copy_same v) (fields_same fs)

-- A copy holds the same value, at every depth.
pub deep_copy_any-same : (v : Json) → deep_copy_any v ≡ v
deep_copy_any-same v = copy_same v
