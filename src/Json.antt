-- ===== src/Json.antt =====
-- JSON values, as the outbox payloads and the WooCommerce bodies hold them.
use fembin.Base.{
  Text, text_eq, text_eq_iff, Bool, ◌≡◌, refl, Option, none, some, arith, if◌then◌else◌,
}
use fembin.Base.Int.{ℤ}

mutual
  pub data Json : Type 0 where
    null : Json
    bool : Bool → Json
    num : ℤ → Json
    str : Text → Json
    arr : Items → Json
    obj : Fields → Json

  pub data Items : Type 0 where
    nil : Items
    cons : Json → Items → Items

  pub data Fields : Type 0 where
    end : Fields
    field : Text → Json → Fields → Fields

-- d.get(k) on the fields of an object
unfoldable pub get_field : Text → Fields → Option Json
get_field k end = none
get_field k (field j v d) = if text_eq j k then some v else get_field k d

-- d[k] = v
unfoldable pub set_field : Text → Json → Fields → Fields
set_field k v end = field k v end
set_field k v (field j w d) = if text_eq j k then field j v d else field j w (set_field k v d)

pub get_field-set_field :
    (k j : Text) (v : Json) (d : Fields)
    → get_field j (set_field k v d) ≡ (if text_eq k j then some v else get_field j d)
unfolding get_field set_field
get_field-set_field k j v end = refl
get_field-set_field k j v (field i w d) =
    ground (arith, text_eq_iff k j, text_eq_iff i k, text_eq_iff i j, get_field-set_field k j v d)

-- `payload.get(k)` where the payload is a dict; any other value has no such key
unfoldable pub get : Text → Json → Option Json
get k (obj d) = get_field k d
get k _ = none
