-- ===== src/Contracts/Json.antt =====
-- src/auto_code/hashing.py: JSON values, and the hash of one.
use auto_code.Common.{
  ℕ, String, Bool, Option, none, some, List, [], ◌∷◌, ◌==◌, if◌then◌else◌, text_Eq,
}

mutual
  pub data Json : Type 0 where
    null : Json
    bool : Bool → Json
    num : ℕ → Json
    -- any other number, by its text
    other_num : String → Json
    str : String → Json
    arr : Items → Json
    obj : Fields → Json

  pub data Items : Type 0 where
    end : Items
    item : Json → Items → Items

  pub data Fields : Type 0 where
    no_more : Fields
    field : String → Json → Fields → Fields

-- `mapping.get(key)`
unfoldable pub get : Fields → String → Option Json
get no_more key = none
get (field k v rest) key = if k == key then some v else get rest key

-- What `hash_json` takes from the standard library: `json.dumps` with its options, and SHA-256.
pub record Hasher : Type 0 where
  pub canonical_json_bytes : Json → String
  pub sha256_hexdigest : String → String

unfoldable pub hash_json : Hasher → Json → String
hash_json h value = h.sha256_hexdigest (h.canonical_json_bytes value)

unfoldable pub text_or_null : Option String → Json
text_or_null none = null
text_or_null (some s) = str s

-- A list of values as a JSON array.
unfoldable pub array : List Json → Items
array [] = end
array (j ∷ rest) = item j (array rest)
