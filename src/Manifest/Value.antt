-- ===== src/Manifest/Value.antt =====
-- src/protocol/hashtree.ts: the values that MessagePack decodes to, and what the source asks of them.
use nixstr_cache.Prelude.{
  ℕ, ◌+◌, Bool, true, false, ◌&&◌, Option, none, some, List, [], ◌∷◌, if◌then◌else◌, length, Text,
  text_eq,
}

mutual
  -- `num` is a natural number, `real` another finite one, `nan` one that is not finite, `ext` an
  -- extension value (a `Date` has no fields of its own), and `other` what JSON cannot hold.
  pub data Raw : Type 0 where
    null real nan other : Raw
    bool : Bool → Raw
    num : ℕ → Raw
    str : Text → Raw
    bin : List ℕ → Raw
    arr : Items → Raw
    object ext : Fields → Raw

  pub data Items : Type 0 where
    nil : Items
    cons : Raw → Items → Items

  pub data Fields : Type 0 where
    end : Fields
    field : Text → Raw → Fields → Fields

-- `encode` and `decode` of MessagePack, and `TextEncoder.encode`; a `none` is an error.
pub record Codec : Type 0 where
  pub utf8 : Text → List ℕ
  pub encode : Raw → List ℕ
  pub decode : List ℕ → Option Raw

abbrev pub max_cost : ℕ
max_cost = 9007199254740991

-- `decodedCost`.
module _ (utf8 : Text → List ℕ) where
  unfoldable mutual
    pub cost : Raw → ℕ
    cost null = 1
    cost real = 8
    cost nan = 8
    cost other = max_cost
    cost (bool b) = 8
    cost (num n) = 8
    cost (str s) = length (utf8 s)
    cost (bin b) = length b
    cost (arr xs) = cost_items xs
    cost (object fs) = cost_fields fs
    cost (ext fs) = cost_fields fs

    pub cost_items : Items → ℕ
    cost_items nil = 0
    cost_items (cons x xs) = cost x + cost_items xs

    pub cost_fields : Fields → ℕ
    cost_fields end = 0
    cost_fields (field k v fs) = length (utf8 k) + cost v + cost_fields fs

-- What `visit` of `jsonMetadata` accepts.
unfoldable mutual
  pub is_json : Raw → Bool
  is_json null = true
  is_json real = true
  is_json nan = false
  is_json other = false
  is_json (bool b) = true
  is_json (num n) = true
  is_json (str s) = true
  is_json (bin b) = false
  is_json (arr xs) = json_items xs
  is_json (object fs) = json_fields fs
  is_json (ext fs) = json_fields fs

  pub json_items : Items → Bool
  json_items nil = true
  json_items (cons x xs) = is_json x && json_items xs

  pub json_fields : Fields → Bool
  json_fields end = true
  json_fields (field k v fs) = is_json v && json_fields fs

abbrev pub keys_of : Fields → List Text
keys_of end = []
keys_of (field k v fs) = k ∷ keys_of fs

unfoldable pub find_field : Text → Fields → Option Raw
find_field key end = none
find_field key (field k v fs) = if text_eq k key then some v else find_field key fs

unfoldable pub item_list : Items → List Raw
item_list nil = []
item_list (cons x xs) = x ∷ item_list xs
