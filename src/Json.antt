-- ===== src/Json.antt =====
-- The values that the configuration harnesses build: what `json.dumps` writes. A dictionary is the
-- list of its members in insertion order; a float is given by the text that it is written as.
use mapfuzz.Base.{Text, text_eq, Bool, Option, none, some, ℤ, if◌then◌else◌}

mutual
  pub data Json : Type 0 where
    null : Json
    boolean : Bool → Json
    integer : ℤ → Json
    float : Text → Json
    string : Text → Json
    array : Items → Json
    object : Members → Json

  pub data Items : Type 0 where
    no_items : Items
    item : Json → Items → Items

  pub data Members : Type 0 where
    no_members : Members
    member : Text → Json → Members → Members

-- `d[k] = v`
unfoldable pub set_member : Text → Json → Members → Members
set_member k v no_members = member k v no_members
set_member k v (member l w ms) =
    if text_eq l k then member l v ms else member l w (set_member k v ms)

-- `d.get(k)`, with none for a missing key
unfoldable pub get_member : Text → Members → Option Json
get_member k no_members = none
get_member k (member l w ms) = if text_eq l k then some w else get_member k ms
