-- ===== src/Core/Json.antt =====
-- The JSON values of events and schemas, as Python holds them. A `float` is a whole number of a
-- fixed fraction; an object keeps its entries in order.
use murmur_ai_harness.Prelude.{String, Bool, Option, none, some, ◌==◌, if◌then◌else◌, ℤ}

mutual
  pub data Json : Type 0 where
    null : Json
    boolean : Bool → Json
    integer : ℤ → Json
    float : ℤ → Json
    string : String → Json
    array : Items → Json
    object : Entries → Json

  pub data Items : Type 0 where
    end : Items
    item : Json → Items → Items

  pub data Entries : Type 0 where
    none_left : Entries
    entry : String → Json → Entries → Entries

-- value.get(key)
unfoldable pub find_entry : String → Entries → Option Json
find_entry key none_left = none
find_entry key (entry k v rest) = if k == key then some v else find_entry key rest
