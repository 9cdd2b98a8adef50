-- ===== src/RealtimeIngest/Json.antt =====
-- The values of a decoded message: JSON, with Python's `Decimal` beside `float` and `int`. The two
-- non-integer number types are parameters.
use idea2strategy_data_pipel.Prelude.{String, Bool, true, false, Option, none, some, if◌then◌else◌}
use idea2strategy_data_pipel.Prelude.Int.{ℤ}
use idea2strategy_data_pipel.Prelude.Eq.{string_eq, ◌==◌}

mutual
  pub data Json (F D : Type 0) : Type 0 where
    null : Json F D
    boolean : Bool → Json F D
    int : ℤ → Json F D
    float : F → Json F D
    decimal : D → Json F D
    text : String → Json F D
    array : Items F D → Json F D
    object : Fields F D → Json F D

  pub data Items (F D : Type 0) : Type 0 where
    nil : Items F D
    cons : Json F D → Items F D → Items F D

  pub data Fields (F D : Type 0) : Type 0 where
    end : Fields F D
    field : String → Json F D → Fields F D → Fields F D

module _ {F D : Type 0} where
  -- `document.get(key)`, with `none` for a key that is not there.
  abbrev pub get : String → Fields F D → Option (Json F D)
  get key end = none
  get key (field k v rest) = if k == key then some v else get key rest

  abbrev pub has_fields : Fields F D → Bool
  has_fields end = false
  has_fields (field _ _ _) = true
