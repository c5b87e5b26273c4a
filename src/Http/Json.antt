-- ===== src/Http/Json.antt =====
-- JSON values, and the part of JSON schemas that the documentation of the API uses.
use nest_fastify_boilerplate.Prelude.{ℕ, String, Bool, true, false, ◌==◌, ◌&&◌, if◌then◌else◌}

mutual
  pub data Json : Type 0 where
    string : String → Json
    number : ℕ → Json
    boolean : Bool → Json
    array : Items → Json
    object : Members → Json

  pub data Items : Type 0 where
    no_items : Items
    item : Json → Items → Items

  pub data Members : Type 0 where
    no_members : Members
    member : String → Json → Members → Members

-- `literal` is a Boolean that is given; `ref` is the schema of a model, by the values that it takes.
mutual
  pub data Schema : Type 0 where
    string_type number_type boolean_type : Schema
    literal : Bool → Schema
    ref : (Json → Bool) → Schema
    array_of : Schema → Schema
    object_of : Properties → Schema

  pub data Properties : Type 0 where
    no_properties : Properties
    property optional : String → Schema → Properties → Properties

abbrev same : Bool → Bool → Bool
same true b = b
same false true = false
same false false = true

abbrev pub all_items : (Json → Bool) → Items → Bool
all_items p no_items = true
all_items p (item v vs) = p v && all_items p vs

unfoldable mutual
  -- The value is of that schema, and an object has the properties of its schema and no others, in
  -- their order.
  pub conforms : Schema → Json → Bool
  conforms string_type (string s) = true
  conforms number_type (number n) = true
  conforms boolean_type (boolean b) = true
  conforms (literal b) (boolean c) = same b c
  conforms (ref p) v = p v
  conforms (array_of s) (array vs) = all_items (conforms s) vs
  conforms (object_of ps) (object ms) = conform ps ms
  conforms _ _ = false

  pub conform : Properties → Members → Bool
  conform no_properties no_members = true
  conform (property k s ps) (member j v ms) = (j == k) && conforms s v && conform ps ms
  conform (optional k s ps) no_members = conform ps no_members
  conform (optional k s ps) (member j v ms) =
      if j == k then conforms s v && conform ps ms else conform ps (member j v ms)
  conform _ _ = false
