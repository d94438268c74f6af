-- ===== src/Mcp/Schemas/Kept.antt =====
-- internal/mcp/server.go: what a client can read off a converted schema.
use cadenza.Prelude.{◌≡◌, refl, ap, Bool, String, true, false, List, [], ◌∷◌, str_eq, if◌then◌else◌}
use cadenza.Mcp.Schemas.{
  Schema, schema, Properties, no_properties, property, Items, no_items, items_of, OpenType,
  object_type, string_type, array_type, number_type, integer_type, boolean_type, OpenSchema,
  open_schema, OpenProperties, no_open_properties, open_property, OpenItems, no_open_items,
  open_items_of, types_of, convert_schema, convert_properties, convert_items,
}

abbrev name_of : List OpenType → String
name_of (object_type ∷ []) = "object"
name_of (string_type ∷ []) = "string"
name_of (array_type ∷ []) = "array"
name_of (number_type ∷ []) = "number"
name_of (integer_type ∷ []) = "integer"
name_of (boolean_type ∷ []) = "boolean"
name_of _ = ""

-- What a client reads off a schema.
unfoldable mutual
  pub read_schema : OpenSchema → Schema
  read_schema (open_schema types description required props items) =
      schema (name_of types) description required (read_properties props) (read_items items) []

  pub read_properties : OpenProperties → Properties
  read_properties no_open_properties = no_properties
  read_properties (open_property name p rest) = property name (read_schema p) (read_properties rest)

  pub read_items : OpenItems → Items
  read_items no_open_items = no_items
  read_items (open_items_of s) = items_of (read_schema s)

-- A schema of one of the six types, with properties only in an object and items only in an array,
-- as are the schemas in it.
unfoldable mutual
  pub AreKnown : Properties → Type 0
  AreKnown no_properties = Unit {0}
  AreKnown (property name p rest) = IsKnown p × AreKnown rest

  pub AreKnownItems : Items → Type 0
  AreKnownItems no_items = Unit {0}
  AreKnownItems (items_of s) = IsKnown s

  pub IsKnown : Schema → Type 0
  IsKnown (schema type description required props items others) =
      (name_of (types_of type) ≡ type)
      × ((str_eq type "object" ≡ false) → props ≡ no_properties)
      × ((str_eq type "array" ≡ false) → items ≡ no_items)
      × AreKnown props
      × AreKnownItems items

-- A schema without the rest of what the library keeps in it, at every depth.
unfoldable mutual
  pub plain_schema : Schema → Schema
  plain_schema (schema type description required props items others) =
      schema type description required (plain_properties props) (plain_items items) []

  pub plain_properties : Properties → Properties
  plain_properties no_properties = no_properties
  plain_properties (property name p rest) = property name (plain_schema p) (plain_properties rest)

  pub plain_items : Items → Items
  plain_items no_items = no_items
  plain_items (items_of s) = items_of (plain_schema s)

kept_properties :
    (b : Bool) (props : Properties)
    → (b ≡ false → props ≡ no_properties)
    → read_properties (convert_properties props) ≡ plain_properties props
    → read_properties (if b then convert_properties props else no_open_properties)
      ≡ plain_properties props
unfolding read_properties plain_properties
kept_properties true props none_else same = same
kept_properties false props none_else same = rw (none_else refl) refl

kept_items :
    (b : Bool) (items : Items)
    → (b ≡ false → items ≡ no_items)
    → read_items (convert_items items) ≡ plain_items items
    → read_items (if b then convert_items items else no_open_items) ≡ plain_items items
unfolding read_items plain_items
kept_items true items none_else same = same
kept_items false items none_else same = rw (none_else refl) refl

mutual
  unfolding read_schema read_properties read_items convert_schema convert_properties convert_items
      IsKnown AreKnown AreKnownItems plain_schema plain_properties plain_items

  same_schema : (s : Schema) → IsKnown s → read_schema (convert_schema s) ≡ plain_schema s
  same_schema (schema type description required props items others) (a, b, c, ps, is) =
      rw
        (
          a,
          kept_properties (str_eq type "object") props b (same_properties props ps),
          kept_items (str_eq type "array") items c (same_items items is),
        )
        refl

  same_properties :
      (ps : Properties)
      → AreKnown ps
      → read_properties (convert_properties ps) ≡ plain_properties ps
  same_properties no_properties known = refl
  same_properties (property name p rest) (one, more) =
      rw (same_schema p one, same_properties rest more) refl

  same_items : (is : Items) → AreKnownItems is → read_items (convert_items is) ≡ plain_items is
  same_items no_items known = refl
  same_items (items_of s) known = ap items_of (same_schema s known)

-- The conversion of a schema of one of the six types with properties only in an object and items
-- only in an array, if the schemas in it are such schemas too, keeps the type, the description, the
-- properties and which of them are required, and the items, at every depth, and drops the rest of
-- what the library keeps in a schema.
pub read_schema-convert_schema :
    (s : Schema) → IsKnown s → read_schema (convert_schema s) ≡ plain_schema s
read_schema-convert_schema s known = same_schema s known
