-- ===== src/Mcp/Schemas.antt =====
-- internal/mcp/server.go: the schema of a tool's arguments, as the library of MCP has it. What the
-- properties of a schema are does not depend on their order, which Go leaves open.
pub mod Kept
use cadenza.Prelude.{String, List, [], ◌∷◌, str_eq, if◌then◌else◌}

-- The type, the description, the properties that are required, the properties, the schema of the
-- items, and whatever else the library keeps in a schema, by name and as JSON: the default, the
-- values of an enumeration, references, definitions, and what further properties are permitted.
mutual
  pub data Schema : Type 0 where
    schema : String → String → List String → Properties → Items → List (String × String) → Schema

  pub data Properties : Type 0 where
    no_properties : Properties
    property : String → Schema → Properties → Properties

  pub data Items : Type 0 where
    no_items : Items
    items_of : Schema → Items

pub data OpenType : Type 0 where
  object_type string_type array_type number_type integer_type boolean_type : OpenType

mutual
  pub data OpenSchema : Type 0 where
    open_schema : List OpenType → String → List String → OpenProperties → OpenItems → OpenSchema

  pub data OpenProperties : Type 0 where
    no_open_properties : OpenProperties
    open_property : String → OpenSchema → OpenProperties → OpenProperties

  pub data OpenItems : Type 0 where
    no_open_items : OpenItems
    open_items_of : OpenSchema → OpenItems

-- The types of a schema; an unknown name gives none.
unfoldable pub types_of : String → List OpenType
types_of s =
    if str_eq s "object"
    then object_type ∷ []
    else if str_eq s "string"
    then string_type ∷ []
    else if str_eq s "array"
    then array_type ∷ []
    else if str_eq s "number"
    then number_type ∷ []
    else if str_eq s "integer"
    then integer_type ∷ []
    else if str_eq s "boolean"
    then boolean_type ∷ []
    else []

unfoldable mutual
  unfolding types_of

  pub convert_schema : Schema → OpenSchema
  convert_schema (schema type description required props items others) =
      let converted_props = convert_properties props in
      let converted_items = convert_items items in
      open_schema (types_of type) description required
        (if str_eq type "object" then converted_props else no_open_properties)
        (if str_eq type "array" then converted_items else no_open_items)

  pub convert_properties : Properties → OpenProperties
  convert_properties no_properties = no_open_properties
  convert_properties (property name p rest) =
      open_property name (convert_schema p) (convert_properties rest)

  pub convert_items : Items → OpenItems
  convert_items no_items = no_open_items
  convert_items (items_of s) = open_items_of (convert_schema s)
