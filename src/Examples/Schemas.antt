-- ===== src/Examples/Schemas.antt =====
-- internal/mcp/server.go: the schema of the tool that rejects a task.
use cadenza.Prelude.{◌≡◌, refl, String, [], ◌∷◌}
use cadenza.Mcp.Schemas.{
  Schema, schema, no_properties, property, no_items, types_of, convert_schema,
}
use cadenza.Mcp.Schemas.Kept.{
  IsKnown, AreKnown, AreKnownItems, plain_schema, read_schema, read_schema-convert_schema,
}

abbrev words : String → Schema
words description =
    schema "string" description [] no_properties no_items (("default", "\"t1\"") ∷ [])

abbrev rejection : Schema
rejection =
    schema "object" "reject a task" ("task_id" ∷ [])
      (property "task_id" (words "the task") (property "reason" (words "why") no_properties))
      no_items (("additionalProperties", "false") ∷ [])

words-IsKnown : (description : String) → IsKnown (words description)
unfolding IsKnown AreKnown AreKnownItems types_of
words-IsKnown description = (refl, λ _. refl, λ _. refl, tt, tt)

rejection-IsKnown : IsKnown rejection
unfolding IsKnown AreKnown AreKnownItems types_of
rejection-IsKnown =
    (refl, λ h. cc, λ _. refl, (words-IsKnown "the task", (words-IsKnown "why", tt)), tt)

read_schema-convert_schema_example : read_schema (convert_schema rejection) ≡ plain_schema rejection
read_schema-convert_schema_example = read_schema-convert_schema rejection rejection-IsKnown
