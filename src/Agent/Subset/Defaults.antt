-- ===== src/Agent/Subset/Defaults.antt =====
-- internal/agent/subset.go: defaults that an agent adds.
use cadenza.Prelude.{String, ◌≡◌, refl, Bool, true, str_eq, arith, Bool-cases, inl, inr}
use cadenza.Agent.Subset.{
  Value, mapping, Fields, no_fields, field, field_of, holds, yaml_subset, fields_subset,
}

pub with_fields : Fields → Fields → Fields
with_fields no_fields more = more
with_fields (field k v rest) more = field k v (with_fields rest more)

field_of-with_fields :
    (k : String) (es more : Fields) (p : Value → Bool)
    → holds p (field_of k es) ≡ true
    → holds p (field_of k (with_fields es more)) ≡ true
unfolding field_of with_fields
field_of-with_fields k no_fields more p h = ground arith
field_of-with_fields k (field j v rest) more p h = elim (Bool-cases (str_eq j k)) [
  | inl e ↦ rw e (rw e at h)
  | inr e ↦ rw e (field_of-with_fields k rest more p (rw e at h))
]

module _ (print : Value → String) (equal_fold : String → String → Bool) where
  fields_subset-with_fields :
      (ps es more : Fields)
      → fields_subset print equal_fold ps es ≡ true
      → fields_subset print equal_fold ps (with_fields es more) ≡ true
  unfolding fields_subset
  fields_subset-with_fields no_fields es more h = refl
  fields_subset-with_fields (field k v rest) es more h = ground (
    arith,
    field_of-with_fields k es more (yaml_subset print equal_fold v),
    fields_subset-with_fields rest es more,
  )

-- What an agent reports covers a pushed mapping also when the agent reports more fields, as it
-- does for the defaults of a collector.
pub yaml_subset-with_fields :
    (print : Value → String) (equal_fold : String → String → Bool) (ps es more : Fields)
    → yaml_subset print equal_fold (mapping ps) (mapping es) ≡ true
    → yaml_subset print equal_fold (mapping ps) (mapping (with_fields es more)) ≡ true
unfolding yaml_subset
yaml_subset-with_fields print equal_fold ps es more h =
    fields_subset-with_fields print equal_fold ps es more h
