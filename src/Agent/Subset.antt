-- ===== src/Agent/Subset.antt =====
-- internal/agent/subset.go. A parsed configuration is a value; `plain` is a scalar that is no text,
-- by what `fmt.Sprint` prints for it. The parser, what `fmt.Sprint` prints for a list or a map, and
-- `strings.EqualFold` are parameters.
pub mod Defaults
use cadenza.Prelude.{
  String, Bool, true, false, ◌&&◌, ◌||◌, Option, none, some, str_eq, if◌then◌else◌,
}

mutual
  pub data Value : Type 0 where
    text : String → Value
    plain : String → Value
    sequence : Items → Value
    mapping : Fields → Value

  pub data Items : Type 0 where
    no_items : Items
    item : Value → Items → Items

  pub data Fields : Type 0 where
    no_fields : Fields
    field : String → Value → Fields → Fields

unfoldable pub field_of : String → Fields → Option Value
field_of k no_fields = none
field_of k (field j v rest) = if str_eq j k then some v else field_of k rest

pub any_item : (Value → Bool) → Items → Bool
any_item p no_items = false
any_item p (item v rest) = p v || any_item p rest

abbrev pub holds : (Value → Bool) → Option Value → Bool
holds p none = false
holds p (some v) = p v

abbrev pub is_text : Value → Bool
is_text (text s) = true
is_text _ = false

abbrev pub is_redacted : Value → Bool
is_redacted (text s) = str_eq s "[REDACTED]"
is_redacted _ = false

module _ (print : Value → String) (equal_fold : String → String → Bool) where
  abbrev pub printed : Value → String
  printed (text s) = s
  printed (plain s) = s
  printed v = print v

  abbrev pub folds : Value → Value → Bool
  folds (text s) (text t) = equal_fold s t
  folds _ _ = false

  unfoldable pub scalar_equal : Value → Value → Bool
  scalar_equal p e =
      is_text p && is_redacted e
      || is_text e && is_redacted p
      || str_eq (printed p) (printed e)
      || folds p e

  unfoldable mutual
    unfolding scalar_equal any_item field_of

    pub yaml_subset : Value → Value → Bool
    yaml_subset (mapping ps) (mapping es) = fields_subset ps es
    yaml_subset (mapping ps) e = false
    yaml_subset (sequence ps) (sequence es) = items_in_order ps es || items_among ps es
    yaml_subset (sequence ps) e = false
    yaml_subset (text s) e = scalar_equal (text s) e
    yaml_subset (plain s) e = scalar_equal (plain s) e

    pub fields_subset : Fields → Fields → Bool
    fields_subset no_fields es = true
    fields_subset (field k v rest) es =
        holds (yaml_subset v) (field_of k es) && fields_subset rest es

    -- Lists of one length, compared in order.
    pub items_in_order : Items → Items → Bool
    items_in_order no_items no_items = true
    items_in_order no_items (item e es) = false
    items_in_order (item p ps) no_items = false
    items_in_order (item p ps) (item e es) = yaml_subset p e && items_in_order ps es

    pub items_among : Items → Items → Bool
    items_among no_items es = true
    items_among (item p ps) es = any_item (yaml_subset p) es && items_among ps es

  abbrev pub both_subset : Option Value → Option Value → Bool
  both_subset (some p) (some e) = yaml_subset p e
  both_subset _ _ = false

  unfoldable pub config_subset : (String → Option Value) → String → String → Bool
  config_subset parse pushed effective = both_subset (parse pushed) (parse effective)
