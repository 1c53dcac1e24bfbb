-- ===== src/Trace/Attributes.antt =====
-- `flattenAttributes` of apps/api/src/services/trace.service.ts.
use rootprint.Common.{Text, codes, text_eq, ◌++◌, if◌then◌else◌, is_empty}
use rootprint.Common.Dict
use rootprint.Common.Dict.{Dict}

-- A JSON value, by what `flattenAttributes` does with it: `null`, a scalar by its `String(value)`, an
-- array by its `JSON.stringify(value)`, or an object.
mutual
  pub data Value : Type 0 where
    null : Value
    scalar : (shown : Text) → Value
    array : (shown : Text) → Value
    object : Fields → Value

  pub data Fields : Type 0 where
    no_fields : Fields
    field : (key : Text) → Value → Fields → Fields

abbrev path_of : Text → Text → Text
path_of prefix key = if is_empty prefix then key else prefix ++ codes "." ++ key

unfoldable mutual
  unfolding Dict.set

  pub flatten_attributes : Fields → Dict Text Text → Text → Dict Text Text
  flatten_attributes no_fields out prefix = out
  flatten_attributes (field key value rest) out prefix =
      flatten_attributes rest (flatten_value value out (path_of prefix key)) prefix

  pub flatten_value : Value → Dict Text Text → Text → Dict Text Text
  flatten_value null out path = out
  flatten_value (scalar shown) out path = Dict.set out path shown
  flatten_value (array shown) out path = Dict.set out path shown
  flatten_value (object fields) out path = flatten_attributes fields out path

abbrev pub as_record : Value → Fields
as_record (object fields) = fields
as_record _ = no_fields
