-- ===== src/Demo/Json.antt =====
-- demo/: how the handlers read a call's parameters and its JSON body.
use aimail.Base.{
  true, false, Option, none, some, List, [], ◌∷◌, ◌++◌, Text, codes, String, string_eq,
}
use aimail.Base.Maps.{get}
use aimail.Demo.Types.{Call, Value, Values, null, flag, text, array, nil, cons}

-- `params[0]`.
abbrev pub param : Call → String
param call = first call.params
  where
    first : List String → String
    first [] = ""
    first (p ∷ ps) = p

-- `json[key]`; what is left out is `none`.
unfoldable pub field : String → Call → Option Value
field key call = get key call.json

-- `String(value)`: an array's items are joined by commas, null among them as nothing.
unfoldable mutual
  pub string_of : Value → Text
  string_of null = codes "null"
  string_of (flag true) = codes "true"
  string_of (flag false) = codes "false"
  string_of (text t) = t
  string_of (array values) = joined values

  pub joined : Values → Text
  joined nil = []
  joined (cons v nil) = item v
  joined (cons v (cons w values)) = item v ++ codes "," ++ joined (cons w values)

  pub item : Value → Text
  item null = []
  item (flag true) = codes "true"
  item (flag false) = codes "false"
  item (text t) = t
  item (array values) = joined values

-- `String(json[key] ?? "")`.
unfoldable pub string_or_empty : Option Value → Text
string_or_empty none = []
string_or_empty (some null) = []
string_or_empty (some v) = string_of v

-- `String(json[key])`.
unfoldable pub string_of_field : Option Value → Text
string_of_field none = codes "undefined"
string_of_field (some v) = string_of v
