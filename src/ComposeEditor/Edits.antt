-- ===== src/ComposeEditor/Edits.antt =====
-- lib/useComposeDraft.ts: `Edits`, what was typed over the stored draft, field by field.
use aimail.Base.{
  Bool, true, false, Option, none, some, List, [], ◌∷◌, ◌++◌, String, string_eq, Text,
  if◌then◌else◌, ◌===◌, ◌≡◌, refl, ◌∙◌, ap, sym, arith,
}
use aimail.Base.Maps.{get, put, delete, get-put}
use aimail.Email.{Tone}

-- The value of one field.
pub data FieldValue : Type 0 where
  addresses : List Text → FieldValue
  words : Text → FieldValue
  voice : Tone → FieldValue

-- The fields by their keys, in which no key stands twice.
abbrev pub Edits : Type 0
Edits = List (String × FieldValue)

-- `{ ...older, ...newer }`.
unfoldable pub spread : Edits → Edits → Edits
spread older [] = older
spread older ((key, value) ∷ newer) = put key value (spread older newer)

-- `withoutText`.
unfoldable pub without_keys : List String → Edits → Edits
without_keys [] edits = edits
without_keys (key ∷ keys) edits = delete key (without_keys keys edits)

unfoldable pub has_changes : Edits → Bool
has_changes [] = false
has_changes (edit ∷ edits) = true

-- The first value, or the second where there is none.
unfoldable pub or_value : Option FieldValue → Option FieldValue → Option FieldValue
or_value none older = older
or_value (some value) older = some value

-- What the last of some edits with a value for the key gives it.
unfoldable pub last_value : String → List Edits → Option FieldValue
last_value key [] = none
last_value key (edits ∷ later) = or_value (last_value key later) (get key edits)

pub get-spread :
    (key : String) (older newer : Edits)
    → get key (spread older newer) ≡ or_value (get key newer) (get key older)
unfolding spread or_value get
get-spread key older [] = refl
get-spread key older ((other, value) ∷ newer) =
    get-put other key value (spread older newer)
    ∙ ap (λ o. if other === key then some value else o) (get-spread key older newer)
    ∙ ground arith

pub or_value_assoc :
    (a b c : Option FieldValue) → or_value a (or_value b c) ≡ or_value (or_value a b) c
unfolding or_value
or_value_assoc none b c = refl
or_value_assoc (some v) b c = refl

pub last_value-append :
    (key : String) (xs ys : List Edits)
    → last_value key (xs ++ ys) ≡ or_value (last_value key ys) (last_value key xs)
unfolding last_value or_value
last_value-append key [] ys = ground arith
last_value-append key (x ∷ xs) ys =
    ap (λ o. or_value o (get key x)) (last_value-append key xs ys)
    ∙ sym (or_value_assoc (last_value key ys) (last_value key xs) (get key x))
