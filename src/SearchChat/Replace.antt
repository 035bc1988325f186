-- ===== src/SearchChat/Replace.antt =====
-- `String.prototype.replaceAll` with two texts, as components/InboxChatWidget.tsx uses it.
use aimail.Base.{
  ℕ, zero, suc, Bool, true, false, ◌&&◌, [], ◌∷◌, ◌++◌, Text, drop, length, ◌==◌, if◌then◌else◌,
}

unfoldable pub starts_with : Text → Text → Bool
starts_with [] text = true
starts_with (c ∷ needle) [] = false
starts_with (c ∷ needle) (d ∷ text) = c == d && starts_with needle text

-- The patterns of a replacement: `$$`, `$&`, and the text before and after the match.
unfoldable pub expand : Text → Text → Text → Text → Text
expand before needle after [] = []
expand before needle after (c ∷ []) = c ∷ []
expand before needle after (c ∷ d ∷ value) =
    let rest = expand before needle after value in
    let plain = expand before needle after (d ∷ value) in
    if c == b'$'
    then (if d == b'$'
        then b'$' ∷ rest
        else if d == b'&'
        then needle ++ rest
        else if d == b'`'
        then before ++ rest
        else if d == b'\''
        then after ++ rest
        else c ∷ plain)
    else c ∷ plain

-- The text from one place on, with what stands before it and how much of it is in a match.
unfoldable pub replace_from : Text → Text → Text → ℕ → Text → Text
replace_from needle value before skip [] = []
replace_from needle value before (suc skip) (c ∷ text) =
    replace_from needle value (before ++ c ∷ []) skip text
replace_from needle value before zero (c ∷ text) =
    let matched = replace_from needle value (before ++ c ∷ []) (length (drop 1 needle)) text in
    let rest = replace_from needle value (before ++ c ∷ []) zero text in
    if starts_with needle (c ∷ text)
    then expand before needle (drop (length needle) (c ∷ text)) value ++ matched
    else c ∷ rest

-- Of the empty text, there is one before every character, and one at the end.
unfoldable pub replace_between : Text → Text → Text → Text
replace_between value before [] = expand before [] [] value
replace_between value before (c ∷ text) =
    expand before [] (c ∷ text) value ++ c ∷ replace_between value (before ++ c ∷ []) text

unfoldable pub replace_all : Text → Text → Text → Text
replace_all [] value text = replace_between value [] text
replace_all needle value text = replace_from needle value [] zero text
