-- ===== src/RecipientsInput/Separated.antt =====
-- lib/recipients.ts on the texts that components/RecipientsInput.tsx leaves in the box: recipients
-- with a comma and a space between them.
use aimail.Base.{
  ℕ, Bool, true, false, not, ◌&&◌, List, [], ◌∷◌, ◌++◌, append_assoc, append-nil, map, filter, Text,
  trim, trim_start, trim_end, is_space, is_empty, All, ◌≡◌, refl, sym, ap, ◌∙◌, arith, Bool-cases,
  inl, inr, ◌==◌, if◌then◌else◌,
}
use aimail.Recipients.{
  Scanning, is_separator, quoted_after, in_angle_after, take_char, scan_char, scan_from, scanned,
  scan, tidy, split, parse_recipients,
}
use aimail.RecipientsInput.{joined}

abbrev state_of : List Text → Text → Bool → Bool → Scanning
state_of complete current is_quoted is_in_angle = record {
  complete = complete;
  current = current;
  is_quoted = is_quoted;
  is_in_angle = is_in_angle;
}

abbrev quoted_next : ℕ → Bool → Bool → Bool
quoted_next c q a = if c == b'"' && not a then not q else q

-- Outside quotes and angle brackets the text has no separator, and at its end all are closed.
unfoldable pub stays : Bool → Bool → Text → Bool
stays q a [] = not q && not a
stays q a (c ∷ text) =
    let rest = stays (quoted_next c q a) (in_angle_after c (quoted_next c q a) a) text in
    not (is_separator c && not (quoted_next c q a) && not (in_angle_after c (quoted_next c q a) a))
    && rest

-- One recipient, as it stands in a finished text.
pub record IsWhole (r : Text) : Type 0 where
  pub one : stays false false r ≡ true
  pub trimmed : trim r ≡ r
  pub some_text : is_empty r ≡ false

scan_from-append : (s : Scanning) (t u : Text) → scan_from s (t ++ u) ≡ scan_from (scan_from s t) u
unfolding scan_from
scan_from-append s [] u = refl
scan_from-append s (c ∷ t) u = scan_from-append (scan_char c s) t u

scan_whole :
    (t : Text) (cs : List Text) (cur : Text) (q a : Bool)
    → stays q a t ≡ true
    → scan_from (state_of cs cur q a) t ≡ state_of cs (cur ++ t) false false
unfolding scan_from scan_char take_char quoted_after stays
scan_whole [] cs cur false false h = ap (λ c. state_of cs c false false) (sym (append-nil cur))
scan_whole [] cs cur true a h = absurd (ground arith)
scan_whole [] cs cur false true h = absurd (ground arith)
scan_whole (c ∷ t) cs cur q a h =
    let q' = quoted_next c q a in
    let a' = in_angle_after c q' a in
    let go : (is_separator c && not q' && not a') ≡ false = ground arith in
    let later : stays q' a' t ≡ true = ground arith in
    rw go (scan_whole t cs (cur ++ c ∷ []) q' a' later)
    ∙ ap (λ x. state_of cs x false false) (append_assoc cur (c ∷ []) t)

-- What the loop holds after the recipients, `pre` being what stands before the first.
end_of : List Text → Text → Text → List Text → Scanning
end_of cs pre r [] = state_of cs (pre ++ r) false false
end_of cs pre r (next ∷ rs) = end_of (cs ++ (pre ++ r) ∷ []) (b' ' ∷ []) next rs

-- A comma and a space after a finished recipient.
separate :
    (cs : List Text) (cur : Text)
    → scan_char b' ' (scan_char b',' (state_of cs cur false false))
      ≡ state_of (cs ++ cur ∷ []) (b' ' ∷ []) false false
unfolding scan_char take_char quoted_after in_angle_after is_separator
separate cs cur = refl

pair_step :
    (s : Scanning) (t : Text)
    → scan_from s (b',' ∷ b' ' ∷ t) ≡ scan_from (scan_char b' ' (scan_char b',' s)) t
unfolding scan_from
pair_step s t = refl

scan-joined :
    (rs : List Text) (r : Text) (cs : List Text) (pre : Text)
    → IsWhole r
    → All IsWhole rs
    → scan_from (state_of cs pre false false) (joined (r ∷ rs)) ≡ end_of cs pre r rs
unfolding joined end_of
scan-joined [] r cs pre w h = scan_whole r cs pre false false w.one
scan-joined (next ∷ rs) r cs pre w h =
    scan_from-append (state_of cs pre false false) r (b',' ∷ b' ' ∷ joined (next ∷ rs))
    ∙ ap (λ s. scan_from s (b',' ∷ b' ' ∷ joined (next ∷ rs)))
        (scan_whole r cs pre false false w.one)
    ∙ pair_step (state_of cs (pre ++ r) false false) (joined (next ∷ rs))
    ∙ ap (λ s. scan_from s (joined (next ∷ rs))) (separate cs (pre ++ r))
    ∙ scan-joined rs next (cs ++ (pre ++ r) ∷ []) (b' ' ∷ []) h.0 h.1

trim_start_twice : (t : Text) → trim_start (trim_start t) ≡ trim_start t
unfolding trim_start
trim_start_twice [] = refl
trim_start_twice (c ∷ t) = elim (Bool-cases (is_space c)) [
  | inl h ↦ rw h (trim_start_twice t)
  | inr h ↦ rw h (rw h refl)
]

trim-trim_start : (t : Text) → trim (trim_start t) ≡ trim t
unfolding trim
trim-trim_start t = ap trim_end (trim_start_twice t)

trim_space : (r : Text) → trim (b' ' ∷ r) ≡ trim r
unfolding trim trim_start
trim_space r = refl

filter_append :
    (p : Text → Bool) (xs ys : List Text) → filter p (xs ++ ys) ≡ filter p xs ++ filter p ys
filter_append p [] ys = refl
filter_append p (x ∷ xs) ys = elim (Bool-cases (p x)) [
  | inl h ↦ rw h (ap (λ l. x ∷ l) (filter_append p xs ys))
  | inr h ↦ rw h (filter_append p xs ys)
]

map_append : (xs ys : List Text) → map trim (xs ++ ys) ≡ map trim xs ++ map trim ys
map_append [] ys = refl
map_append (x ∷ xs) ys = ap (λ l. trim x ∷ l) (map_append xs ys)

tidy-append : (xs ys : List Text) → tidy (xs ++ ys) ≡ tidy xs ++ tidy ys
unfolding tidy
tidy-append xs ys =
    ap (filter (λ part. not (is_empty part))) (map_append xs ys)
    ∙ filter_append (λ part. not (is_empty part)) (map trim xs) (map trim ys)

-- A part that is a recipient but for white space around it.
tidy_one : (x r : Text) → trim x ≡ r → is_empty r ≡ false → tidy (x ∷ []) ≡ r ∷ []
unfolding tidy
tidy_one x r e h = rw e (rw h refl)

parts_of : Scanning → List Text
parts_of s = tidy (tidy s.complete ++ trim_start s.current ∷ [])

parts_of-end_of :
    (rs : List Text) (r : Text) (cs : List Text) (pre : Text)
    → trim (pre ++ r) ≡ r
    → IsWhole r
    → All IsWhole rs
    → parts_of (end_of cs pre r rs) ≡ tidy (tidy cs) ++ r ∷ rs
unfolding parts_of end_of
parts_of-end_of [] r cs pre e w h =
    tidy-append (tidy cs) (trim_start (pre ++ r) ∷ [])
    ∙ ap (λ l. tidy (tidy cs) ++ l)
        (tidy_one (trim_start (pre ++ r)) r (trim-trim_start (pre ++ r) ∙ e) w.some_text)
parts_of-end_of (next ∷ rs) r cs pre e w h =
    parts_of-end_of rs next (cs ++ (pre ++ r) ∷ []) (b' ' ∷ []) (trim_space next ∙ h.0.trimmed) h.0
      h.1
    ∙ ap (λ l. l ++ next ∷ rs)
        (ap tidy (
            tidy-append cs ((pre ++ r) ∷ [])
            ∙ ap (λ l. tidy cs ++ l) (tidy_one (pre ++ r) r e w.some_text))
          ∙ tidy-append (tidy cs) (r ∷ [])
          ∙ ap (λ l. tidy (tidy cs) ++ l) (tidy_one r r w.trimmed w.some_text))
    ∙ append_assoc (tidy (tidy cs)) (r ∷ []) (next ∷ rs)

balanced_end :
    (rs : List Text) (r : Text) (cs : List Text) (pre : Text)
    → (scanned (end_of cs pre r rs)).is_balanced ≡ true
unfolding end_of scanned
balanced_end [] r cs pre = refl
balanced_end (next ∷ rs) r cs pre = balanced_end rs next (cs ++ (pre ++ r) ∷ []) (b' ' ∷ [])

no_recipients : parse_recipients (joined []) ≡ []
unfolding parse_recipients joined scan scanned scan_from tidy trim trim_start trim_end
no_recipients = refl

-- Recipients that are each whole, with quotes and angle brackets closed and no separator outside
-- them, are read back one by one from the text that has them with a comma and a space between.
pub parse_recipients-joined : (rs : List Text) → All IsWhole rs → parse_recipients (joined rs) ≡ rs
unfolding parse_recipients scan tidy parts_of scanned scan_from
parse_recipients-joined [] h = no_recipients
parse_recipients-joined (r ∷ rs) h =
    let e = scan-joined rs r [] [] h.0 h.1 in
    ap parsed e
    ∙ ap (λ b. if b then parts_of (end_of [] [] r rs) else tidy (split (joined (r ∷ rs))))
        (balanced_end rs r [] [])
    ∙ parts_of-end_of rs r [] [] h.0.trimmed h.0 h.1
  where
    parsed : Scanning → List Text
    parsed s = if (scanned s).is_balanced then parts_of s else tidy (split (joined (r ∷ rs)))
