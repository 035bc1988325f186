-- ===== src/RecipientsInput.antt =====
-- components/RecipientsInput.tsx: To or Cc as chips, with the box that they are typed in. The chips are
-- the page's, and come back changed; the events are those of a box that is not disabled.
use aimail.Base.{
  ℕ, zero, suc, ◌+◌, Bool, true, false, not, ◌&&◌, ◌||◌, List, [], ◌∷◌, ◌++◌, Text, codes, filter,
  length, take, drop, ltb, leb, ◌==◌, is_empty, if◌then◌else◌,
}
use aimail.Recipients.{parse_recipients, split_recipients, accept_recipients, AcceptedRecipients}
pub mod Bounds
pub mod Separated
pub mod Kept
pub mod Tests

pub data Refusal : Type 0 where
  too_many too_long : Refusal

pub record Box : Type 0 where
  pub recipients : List Text
  pub other_count : ℕ
  pub text : Text
  pub refusals : List Refusal

-- `join(", ")`.
unfoldable pub joined : List Text → Text
joined [] = []
joined (part ∷ []) = part
joined (part ∷ next ∷ parts) = part ++ b',' ∷ b' ' ∷ joined (next ∷ parts)

abbrev pub has_any : List Text → Bool
has_any [] = false
has_any (part ∷ parts) = true

unfoldable pub refusals_of : AcceptedRecipients → List Refusal
refusals_of a =
    (if has_any a.over_limit then too_many ∷ [] else [])
    ++ (if has_any a.too_long then too_long ∷ [] else [])

-- `[...overLimit, ...tooLong, rest].filter(Boolean).join(", ")`.
unfoldable pub left_over : AcceptedRecipients → Text → Text
left_over a rest =
    joined (filter (λ part. not (is_empty part)) (a.over_limit ++ a.too_long ++ rest ∷ []))

unfoldable pub accepted_by : Box → List Text → AcceptedRecipients
accepted_by b more = accept_recipients (length b.recipients + b.other_count) more

unfoldable pub add : List Text → Text → Box → Box
add more rest b = record b {
  recipients = b.recipients ++ (accepted_by b more).accepted;
  refusals = refusals_of (accepted_by b more);
  text = left_over (accepted_by b more) rest;
}

-- `recipients.slice(0, -1)`.
unfoldable pub without_last : List Text → List Text
without_last [] = []
without_last (r ∷ []) = []
without_last (r ∷ s ∷ rs) = r ∷ without_last (s ∷ rs)

-- Backspace in an empty box.
unfoldable pub backspace : Box → Box
backspace b = if is_empty b.text then record b { recipients = without_last b.recipients } else b

-- `${text.slice(0, start)}${pasted}${text.slice(end)}`.
unfoldable pub spliced : Text → ℕ → ℕ → Text → Text
spliced text start end pasted = take start text ++ pasted ++ drop end text

-- A list is split at once; of one address the browser makes text.
unfoldable pub paste : Text → ℕ → ℕ → Box → Box
paste pasted start end b =
    if ltb (length (parse_recipients pasted)) 2
    then b
    else add (parse_recipients (spliced b.text start end pasted)) [] b

-- `handleChange`.
unfoldable pub change : List Text → Text → Box → Box
change [] rest b = record b { text = rest }
change (r ∷ rs) rest b = add (r ∷ rs) rest b

-- The chip's own button.
unfoldable pub without_index : ℕ → List Text → List Text
without_index n [] = []
without_index zero (r ∷ rs) = rs
without_index (suc n) (r ∷ rs) = r ∷ without_index n rs

pub data BoxEvent : Type 0 where
  entered pressed_backspace blurred : BoxEvent
  pasted_at : Text → ℕ → ℕ → BoxEvent
  changed : Text → BoxEvent
  removed : ℕ → BoxEvent

unfoldable pub box_step : BoxEvent → Box → Box
box_step entered b = add (parse_recipients b.text) [] b
box_step blurred b = add (parse_recipients b.text) [] b
box_step pressed_backspace b = backspace b
box_step (pasted_at pasted start end) b = paste pasted start end b
box_step (changed value) b = change (split_recipients value).0 (split_recipients value).1 b
box_step (removed n) b = record b { recipients = without_index n b.recipients }

unfoldable pub run_box : List BoxEvent → Box → Box
run_box [] b = b
run_box (e ∷ events) b = run_box events (box_step e b)
