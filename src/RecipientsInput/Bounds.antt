-- ===== src/RecipientsInput/Bounds.antt =====
-- components/RecipientsInput.tsx: how many chips there are, and how long they are.
use aimail.Base.{
  ℕ, zero, suc, ◌+◌, ◌≤◌, List, [], ◌∷◌, Text, length, length-append, All, All-append, is_empty,
  ltb, arith, if_rule,
}
use aimail.Recipients.{parse_recipients, accept_recipients}
use aimail.Recipients.Limits.{accept_recipients_lem}
use aimail.RecipientsInput.{
  Box, BoxEvent, entered, pressed_backspace, blurred, pasted_at, changed, removed, add, accepted_by,
  backspace, without_last, without_index, paste, change, box_step, run_box,
}

-- To and Cc together hold twenty recipients at most, and each is as long as an address may be.
pub record IsWithin (b : Box) : Type 0 where
  pub few : length b.recipients + b.other_count ≤ 20
  pub short : All (λ r. length r ≤ 320) b.recipients

add-IsWithin : (more : List Text) (rest : Text) (b : Box) → IsWithin b → IsWithin (add more rest b)
unfolding add accepted_by
add-IsWithin more rest b w =
    let existing = length b.recipients + b.other_count in
    let a = accept_recipients_lem existing more in
    let few = w.few in
    record {
      few =
          omega (arith, length-append b.recipients (accept_recipients existing more).accepted, a.3);
      short = All-append _ b.recipients (accept_recipients existing more).accepted w.short a.2;
    }

fewer-IsWithin :
    (rs : List Text) (b : Box)
    → length rs ≤ length b.recipients
    → All (λ r. length r ≤ 320) rs
    → IsWithin b
    → IsWithin (record b { recipients = rs })
fewer-IsWithin rs b le short w = let few = w.few in record { few = omega arith; short = short }

length-without_last : (rs : List Text) → length (without_last rs) ≤ length rs
unfolding without_last
length-without_last [] = omega arith
length-without_last (r ∷ []) = omega arith
length-without_last (r ∷ s ∷ rs) = omega (arith, length-without_last (s ∷ rs))

length-without_index : (n : ℕ) (rs : List Text) → length (without_index n rs) ≤ length rs
unfolding without_index
length-without_index n [] = omega arith
length-without_index zero (r ∷ rs) = omega arith
length-without_index (suc n) (r ∷ rs) = omega (arith, length-without_index n rs)

All-without_last :
    (rs : List Text) → All (λ r. length r ≤ 320) rs → All (λ r. length r ≤ 320) (without_last rs)
unfolding without_last
All-without_last [] h = tt
All-without_last (r ∷ []) h = tt
All-without_last (r ∷ s ∷ rs) h = (h.0, All-without_last (s ∷ rs) h.1)

All-without_index :
    (n : ℕ) (rs : List Text)
    → All (λ r. length r ≤ 320) rs
    → All (λ r. length r ≤ 320) (without_index n rs)
unfolding without_index
All-without_index n [] h = tt
All-without_index zero (r ∷ rs) h = h.1
All-without_index (suc n) (r ∷ rs) h = (h.0, All-without_index n rs h.1)

change-IsWithin :
    (rs : List Text) (rest : Text) (b : Box) → IsWithin b → IsWithin (change rs rest b)
unfolding change
change-IsWithin [] rest b w = record { few = w.few; short = w.short }
change-IsWithin (r ∷ rs) rest b w = add-IsWithin (r ∷ rs) rest b w

step-IsWithin : (e : BoxEvent) (b : Box) → IsWithin b → IsWithin (box_step e b)
unfolding box_step backspace paste
step-IsWithin entered b w = add-IsWithin (parse_recipients b.text) [] b w
step-IsWithin blurred b w = add-IsWithin (parse_recipients b.text) [] b w
step-IsWithin pressed_backspace b w =
    if_rule IsWithin (is_empty b.text)
      (λ _.
        fewer-IsWithin _ b (length-without_last b.recipients)
          (All-without_last b.recipients w.short) w)
      (λ _. w)
step-IsWithin (pasted_at pasted start end) b w =
    if_rule IsWithin (ltb (length (parse_recipients pasted)) 2) (λ _. w)
      (λ _. add-IsWithin _ [] b w)
step-IsWithin (changed value) b w = change-IsWithin _ _ b w
step-IsWithin (removed n) b w =
    fewer-IsWithin _ b (length-without_index n b.recipients)
      (All-without_index n b.recipients w.short) w

-- Whatever is typed, pasted, entered or removed, a field that starts within the limits stays within
-- them: To and Cc together never hold more than twenty recipients, nor one that is too long.
pub run_box-IsWithin : (events : List BoxEvent) (b : Box) → IsWithin b → IsWithin (run_box events b)
unfolding run_box
run_box-IsWithin [] b w = w
run_box-IsWithin (e ∷ events) b w = run_box-IsWithin events (box_step e b) (step-IsWithin e b w)
