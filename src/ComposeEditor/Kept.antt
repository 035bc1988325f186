-- ===== src/ComposeEditor/Kept.antt =====
-- lib/useComposeDraft.ts: what is kept of the fields, and that keys and answers keep it.
use aimail.Base.{
  ℕ, ◌≤◌, Bool, true, false, Option, none, some, List, [], ◌∷◌, ◌++◌, Text, String, string_eq,
  length, ◌===◌, if◌then◌else◌, ◌≡◌, refl, sym, ap, ◌∙◌, ◌⊎◌, inl, inr, Bool-cases,
}
use aimail.Base.Maps.{get, put, delete, get-put, get-delete}
use aimail.ComposeEditor.Edits.{
  Edits, FieldValue, or_value, last_value, without_keys, last_value-append, or_value_assoc,
}
use aimail.ComposeEditor.Types.{
  Editor, Task, Request, ComposeAction, write_email, refine_email, send_email, settle_outcome,
  delete_email,
}
use aimail.ComposeEditor.Tasks.{announce, task_done, answered, close_task, answer_task}
use aimail.ComposeEditor.Actions.{type}
use aimail.ComposeEditor.Events.{EditorEvent, save_ended}
use aimail.ComposeEditor.Follows.{told, Follows}

-- Every field with an edit on screen was given to the service with that value last, or is being
-- saved with it, or is still to be saved with it; unless the email is deleted.
unfoldable pub IsKept : Editor → Type 0
IsKept w =
    (w.is_deleted ≡ true)
    ⊎ ((key : String) → (get key w.edits ≡ none) ⊎ (last_value key (told w) ≡ get key w.edits))

-- A save that fails has no later save behind it.
unfoldable pub IsOrderly : EditorEvent → Editor → Type 0
IsOrderly (save_ended false) w = length w.queue ≤ 1
IsOrderly _ w = Unit

pub Follows-IsKept : (w u : Editor) → Follows w u → IsKept w → IsKept u
unfolding IsKept
Follows-IsKept w u f (inl gone) = inl (f.stays ∙ gone)
Follows-IsKept w u f (inr kept) = inr λ key. elim (f.shows key) [
  | inl none_there ↦ inl none_there
  | inr same ↦ elim (kept key) [
    | inl none_there ↦ inl (same ∙ none_there)
    | inr last ↦ inr (f.tells key ∙ last ∙ sym same)
  ]
]

without_keys-shows :
    (key : String) (keys : List String) (edits : Edits)
    → (get key (without_keys keys edits) ≡ none)
      ⊎ (get key (without_keys keys edits) ≡ get key edits)
unfolding without_keys
without_keys-shows key [] edits = inr refl
without_keys-shows key (other ∷ keys) edits = elim (Bool-cases (other === key)) [
  | inl e ↦ inl (get-delete other key rest ∙ ap (λ b. if b then none else get key rest) e)
  | inr e ↦
      let same : get key (delete other rest) ≡ get key rest =
        get-delete other key rest ∙ ap (λ b. if b then none else get key rest) e in
      elim (without_keys-shows key keys edits) [
        | inl gone ↦ inl (same ∙ gone)
        | inr kept ↦ inr (same ∙ kept)
      ]
]
  where
    rest : Edits
    rest = without_keys keys edits

IsKept-deleted : (w : Editor) → w.is_deleted ≡ true → IsKept w
unfolding IsKept
IsKept-deleted w gone = inl gone

-- An answer takes edits off the screen, or deletes the email.
pub answered-IsKept :
    (number : ℕ) (action : ComposeAction) (request : Request) (waits : ℕ) (body : Text) (w : Editor)
    → IsKept w
    → IsKept (
        answered
          (record { number = number; action = action; request = request; waits = waits })
          body
          w)
unfolding answered announce task_done told
answered-IsKept number action delete_email waits body w kept = IsKept-deleted _ refl
answered-IsKept number action (send_email email) waits body w kept =
    Follows-IsKept w _ (record { shows = λ key. inr refl; tells = λ key. refl; stays = refl }) kept
answered-IsKept number action (settle_outcome outcome) waits body w kept =
    Follows-IsKept w _ (record { shows = λ key. inr refl; tells = λ key. refl; stays = refl }) kept
answered-IsKept number action (refine_email f instruction) waits body w kept =
    Follows-IsKept w _
      (record {
        shows = λ key. without_keys-shows key ("body" ∷ []) w.edits;
        tells = λ key. refl;
        stays = refl;
      })
      kept
answered-IsKept number action (write_email f) waits body w kept =
    Follows-IsKept w _
      (record {
        shows = λ key. without_keys-shows key ("subject" ∷ "body" ∷ []) w.edits;
        tells = λ key. refl;
        stays = refl;
      })
      kept

pub close_task-Follows : (number : ℕ) (w : Editor) → Follows w (close_task number w)
unfolding close_task told
close_task-Follows number w = record { shows = λ key. inr refl; tells = λ key. refl; stays = refl }

pub answer_task-IsKept :
    (task : Option Task) (body : Text) (w : Editor) → IsKept w → IsKept (answer_task task body w)
unfolding answer_task
answer_task-IsKept none body w kept = kept
answer_task-IsKept (some task) body w kept =
    answered-IsKept task.number task.action task.request task.waits body _
      (Follows-IsKept w _ (close_task-Follows task.number w) kept)

last_value-told :
    (key : String) (made queue : List Edits) (unsaved : Edits)
    → last_value key (made ++ (queue ++ unsaved ∷ []))
      ≡ or_value (get key unsaved) (or_value (last_value key queue) (last_value key made))
unfolding last_value get or_value
last_value-told key made queue unsaved =
    last_value-append key made _
    ∙ ap (λ o. or_value o (last_value key made)) (last_value-append key queue (unsaved ∷ []))
    ∙ sym (or_value_assoc (get key unsaved) (last_value key queue) (last_value key made))

-- A key is typed: it is on screen, and to be saved.
typed_value :
    (key k : String) (value : FieldValue) (edits unsaved : Edits) (before : Option FieldValue)
    → (get k edits ≡ none) ⊎ (or_value (get k unsaved) before ≡ get k edits)
    → (get k (put key value edits) ≡ none)
      ⊎ (or_value (get k (put key value unsaved)) before ≡ get k (put key value edits))
unfolding or_value
typed_value key k value edits unsaved before kept =
    rw (get-put key k value edits, get-put key k value unsaved)
      (elim (Bool-cases (key === k)) [ inl e ↦ rw e (inr refl) | inr e ↦ rw e kept ])

pub type-IsKept :
    (has_tone_issues : Text → Bool) (key : String) (value : FieldValue) (w : Editor)
    → IsKept w
    → IsKept (type has_tone_issues key value w)
unfolding IsKept type told
type-IsKept has_tone_issues key value w (inl gone) = inl gone
type-IsKept has_tone_issues key value w (inr kept) = inr λ k.
    rw (last_value-told k w.saves_made w.queue (put key value w.unsaved)) (
      typed_value key k value w.edits w.unsaved _
        (rw (← last_value-told k w.saves_made w.queue w.unsaved) (kept k)))
