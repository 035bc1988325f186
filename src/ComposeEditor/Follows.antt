-- ===== src/ComposeEditor/Follows.antt =====
-- lib/useComposeDraft.ts: what the user types reaches the service, or is still to be saved.
use aimail.Base.{
  ℕ, Bool, true, false, Option, none, List, [], ◌∷◌, ◌++◌, String, string_eq, if◌then◌else◌, ◌≡◌,
  refl, sym, ap, ◌∙◌, ◌⊎◌, inl, inr, Bool-cases, append_assoc,
}
use aimail.Base.Maps.{get}
use aimail.UndoCountdown.{Countdown}
use aimail.ComposeEditor.Edits.{
  Edits, FieldValue, spread, or_value, last_value, has_changes, get-spread, last_value-append,
}
use aimail.ComposeEditor.Types.{Editor, Request, ComposeAction, Approved, ComposeSendFailure}
use aimail.ComposeEditor.Saving.{save_now, clear_timer, save_done, save_failed}
use aimail.ComposeEditor.Tasks.{
  begin, add_task, run_now, wait_for_saves, run_saved, dispatch_send, dispatch_all, set_countdown,
  save_ended,
}

-- The edits that the service was given, that are being saved, and that are still to be saved.
unfoldable pub told : Editor → List Edits
told w = w.saves_made ++ (w.queue ++ w.unsaved ∷ [])

-- What is told of each field is as before, and what is shown of it too, or no edit is.
pub record Follows (w u : Editor) : Type 0 where
  pub shows : (key : String) → (get key u.edits ≡ none) ⊎ (get key u.edits ≡ get key w.edits)
  pub tells : (key : String) → last_value key (told u) ≡ last_value key (told w)
  pub stays : u.is_deleted ≡ w.is_deleted

pub Follows-refl : (w : Editor) → Follows w w
Follows-refl w = record { shows = λ key. inr refl; tells = λ key. refl; stays = refl }

pub Follows-trans : (w u t : Editor) → Follows w u → Follows u t → Follows w t
Follows-trans w u t f g = record {
  shows = λ key. elim (g.shows key) [
    | inl gone ↦ inl gone
    | inr same ↦ elim (f.shows key) [
      | inl gone ↦ inl (same ∙ gone)
      | inr as_before ↦ inr (same ∙ as_before)
    ]
  ];
  tells = λ key. g.tells key ∙ f.tells key;
  stays = g.stays ∙ f.stays;
}

pub Follows-if :
    (w x y : Editor) (b : Bool) → Follows w x → Follows w y → Follows w (if b then x else y)
Follows-if w x y true f g = f
Follows-if w x y false f g = g

last_value-nil : (key : String) → last_value key ([] ∷ []) ≡ none
unfolding last_value or_value get
last_value-nil key = refl

none-or_value : (o : Option FieldValue) → or_value none o ≡ o
unfolding or_value
none-or_value o = refl

-- Changes that are handed from one place to the next are told as before.
told_moved :
    (key : String) (before queue : List Edits) (changes : Edits)
    → last_value key (before ++ ((queue ++ changes ∷ []) ++ [] ∷ []))
      ≡ last_value key (before ++ (queue ++ changes ∷ []))
told_moved key before queue changes =
    last_value-append key before _
    ∙ ap (λ o. or_value o (last_value key before))
        (last_value-append key (queue ++ changes ∷ []) ([] ∷ [])
          ∙ ap (λ o. or_value o (last_value key (queue ++ changes ∷ []))) (last_value-nil key)
          ∙ none-or_value _)
    ∙ sym (last_value-append key before _)

pub save_now-Follows : (w : Editor) → Follows w (save_now w)
unfolding save_now told clear_timer
save_now-Follows w = elim (Bool-cases (has_changes w.unsaved)) [
  | inl e ↦ rw e (record {
    shows = λ key. inr refl;
    tells = λ key. told_moved key w.saves_made w.queue w.unsaved;
    stays = refl;
  })
  | inr e ↦ rw e (record { shows = λ key. inr refl; tells = λ key. refl; stays = refl })
]

begin-Follows :
    (action : ComposeAction) (kept : Option ComposeSendFailure) (w : Editor)
    → Follows w (begin action kept w)
unfolding begin told
begin-Follows action kept w = record { shows = λ key. inr refl; tells = λ key. refl; stays = refl }

add_task-Follows :
    (action : ComposeAction) (request : Request) (waits : ℕ) (w : Editor)
    → Follows w (add_task action request waits w)
unfolding add_task told
add_task-Follows action request waits w = record {
  shows = λ key. inr refl;
  tells = λ key. refl;
  stays = refl;
}

pub run_now-Follows :
    (action : ComposeAction) (request : Request) (kept : Option ComposeSendFailure) (w : Editor)
    → Follows w (run_now action request kept w)
unfolding run_now
run_now-Follows action request kept w =
    Follows-trans _ _ _ (begin-Follows action kept w)
      (add_task-Follows action request 0 (begin action kept w))

pub run_saved-Follows :
    (action : ComposeAction) (request : Request) (kept : Option ComposeSendFailure) (w : Editor)
    → Follows w (run_saved action request kept w)
unfolding run_saved wait_for_saves
run_saved-Follows action request kept w = Follows-trans _ _ _ (begin-Follows action kept w) (
    Follows-trans _ _ _ (save_now-Follows (begin action kept w))
      (add_task-Follows action request _ (save_now (begin action kept w))))

dispatch_all-Follows : (sends : List Approved) (w : Editor) → Follows w (dispatch_all sends w)
unfolding dispatch_all dispatch_send
dispatch_all-Follows [] w = Follows-refl w
dispatch_all-Follows (approved ∷ rest) w =
    Follows-trans _ _ _ (run_saved-Follows _ _ _ w) (dispatch_all-Follows rest _)

same_told : (d : Countdown Approved) (w : Editor) → Follows w (record w { countdown = d })
unfolding told
same_told d w = record { shows = λ key. inr refl; tells = λ key. refl; stays = refl }

pub set_countdown-Follows : (c : Countdown Approved) (w : Editor) → Follows w (set_countdown c w)
unfolding set_countdown
set_countdown-Follows c w =
    Follows-trans _ _ _ (put_countdown (record c { made = [] })) (dispatch_all-Follows c.made _)
  where
    put_countdown : (d : Countdown Approved) → Follows w (record w { countdown = d })
    put_countdown d = same_told d w

save_ended-Follows : (w : Editor) → Follows w (save_ended w)
unfolding save_ended told
save_ended-Follows w = record { shows = λ key. inr refl; tells = λ key. refl; stays = refl }

pub save_done-Follows :
    (changes : Edits) (rest : List Edits) (w : Editor)
    → w.queue ≡ changes ∷ rest
    → Follows w (save_ended (save_done changes rest w))
unfolding save_ended save_done told
save_done-Follows changes rest w e = record {
  shows = λ key. inr refl;
  tells = λ key. ap (last_value key) (
      append_assoc w.saves_made (changes ∷ []) (rest ++ w.unsaved ∷ [])
      ∙ ap (λ q. w.saves_made ++ (q ++ w.unsaved ∷ [])) (sym e));
  stays = refl;
}

spread_told :
    (key : String) (older newer : Edits)
    → last_value key (spread older newer ∷ []) ≡ last_value key (older ∷ newer ∷ [])
unfolding last_value or_value
spread_told key older newer = get-spread key older newer

-- A save that fails is told again, before what was typed since, if no later save is queued.
pub save_failed-Follows :
    (changes : Edits) (w : Editor)
    → w.queue ≡ changes ∷ []
    → Follows w (save_ended (save_failed changes [] w))
unfolding save_ended save_failed told
save_failed-Follows changes w e = record {
  shows = λ key. inr refl;
  tells = λ key.
      last_value-append key w.saves_made (spread changes w.unsaved ∷ [])
      ∙ ap (λ o. or_value o (last_value key w.saves_made)) (spread_last key)
      ∙ sym (last_value-append key w.saves_made (changes ∷ w.unsaved ∷ []))
      ∙ ap (λ q. last_value key (w.saves_made ++ (q ++ w.unsaved ∷ []))) (sym e);
  stays = refl;
}
  where
    spread_last :
        (key : String)
        → last_value key (spread changes w.unsaved ∷ []) ≡ last_value key (changes ∷ w.unsaved ∷ [])
    spread_last key = spread_told key changes w.unsaved
