-- ===== src/ComposeEditor/Cleared.antt =====
-- lib/useComposeDraft.ts, `setField` and `confirm`: recipients cleared while a question is open.
use aimail.Base.{
  eq_refl, ◌===◌, sym, Bool, true, false, not, ◌||◌, some, [], ◌∷◌, ◌++◌, Text, String, string_eq,
  ◌≡◌, refl, ap, ◌∙◌, arith, if◌then◌else◌,
}
use aimail.Base.Maps.{get, put, get-put}
use aimail.DraftGuards.{find_template_placeholders}
use aimail.DraftWorkflow.Types.{tone_warning}
use aimail.ComposeEditor.Edits.{addresses}
use aimail.ComposeEditor.Types.{Editor, Render}
use aimail.ComposeEditor.Saving.{save_now}
use aimail.ComposeEditor.Actions.{
  any_in, shown, is_locked, is_counting_down, addresses_or, words_or, fields_with, outgoing_text,
  fields, cancel, ask, closed_over, start_countdown, continue_send, confirm, confirm_pending,
  act_on, next_question, after_guard, set_field, drop_question, is_moot, is_triggered, type,
}
use aimail.ComposeEditor.Events.{run_editor, editor_step, sent, typed, confirmed}
use aimail.ComposeEditor.Guards.{
  to_of, cc_of, subject_of, body_of, text_of, on_screen, is_unfit, is_held, send-branches,
  is_locked-held, start_countdown-waits,
}

kept_key :
    (key : String) (w : Editor)
    → ("to" === key) ≡ false
    → get key (put "to" (addresses []) w.edits) ≡ get key w.edits
kept_key key w differ =
    get-put "to" key (addresses []) w.edits
    ∙ ap (λ b. if b then some (addresses []) else get key w.edits) differ

first_holds : (a b c d e f : Bool) → a ≡ true → (a || b || c || d || e || f) ≡ true
first_holds a b c d e f h = ground arith

if_second : {A : Type 0} → (a b : Bool) (x y : A) → b ≡ true → (if a || b then x else y) ≡ x
if_second a b x y h = ground arith

if_neither :
    {A : Type 0}
    → (a b c d : Bool) (x y z u : A) → a ≡ false
    → b ≡ false
    → c ≡ false
    → d ≡ true
    → (if a || b then x else if c then y else if d then z else u) ≡ z
if_neither a b c d x y z u ea eb ec ed = ground arith

-- The editor once Send has asked about the tone and the recipients are cleared.
abbrev cleared : Editor → Editor
cleared w = record w {
  pending = some tone_warning;
  edits = put "to" (addresses []) w.edits;
  unsaved = put "to" (addresses []) w.unsaved;
  is_timer_set = true;
}

module _ (v : Render) (w : Editor) where
  nobody : to_of v (cleared w) ≡ []
  unfolding addresses_or
  nobody =
      ap (λ o. addresses_or o v.draft.to)
        (get-put "to" "to" (addresses []) w.edits
          ∙ ap (λ b. if b then some (addresses []) else get "to" w.edits) (eq_refl "to"))

  cleared-is_unfit : is_unfit v (cleared w) ≡ true
  cleared-is_unfit =
      first_holds (not (any_in (to_of v (cleared w)))) _ _ _ _ _
        (ap (λ to. not (any_in to)) nobody ∙ unfold any_in in refl)

  same_text : text_of v (cleared w) ≡ text_of v w
  same_text =
      ap (λ o. words_or o (shown v v.draft.subject) ++ 10 ∷ body_of v (cleared w))
        (kept_key "subject" w refl)
      ∙ ap (λ o. subject_of v w ++ 10 ∷ words_or o (shown v v.draft.body)) (kept_key "body" w refl)

  sent_to_nobody : on_screen v (cleared w) ≡ record {
    email = record {
      to = [];
      cc = cc_of v w;
      subject = subject_of v w;
      body = body_of v w;
      remind_if_no_reply = w.remind_if_no_reply;
    };
    kept = v.kept_failure;
  }
  sent_to_nobody =
      rw (nobody, kept_key "cc" w refl, kept_key "subject" w refl, kept_key "body" w refl) refl

module _ (has_tone_issues : Text → Bool) (v : Render) (w : Editor) where
  stays_asked :
      is_locked v w ≡ false
      → has_tone_issues (text_of v w) ≡ true
      → set_field has_tone_issues v "to" (addresses []) (ask tone_warning w) ≡ cleared w
  unfolding set_field drop_question is_moot ask type is_triggered is_locked is_counting_down
      outgoing_text fields_with
  stays_asked free sharp =
      ap
        (λ b.
          if b
          then ask tone_warning w
          else drop_question has_tone_issues (not (has_tone_issues (text_of v (cleared w))))
              (cleared w))
        free
      ∙ ap (λ t. drop_question has_tone_issues (not (has_tone_issues t)) (cleared w))
          (same_text v w)
      ∙ ap (λ b. drop_question has_tone_issues (not b) (cleared w)) sharp

  opens :
      is_locked v w ≡ false
      → confirm has_tone_issues v (cleared w)
        ≡ start_countdown (on_screen v (cleared w)) (save_now (cancel (cleared w)))
  unfolding confirm confirm_pending act_on continue_send next_question after_guard is_locked
      is_counting_down closed_over fields fields_with
  opens free =
      ap
        (λ b.
          if b
          then cancel (cleared w)
          else act_on has_tone_issues v tone_warning (cleared w) (cancel (cleared w)))
        free

  -- On an email that could be sent but for its tone, Send asks about the tone. The recipients can be
  -- cleared while that question is open, and it stays: then Send does nothing any more, but "Send
  -- anyway" opens the undo window, in which the email waits with the rest as it was on screen and with
  -- no recipient.
  pub confirm-sends_cleared :
      is_locked v w ≡ false
      → is_unfit v w ≡ false
      → any_in (find_template_placeholders (text_of v w)) ≡ false
      → has_tone_issues (text_of v w) ≡ true
      → let u = run_editor has_tone_issues ((v, sent) ∷ (v, typed "to" (addresses [])) ∷ []) w in
        (u.pending ≡ some tone_warning)
        × (run_editor has_tone_issues ((v, sent) ∷ []) u ≡ u)
        × ((run_editor has_tone_issues ((v, confirmed) ∷ []) u).countdown.pending_send
            ≡ some (record {
              email = record {
                to = [];
                cc = cc_of v w;
                subject = subject_of v w;
                body = body_of v w;
                remind_if_no_reply = w.remind_if_no_reply;
              };
              kept = v.kept_failure;
            }))
  unfolding run_editor editor_step
  confirm-sends_cleared free fit plain sharp =
      rw
        (
          (send-branches has_tone_issues v w).0
              ∙ if_neither _ _ _ _ _ _ _ _ (sym (is_locked-held v w) ∙ free) fit plain sharp,
          stays_asked free sharp,
        )
        (
          refl,
          (send-branches has_tone_issues v (cleared w)).0
              ∙ if_second (is_held v (cleared w)) _ _ _ (cleared-is_unfit v w),
          ap (λ (u : Editor). u.countdown.pending_send) (opens free)
              ∙ start_countdown-waits _ _
              ∙ ap some (sent_to_nobody v w),
        )
