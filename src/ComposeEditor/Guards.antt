-- ===== src/ComposeEditor/Guards.antt =====
-- lib/useComposeDraft.ts: what Send does, on every branch.
use aimail.Base.{
  Bool, true, false, not, ◌||◌, Option, none, some, List, [], ◌∷◌, ◌++◌, Text, string_eq, arith,
  is_some, ◌≡◌, refl, ap, ◌∙◌, if_rule, if◌then◌else◌,
}
use aimail.Base.Maps.{get}
use aimail.Details.{detail_values, has_missing_details}
use aimail.DraftGuards.{find_redaction_markers, find_template_placeholders, find_unfilled_blanks}
use aimail.DraftWorkflow.Types.{ConfirmKind, send_templates, tone_warning}
use aimail.UndoCountdown
use aimail.ComposeEditor.Edits.{has_changes}
use aimail.ComposeEditor.Types.{
  Editor, Render, Approved, SendBlocker, ComposeAction, no_recipient, no_subject, no_body,
  missing_details, unfilled_blanks, redaction_markers,
}
use aimail.ComposeEditor.Saving.{save_now, clear_timer}
use aimail.ComposeEditor.Tasks.{
  begin, add_task, run_saved, wait_for_saves, dispatch_send, dispatch_all, set_countdown,
}
use aimail.ComposeEditor.Actions.{
  any_in, is_blank, is_editable, shown, values, addresses_or, words_or, kept_if, send_blockers,
  blockers, is_locked, is_counting_down, fields, fields_with, outgoing_text, cancel, ask,
  closed_over, start_countdown, continue_send, send, next_question, is_triggered,
}

-- The email on screen: of each field the last edit, or else what is stored, with the real details in
-- it unless they are hidden.
module _ (v : Render) (w : Editor) where
  abbrev pub to_of : List Text
  to_of = addresses_or (get "to" w.edits) v.draft.to

  abbrev pub cc_of : List Text
  cc_of = addresses_or (get "cc" w.edits) v.draft.cc

  abbrev pub subject_of : Text
  subject_of = words_or (get "subject" w.edits) (shown v v.draft.subject)

  abbrev pub body_of : Text
  body_of = words_or (get "body" w.edits) (shown v v.draft.body)

  abbrev pub text_of : Text
  text_of = subject_of ++ 10 ∷ body_of

  abbrev pub on_screen : Approved
  on_screen = record {
    email = record {
      to = to_of;
      cc = cc_of;
      subject = subject_of;
      body = body_of;
      remind_if_no_reply = w.remind_if_no_reply;
    };
    kept = v.kept_failure;
  }

  -- Whether it is not the editor's to change now, or it is not fit to be sent.
  abbrev pub is_held : Bool
  is_held = not (is_editable v.draft.state) || is_some w.busy || is_some w.countdown.seconds_left

  abbrev pub is_unfit : Bool
  is_unfit =
      not (any_in to_of)
      || is_blank subject_of
      || is_blank body_of
      || has_missing_details text_of (detail_values v.draft.details)
      || any_in (find_unfilled_blanks body_of)
      || any_in (find_redaction_markers text_of)

any_in-kept_if :
    (blocker : SendBlocker) (b : Bool) (rest : List SendBlocker)
    → any_in (kept_if blocker b ++ rest) ≡ (b || any_in rest)
unfolding any_in kept_if
any_in-kept_if blocker true rest = refl
any_in-kept_if blocker false rest = refl

any_in-kept_last : (blocker : SendBlocker) (b : Bool) → any_in (kept_if blocker b) ≡ b
unfolding any_in kept_if
any_in-kept_last blocker true = refl
any_in-kept_last blocker false = refl

any_blocker :
    (a b c d e f : Bool)
    → any_in (
        kept_if no_recipient a
        ++ (kept_if no_subject b
            ++ (kept_if no_body c
                ++ (kept_if missing_details d
                    ++ (kept_if unfilled_blanks e ++ kept_if redaction_markers f)))))
      ≡ (a || (b || (c || (d || (e || f)))))
any_blocker a b c d e f =
    any_in-kept_if no_recipient a _
    ∙ ap (λ x. a || x)
        (any_in-kept_if no_subject b _
          ∙ ap (λ x. b || x)
              (any_in-kept_if no_body c _
                ∙ ap (λ x. c || x)
                    (any_in-kept_if missing_details d _
                      ∙ ap (λ x. d || x)
                          (any_in-kept_if unfilled_blanks e _
                            ∙ ap (λ x. e || x) (any_in-kept_last redaction_markers f)))))

or_assoc :
    (a b c d e f : Bool) → (a || (b || (c || (d || (e || f))))) ≡ (a || b || c || d || e || f)
or_assoc a b c d e f = ground arith

pub any_in-blockers : (v : Render) (w : Editor) → any_in (blockers v w) ≡ is_unfit v w
unfolding blockers send_blockers fields fields_with outgoing_text values
any_in-blockers v w =
    any_blocker _ _ _ _ _ _
    ∙ or_assoc (not (any_in (to_of v w))) (is_blank (subject_of v w)) (is_blank (body_of v w))
        (has_missing_details (text_of v w) (detail_values v.draft.details))
        (any_in (find_unfilled_blanks (body_of v w)))
        (any_in (find_redaction_markers (text_of v w)))

pub is_locked-held : (v : Render) (w : Editor) → is_locked v w ≡ is_held v w
unfolding is_locked is_counting_down
is_locked-held v w = refl

save_now-countdown : (w : Editor) → (save_now w).countdown ≡ w.countdown
unfolding save_now clear_timer
save_now-countdown w =
    if_rule (λ (u : Editor). u.countdown ≡ w.countdown) (has_changes w.unsaved) (λ _. refl)
      (λ _. refl)

dispatch_all-countdown :
    (sends : List Approved) (w : Editor) → (dispatch_all sends w).countdown ≡ w.countdown
unfolding dispatch_all dispatch_send run_saved wait_for_saves add_task begin
dispatch_all-countdown [] w = refl
dispatch_all-countdown (approved ∷ rest) w =
    dispatch_all-countdown rest _ ∙ save_now-countdown (begin ComposeAction.send approved.kept w)

pub start_countdown-waits :
    (approved : Approved) (w : Editor)
    → (start_countdown approved w).countdown.pending_send ≡ some approved
unfolding start_countdown set_countdown UndoCountdown.start
start_countdown-waits approved w = ap (λ c. c.pending_send) (dispatch_all-countdown _ _)

module _ (has_tone_issues : Text → Bool) (v : Render) where
  next_question-start :
      (text : Text)
      → next_question has_tone_issues text 0 ≡ (
          if any_in (find_template_placeholders text)
          then some send_templates
          else if has_tone_issues text
          then some tone_warning
          else none)
  unfolding next_question is_triggered
  next_question-start text = refl

  goes_on : Editor → Editor → Option ConfirmKind → Editor
  goes_on w u (some kind) = ask kind u
  goes_on w u none = start_countdown (on_screen v w) (save_now u)

  asked_first :
      (w u : Editor) (has_gaps has_issues : Bool)
      → goes_on w u
          (if has_gaps then some send_templates else if has_issues then some tone_warning else none)
        ≡ (if has_gaps
            then ask send_templates u
            else if has_issues
            then ask tone_warning u
            else start_countdown (on_screen v w) (save_now u))
  unfolding goes_on
  asked_first w u true has_issues = refl
  asked_first w u false true = refl
  asked_first w u false false = refl

  goes_on_lem :
      (w u : Editor) (o : Option ConfirmKind)
      → elim o [ some kind ↦ ask kind u | none ↦ start_countdown (on_screen v w) (save_now u) ]
        ≡ goes_on w u o
  unfolding goes_on
  goes_on_lem w u (some kind) = refl
  goes_on_lem w u none = refl

  from_start :
      (w u : Editor)
      → continue_send has_tone_issues v 0 w u ≡ (
          if any_in (find_template_placeholders (text_of v w))
          then ask send_templates u
          else if has_tone_issues (text_of v w)
          then ask tone_warning u
          else start_countdown (on_screen v w) (save_now u))
  unfolding continue_send closed_over fields fields_with outgoing_text
  from_start w u =
      goes_on_lem w u _
      ∙ ap (goes_on w u) (next_question-start (text_of v w))
      ∙ asked_first w u (any_in (find_template_placeholders (text_of v w)))
          (has_tone_issues (text_of v w))

  -- Send, on every branch. It does nothing while the email is not a draft, something is in flight for
  -- it or its undo window is open, nor while it has no recipient, its subject or body is blank, a
  -- detail is missing, or an unfilled blank or a redaction marker is in it. Else it asks about template
  -- placeholders, else about the tone; and else it saves what is unsaved and opens the undo window, in
  -- which the email on screen then waits: of each field the last edit, or what is stored.
  pub send-branches :
      (w : Editor)
      → (send has_tone_issues v w ≡ (
          if is_held v w || is_unfit v w
          then w
          else if any_in (find_template_placeholders (text_of v w))
          then ask send_templates w
          else if has_tone_issues (text_of v w)
          then ask tone_warning w
          else start_countdown (on_screen v w) (save_now (cancel w))))
        × ((start_countdown (on_screen v w) (save_now (cancel w))).countdown.pending_send
            ≡ some (on_screen v w))
  unfolding send ask cancel
  send-branches w = (
    ap (λ b. if is_locked v w || b then w else continue_send has_tone_issues v 0 w (cancel w))
          (any_in-blockers v w)
        ∙ ap (λ b. if b || is_unfit v w then w else continue_send has_tone_issues v 0 w (cancel w))
            (is_locked-held v w)
        ∙ ap (λ u. if is_held v w || is_unfit v w then w else u) (from_start w (cancel w)),
    start_countdown-waits (on_screen v w) (save_now (cancel w)),
  )
