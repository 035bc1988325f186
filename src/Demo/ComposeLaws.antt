-- ===== src/Demo/ComposeLaws.antt =====
-- demo/compose.ts: what a call of Compose may do to the drafts.
use aimail.Base.{
  Bool, true, false, not, Option, none, some, List, [], ◌∷◌, ◌++◌, Text, String, filter, ◌===◌, ◌≡◌,
  refl, sym, ◌∙◌, inl, inr, Bool-cases, eq_iff, arith, subst,
}
use aimail.ComposeDraft.{ComposeDraft, ComposeState}
use aimail.Demo.Types.{Call, DemoState, Result, ok, err, ApiErrorCode}
use aimail.Demo.Json.{param}
use aimail.Demo.State.{record_row}
use aimail.Demo.Compose.{
  ComposeData, apply, is_blank, refused_send, email_text, sent_draft, new_draft, filled, written,
  refined_body, refined_draft,
}
use aimail.Demo.ComposeCalls.{
  ComposeAnswer, saved, ComposeRoute, compose_list, create, get_draft, patch, remove, write, refine,
  send, settle, draft_by_id, assign_draft, put_draft, with_found, when_editable, patch_draft,
  refine_with, send_unless, send_found, settle_found, removed, remove_found, write_draft,
  refine_draft, create_draft, on_draft, handle_compose,
}

-- What one call about the id does to the drafts.
pub data Change (id : String) (route : ComposeRoute) (drafts : List ComposeDraft)
    : List ComposeDraft → Type 0 where
  kept : Change id route drafts drafts
  edited :
      (old new : ComposeDraft)
      → draft_by_id id drafts ≡ some old
      → old.state ≡ ComposeState.draft
      → new.id ≡ old.id
      → new.state ≡ ComposeState.draft
      → Change id route drafts (assign_draft id new drafts)
  sent_off :
      (old new : ComposeDraft)
      → draft_by_id id drafts ≡ some old
      → old.state ≡ ComposeState.draft
      → new.id ≡ old.id
      → route ≡ send
      → new.state ≡ ComposeState.sent
      → refused_send new ≡ none
      → Change id route drafts (assign_draft id new drafts)
  created :
      (new : ComposeDraft)
      → new.state ≡ ComposeState.draft
      → Change id route drafts (drafts ++ new ∷ [])
  taken_out :
      route ≡ remove → Change id route drafts (filter (λ other. not (other.id === id)) drafts)

pub draft_by_id-id :
    (id : String) (draft : ComposeDraft) (drafts : List ComposeDraft)
    → draft_by_id id drafts ≡ some draft
    → draft.id ≡ id
unfolding draft_by_id
draft_by_id-id id draft [] found = cc
draft_by_id-id id draft (other ∷ drafts) found =
    ground (arith, eq_iff other.id id, draft_by_id-id id draft drafts)

-- Assigned twice, the second counts.
assign-assign :
    (id : String) (first second : ComposeDraft) (drafts : List ComposeDraft)
    → first.id ≡ id
    → assign_draft id second (assign_draft id first drafts) ≡ assign_draft id second drafts
unfolding assign_draft
assign-assign id first second [] same = refl
assign-assign id first second (draft ∷ drafts) same =
    ground (arith, eq_iff draft.id id, eq_iff first.id id, assign-assign id first second drafts)

-- Where a call leaves the drafts.
unfoldable pub Leaves :
    String → ComposeRoute → List ComposeDraft → DemoState × Result ComposeAnswer → Type 0
Leaves id route drafts (u, answer) = Change id route drafts u.compose_drafts

module _ (given : ComposeData) (route : ComposeRoute) (call : Call) (s : DemoState) where
  -- The drafts before the call.
  abbrev before : List ComposeDraft
  before = s.compose_drafts

  abbrev Good : DemoState × Result ComposeAnswer → Type 0
  Good = Leaves (param call) route before

  patch-Good :
      (old new : ComposeDraft)
      → draft_by_id (param call) before ≡ some old
      → old.state ≡ ComposeState.draft
      → new.id ≡ old.id
      → new.state ≡ ComposeState.draft
      → (answer : Result ComposeAnswer) → Good (put_draft (param call) new s, answer)
  unfolding Leaves put_draft
  patch-Good old new found editable same state answer = edited old new found editable same state

  -- A second assignment in the same call.
  again-Good :
      (old first second : ComposeDraft)
      → draft_by_id (param call) before ≡ some old
      → old.state ≡ ComposeState.draft
      → first.id ≡ old.id
      → second.id ≡ old.id
      → second.state ≡ ComposeState.draft
      → Change
          (param call)
          route
          before
          (assign_draft (param call) second (assign_draft (param call) first before))
  again-Good old first second found editable same same' state =
      subst (Change (param call) route before)
        (sym (
          assign-assign (param call) first second before
            (same ∙ draft_by_id-id (param call) old before found)))
        (edited old second found editable same' state)

  write-Good :
      (old new : ComposeDraft)
      → draft_by_id (param call) before ≡ some old
      → old.state ≡ ComposeState.draft
      → new.id ≡ old.id
      → new.state ≡ ComposeState.draft
      → Good (write_draft given call new s)
  unfolding Leaves write_draft put_draft record_row written filled
  write-Good old new found editable same state = elim (Bool-cases (is_blank new.brief)) [
    | inl e ↦ rw e (edited old new found editable same state)
    | inr e ↦ rw e (again-Good old new (written given call.now new) found editable same same state)
  ]

  refine-Good :
      (old new : ComposeDraft)
      → draft_by_id (param call) before ≡ some old
      → old.state ≡ ComposeState.draft
      → new.id ≡ old.id
      → new.state ≡ ComposeState.draft
      → Good (refine_draft given call new s)
  unfolding Leaves refine_draft put_draft refined_draft refine_with record_row
  refine-Good old new found editable same state = elim (Bool-cases (is_blank new.body)) [
    | inl e ↦ rw e (edited old new found editable same state)
    | inr e ↦ rw e (refined (refined_body given call))
  ]
    where
      refined :
          (body : Result Text) → Good (refine_with call body new (put_draft (param call) new s))
      refined (err e) = edited old new found editable same state
      refined (ok body) =
          again-Good old new (refined_draft call.now body new) found editable same same state

  -- A handler that needs a draft that is not sent, nor being sent.
  editable-Good :
      (old : ComposeDraft) (next : DemoState → DemoState × Result ComposeAnswer) (at : ComposeState)
      → old.state ≡ at
      → (old.state ≡ ComposeState.draft → Good (next s))
      → Good (when_editable at next s)
  unfolding Leaves when_editable
  editable-Good old next ComposeState.draft e goes = goes e
  editable-Good old next ComposeState.sent e goes = kept
  editable-Good old next ComposeState.sending e goes = kept
  editable-Good old next ComposeState.outcome_unknown e goes = kept

  send_unless-Good :
      (old new : ComposeDraft) (refused : Option ApiErrorCode)
      → draft_by_id (param call) before ≡ some old
      → old.state ≡ ComposeState.draft
      → new.id ≡ old.id
      → route ≡ send
      → refused_send new ≡ refused
      → Good (send_unless call refused new s)
  unfolding Leaves send_unless put_draft record_row sent_draft refused_send email_text
  send_unless-Good old new (some code) found editable same sends e = kept
  send_unless-Good old new none found editable same sends e =
      sent_off old (sent_draft call.now new) found editable same sends refl e

  send_found-Good :
      (old : ComposeDraft) (at : ComposeState)
      → draft_by_id (param call) before ≡ some old
      → old.state ≡ at
      → route ≡ send
      → Good (send_found call at old s)
  unfolding Leaves send_found apply
  send_found-Good old ComposeState.sent found e sends = kept
  send_found-Good old ComposeState.draft found e sends =
      send_unless-Good old (apply call old) _ found e refl sends refl
  send_found-Good old ComposeState.sending found e sends = kept
  send_found-Good old ComposeState.outcome_unknown found e sends = kept

  settle_found-Good : (old : ComposeDraft) (at : ComposeState) → Good (settle_found at old s)
  unfolding Leaves settle_found
  settle_found-Good old ComposeState.sent = kept
  settle_found-Good old ComposeState.draft = kept
  settle_found-Good old ComposeState.sending = kept
  settle_found-Good old ComposeState.outcome_unknown = kept

  removed-Good :
      (old : ComposeDraft) (was_sent : Bool)
      → draft_by_id (param call) before ≡ some old
      → route ≡ remove
      → Good (removed call was_sent old s)
  unfolding Leaves removed record_row
  removed-Good old was_sent found e =
      rw (draft_by_id-id (param call) old before found) (taken_out e)

  remove_found-Good :
      (old : ComposeDraft) (at : ComposeState)
      → draft_by_id (param call) before ≡ some old
      → route ≡ remove
      → Good (remove_found call at old s)
  unfolding Leaves remove_found
  remove_found-Good old ComposeState.sent found e = removed-Good old true found e
  remove_found-Good old ComposeState.draft found e = removed-Good old false found e
  remove_found-Good old ComposeState.sending found e = kept
  remove_found-Good old ComposeState.outcome_unknown found e = kept

on_draft-Leaves :
    (given : ComposeData) (route : ComposeRoute) (call : Call) (s : DemoState) (old : ComposeDraft)
    → draft_by_id (param call) s.compose_drafts ≡ some old
    → Leaves (param call) route s.compose_drafts (on_draft given route call old s)
unfolding on_draft apply patch_draft Leaves
on_draft-Leaves given compose_list call s old found = kept
on_draft-Leaves given create call s old found = kept
on_draft-Leaves given get_draft call s old found = kept
on_draft-Leaves given patch call s old found =
    editable-Good given patch call s old _ old.state refl λ is.
      patch-Good given patch call s old (apply call old) found is refl is
        (ok (saved (apply call old)))
on_draft-Leaves given remove call s old found =
    remove_found-Good given remove call s old old.state found refl
on_draft-Leaves given write call s old found =
    editable-Good given write call s old _ old.state refl
      λ is. write-Good given write call s old (apply call old) found is refl is
on_draft-Leaves given refine call s old found =
    editable-Good given refine call s old _ old.state refl
      λ is. refine-Good given refine call s old (apply call old) found is refl is
on_draft-Leaves given send call s old found =
    send_found-Good given send call s old old.state found refl refl
on_draft-Leaves given settle call s old found = settle_found-Good given settle call s old old.state

with_found-Leaves :
    (given : ComposeData) (route : ComposeRoute) (call : Call) (s : DemoState)
    (o : Option ComposeDraft)
    → draft_by_id (param call) s.compose_drafts ≡ o
    → Leaves (param call) route s.compose_drafts (with_found o (on_draft given route call) s)
unfolding with_found Leaves
with_found-Leaves given route call s none e = kept
with_found-Leaves given route call s (some old) e = on_draft-Leaves given route call s old e

-- A call of Compose leaves the drafts as they were, changes one draft that was a draft and still is,
-- sends off one draft that passes every check, adds a draft, or takes out those of one id.
pub handle_compose-Change :
    (given : ComposeData) (route : ComposeRoute) (call : Call) (s : DemoState)
    → Leaves (param call) route s.compose_drafts (handle_compose given route call s)
unfolding handle_compose create_draft new_draft apply Leaves
handle_compose-Change given compose_list call s = kept
handle_compose-Change given create call s = created _ refl
handle_compose-Change given get_draft call s = with_found-Leaves given get_draft call s _ refl
handle_compose-Change given patch call s = with_found-Leaves given patch call s _ refl
handle_compose-Change given remove call s = with_found-Leaves given remove call s _ refl
handle_compose-Change given write call s = with_found-Leaves given write call s _ refl
handle_compose-Change given refine call s = with_found-Leaves given refine call s _ refl
handle_compose-Change given send call s = with_found-Leaves given send call s _ refl
handle_compose-Change given settle call s = with_found-Leaves given settle call s _ refl
