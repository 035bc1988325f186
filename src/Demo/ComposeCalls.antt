-- ===== src/Demo/ComposeCalls.antt =====
-- demo/compose.ts: the handlers of Compose's routes. A draft is the object that the list holds, so
-- what a handler assigns before it refuses stays.
use aimail.Base.{
  ◌+◌, Bool, true, false, not, Option, none, some, List, [], ◌∷◌, ◌++◌, Text, String, length,
  filter, find, ◌===◌, if◌then◌else◌,
}
use aimail.ComposeDraft.{ComposeDraft, ComposeState}
use aimail.ComposeList.{ComposeList, empty_compose_list, with_draft}
use aimail.Demo.Types.{
  Call, api_error, ApiErrorCode, empty, conflict, already_sent, send_in_progress, words, count,
  truth, DemoState, Result, ok, err, M,
}
use aimail.Demo.Json.{param}
use aimail.Demo.State.{refused_not_found, record_row}
use aimail.Demo.Compose.{
  ComposeData, apply, is_blank, refused_send, sent_draft, new_draft, written, refined_body,
  refined_draft,
}

pub data ComposeAnswer : Type 0 where
  nothing : ComposeAnswer
  saved : ComposeDraft → ComposeAnswer
  listed : ComposeList → ComposeAnswer

-- The routes of `COMPOSE_ROUTES`, in order.
pub data ComposeRoute : Type 0 where
  compose_list create get_draft patch remove write refine send settle : ComposeRoute

unfoldable pub draft_by_id : String → List ComposeDraft → Option ComposeDraft
draft_by_id id drafts = find (λ draft. draft.id === id) drafts

-- The object that `find` gave, changed: the first with that id.
unfoldable pub assign_draft : String → ComposeDraft → List ComposeDraft → List ComposeDraft
assign_draft id changed [] = []
assign_draft id changed (draft ∷ drafts) =
    if draft.id === id then changed ∷ drafts else draft ∷ assign_draft id changed drafts

unfoldable pub put_draft : String → ComposeDraft → DemoState → DemoState
put_draft id changed s = record s { compose_drafts = assign_draft id changed s.compose_drafts }

-- `findDraft`, and what follows it.
unfoldable pub with_found : Option ComposeDraft → (ComposeDraft → M ComposeAnswer) → M ComposeAnswer
with_found none next s = (s, err refused_not_found)
with_found (some draft) next s = next draft s

-- `editableDraft` of a found draft, and what follows it.
unfoldable pub when_editable : ComposeState → M ComposeAnswer → M ComposeAnswer
when_editable ComposeState.draft next s = next s
when_editable ComposeState.sent next s = (s, err (api_error 409 already_sent))
when_editable ComposeState.sending next s = (s, err (api_error 409 send_in_progress))
when_editable ComposeState.outcome_unknown next s = (s, err (api_error 409 send_in_progress))

unfoldable pub patch_draft : Call → ComposeDraft → M ComposeAnswer
patch_draft call draft s =
    (put_draft (param call) (apply call draft) s, ok (saved (apply call draft)))

unfoldable pub refine_with : Call → Result Text → ComposeDraft → M ComposeAnswer
refine_with call (err e) draft s = (s, err e)
refine_with call (ok body) draft s = (
  record_row "compose_refined" (("draft", words draft.id) ∷ ("review", truth false) ∷ []) call.now
      (put_draft (param call) (refined_draft call.now body draft) s),
  ok (saved (refined_draft call.now body draft)),
)

unfoldable pub send_unless : Call → Option ApiErrorCode → ComposeDraft → M ComposeAnswer
send_unless call (some refused) email s = (s, err (api_error 422 refused))
send_unless call none email s = (
  record_row "compose_sent"
      (("draft", words email.id)
        ∷ ("recipients", count (length email.to + length email.cc))
        ∷ ("restored", count (length email.details))
        ∷ [])
      call.now (put_draft (param call) (sent_draft call.now email) s),
  ok (saved (sent_draft call.now email)),
)

unfoldable pub send_found : Call → ComposeState → ComposeDraft → M ComposeAnswer
send_found call ComposeState.sent draft s = (s, ok (saved draft))
send_found call ComposeState.draft draft s =
    send_unless call (refused_send (apply call draft)) (apply call draft) s
send_found call ComposeState.sending draft s = (s, err (api_error 409 send_in_progress))
send_found call ComposeState.outcome_unknown draft s = (s, err (api_error 409 send_in_progress))

unfoldable pub settle_found : ComposeState → ComposeDraft → M ComposeAnswer
settle_found ComposeState.outcome_unknown draft s = (s, ok (saved draft))
settle_found _ draft s = (s, err (api_error 409 conflict))

unfoldable pub removed : Call → Bool → ComposeDraft → M ComposeAnswer
removed call was_sent draft s = (
  record_row "compose_deleted" (("draft", words draft.id) ∷ ("was_sent", truth was_sent) ∷ [])
      call.now
      (record s {
        compose_drafts = filter (λ other. not (other.id === draft.id)) s.compose_drafts;
      }),
  ok nothing,
)

unfoldable pub remove_found : Call → ComposeState → ComposeDraft → M ComposeAnswer
remove_found call ComposeState.sent draft s = removed call true draft s
remove_found call ComposeState.draft draft s = removed call false draft s
remove_found call ComposeState.sending draft s = (s, err (api_error 409 send_in_progress))
remove_found call ComposeState.outcome_unknown draft s = (s, err (api_error 409 send_in_progress))

-- `composeList`: the drafts put one by one into the empty list.
pub list_of : ComposeList → List ComposeDraft → ComposeList
list_of list [] = list
list_of list (draft ∷ drafts) = list_of (with_draft list draft) drafts

module _ (given : ComposeData) where
  unfoldable pub write_draft : Call → ComposeDraft → M ComposeAnswer
  write_draft call draft s =
      if is_blank draft.brief
      then (put_draft (param call) draft s, err (api_error 422 empty))
      else (
        record_row "compose_written"
            (("draft", words draft.id)
              ∷ ("sources", count (length given.sources))
              ∷ ("review", truth false)
              ∷ [])
            call.now
            (put_draft (param call) (written given call.now draft)
              (put_draft (param call) draft s)),
        ok (saved (written given call.now draft)),
      )

  unfoldable pub refine_draft : Call → ComposeDraft → M ComposeAnswer
  refine_draft call draft s =
      if is_blank draft.body
      then (put_draft (param call) draft s, err (api_error 422 empty))
      else refine_with call (refined_body given call) draft (put_draft (param call) draft s)

  unfoldable pub create_draft : Call → M ComposeAnswer
  create_draft call s = (
    record s {
      compose_drafts = s.compose_drafts ++ new_draft given call (length s.compose_drafts + 1) ∷ [];
    },
    ok (saved (new_draft given call (length s.compose_drafts + 1))),
  )

  -- What each handler does with the draft that it found; the first two look for none.
  unfoldable pub on_draft : ComposeRoute → Call → ComposeDraft → M ComposeAnswer
  on_draft compose_list call draft s = (s, ok (saved draft))
  on_draft create call draft s = (s, ok (saved draft))
  on_draft get_draft call draft s = (s, ok (saved draft))
  on_draft patch call draft s = when_editable draft.state (patch_draft call draft) s
  on_draft remove call draft s = remove_found call draft.state draft s
  on_draft write call draft s = when_editable draft.state (write_draft call (apply call draft)) s
  on_draft refine call draft s = when_editable draft.state (refine_draft call (apply call draft)) s
  on_draft send call draft s = send_found call draft.state draft s
  on_draft settle call draft s = settle_found draft.state draft s

  -- The handlers of `COMPOSE_ROUTES`.
  unfoldable pub handle_compose : ComposeRoute → Call → M ComposeAnswer
  handle_compose compose_list call s =
      (s, ok (listed (list_of empty_compose_list s.compose_drafts)))
  handle_compose create call s = create_draft call s
  handle_compose route call s =
      with_found (draft_by_id (param call) s.compose_drafts) (on_draft route call) s
