-- ===== src/ComposeEditor/Saving.antt =====
-- lib/useComposeDraft.ts: `saveNow`, and how a save ends.
use aimail.Base.{false, List, [], ◌∷◌, ◌++◌, if◌then◌else◌}
use aimail.ComposeEditor.Types.{Editor, saving, saved, failed}
use aimail.ComposeEditor.Edits.{Edits, spread, has_changes}

unfoldable pub clear_timer : Editor → Editor
clear_timer w = record w { is_timer_set = false }

-- The changes join the chain of saves.
unfoldable pub save_now : Editor → Editor
save_now w =
    if has_changes w.unsaved
    then record w {
      is_timer_set = false;
      unsaved = [];
      save_status = saving;
      queue = w.queue ++ w.unsaved ∷ [];
    }
    else clear_timer w

-- The save under way succeeded.
unfoldable pub save_done : Edits → List Edits → Editor → Editor
save_done changes rest w = record w {
  queue = rest;
  saves_made = w.saves_made ++ changes ∷ [];
  save_status = saved;
}

-- The save under way failed: its changes are kept for the next save, under what was typed since.
unfoldable pub save_failed : Edits → List Edits → Editor → Editor
save_failed changes rest w = record w {
  queue = rest;
  unsaved = spread changes w.unsaved;
  save_status = failed;
}
