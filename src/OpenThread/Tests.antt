-- ===== src/OpenThread/Tests.antt =====
-- extension/useOpenThread.ts: two tabs, in turn and not.
use aimail.Base.{true, false, some, List, [], ◌∷◌, codes, ◌≡◌, refl}
use aimail.OpenThread.{
  gmail, Tab, Message, text, done, PanelEvent, activated, queried, replied, first_panel, start_ask,
  ask_at, set_ask, show, on_query, query_done, reply_done, thread_report, reported_thread, is_text,
  panel_step, run_panel,
}
use aimail.OpenThread.Current.{IsInTurn, pending, run_panel-current}
use aimail.OpenThread.Urls.{hex_from_perm_id, hex, hex_from, number_from, starts_with}

abbrev mail : Tab
mail = record { id = some 1; is_gmail = true }

abbrev news : Tab
news = record { id = some 2; is_gmail = false }

abbrev report : Message
report = record {
  type = some (codes "aimail:thread-changed");
  thread_id = some (text (codes "18f"));
}

abbrev in_turn : List PanelEvent
in_turn = queried 0 (some mail) ∷ replied 0 report ∷ []

run_panel-current_example :
    (run_panel in_turn first_panel).said_by ≡ (run_panel in_turn first_panel).active
unfolding IsInTurn pending run_panel panel_step query_done on_query reply_done ask_at set_ask show
run_panel-current_example = run_panel-current in_turn (refl, (refl, tt)) refl refl

-- The reader leaves the Gmail tab while it is being asked: its answer, which comes after the other
-- tab turned out not to be Gmail's, is put on screen.
late_reply :
    (run_panel
      (queried 0 (some mail) ∷ activated ∷ queried 1 (some news) ∷ replied 0 report ∷ [])
      first_panel)
    ≡ record {
      shown = record { tab = gmail; thread_id = some (codes "18f") };
      active = some 2;
      asks = done ∷ done ∷ [];
      said_by = some 1;
    }
unfolding run_panel panel_step query_done on_query reply_done start_ask ask_at set_ask show
    thread_report reported_thread is_text
late_reply = refl

perm_id_255 : hex_from_perm_id (codes "thread-f:255") ≡ some (codes "ff")
unfolding hex_from_perm_id hex hex_from number_from starts_with
perm_id_255 = refl
