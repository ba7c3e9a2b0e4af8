-- ===== src/Samples/Journal.antt =====
-- The reload journal of agent/plugins/reload_journal.py at concrete inputs.
use kirakira_agent_online.Prelude.{
  ℕ, String, Option, Option, sort_by, err, ◌≡◌, refl, arith, none, some, List, [], ◌∷◌, ok, end,
  find, put,
}
use kirakira_agent_online.ReloadJournal.{
  ReloadPhase, prepared, validating, commit_started, ReloadTransactionRecord, Journal, Opening,
  Step, find_transaction, events_of, pending_recovery, recovery_action, finish_recovery, opened,
  begin, advance, advance_row, advanced, append_event, can_advance, transitions, phase_eq,
}
use kirakira_agent_online.ReloadJournal.Recovery.{Unique}
use kirakira_agent_online.ReloadJournal.Loading.{
  missing_plugin, check_sources, discard_each, confirm_each, recover_all,
}
use kirakira_agent_online.ReloadJournal.Startup.{RecoveryEnd, recovery_decides}
use kirakira_agent_online.ReloadJournal.History.{
  JournalCall, begin_call, advance_call, write, writes, result_or, empty, Trail, history-Trail,
}

abbrev opening : ℕ → Opening
opening k = record {
  tx_id = k;
  plugin_id = "calendar";
  base_snapshot_id = none;
  generation_id = "g";
  source_revision = "s";
  config_revision = "c";
}

abbrev step_to : ReloadPhase → Step
step_to p = record { phase = p; candidate_snapshot_id = none; details = end; error = "" }

-- One replacement crashed in its commit, another one before it was prepared.
abbrev crash : List JournalCall
crash =
    begin_call (opening 1) 10
    ∷ advance_call 1 (step_to prepared) 11
    ∷ advance_call 1 (step_to validating) 12
    ∷ advance_call 1 (step_to commit_started) 13
    ∷ begin_call (opening 2) 14
    ∷ []

abbrev crashed_row : ReloadTransactionRecord
crashed_row = record {
  tx_id = 1;
  plugin_id = "calendar";
  base_snapshot_id = none;
  candidate_snapshot_id = none;
  generation_id = "g";
  source_revision = "s";
  config_revision = "c";
  phase = commit_started;
  started_at = 10;
  updated_at = 13;
  error = "";
}

crashed_row_found : find_transaction 1 (writes crash empty) ≡ some crashed_row
unfolding find_transaction writes write result_or begin advance advance_row opened advanced
    append_event can_advance transitions phase_eq find put
crashed_row_found = refl

history-Trail_example : Trail (events_of 1 (writes crash empty)) commit_started
history-Trail_example = history-Trail crash 1 crashed_row crashed_row_found

-- The two rows as the crashed process left them.
abbrev left_open : Journal
left_open = record {
  transactions = crashed_row ∷ opened (opening 2) 14 ∷ [];
  events = [];
  next_sequence = 6;
}

left_open-Unique : Unique left_open
unfolding opened
left_open-Unique = record { once = λ k. ground arith }

-- The crashed plugin is installed as it was, and its generation is the current one.
abbrev installed : String → Option String
installed plugin_id = some crashed_row.source_revision

abbrev current : String → Option String
current plugin_id = some crashed_row.generation_id

recovery_decides_example :
    RecoveryEnd installed
      (ok tt)
      current
      left_open
      (recover_all installed (ok tt) current 20 left_open)
recovery_decides_example = recovery_decides installed (ok tt) current 20 left_open left_open-Unique

-- It completes there, and with another source it is refused.
recover_all_runs :
    ((recover_all installed (ok tt) current 20 left_open).0 ≡ ok tt)
    × ((recover_all (λ plugin_id. none) (ok tt) current 20 left_open).0
        ≡ err (missing_plugin crashed_row.plugin_id))
unfolding recover_all opened pending_recovery recovery_action sort_by discard_each confirm_each
    check_sources finish_recovery find put
recover_all_runs = (refl, refl)
