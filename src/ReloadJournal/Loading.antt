-- ===== src/ReloadJournal/Loading.antt =====
-- The recovery in `PluginManager.load_all` of agent/plugins/manager.py: before any plugin is activated the
-- sources of the committed generations are checked and the candidates discarded; afterwards each committed
-- generation is confirmed, if it is the current one.
use kirakira_agent_online.Prelude.{
  ℕ, String, true, false, Option, none, some, List, [], ◌∷◌, is_text, if◌then◌else◌, Result, ok,
  err,
}
use kirakira_agent_online.ReloadJournal.{
  ReloadRecoveryAction, Journal, JournalError, restores, pending_recovery, finish_recovery,
}

-- The exceptions of `load_all`; `activation_failed` is one that the activation of the plugins raises.
pub data LoadError : Type 0 where
  missing_plugin : (plugin_id : String) → LoadError
  source_differs : (plugin_id expected actual : String) → LoadError
  generation_differs : (plugin_id expected : String) → (actual : Option String) → LoadError
  activation_failed : String → LoadError
  journal_error : JournalError → LoadError

-- What was done stays in the journal when an exception ends the loop.
abbrev pub Loaded : Type 0
Loaded = Result LoadError (Unit {0}) × Journal

abbrev pub source_error : ReloadRecoveryAction → Option String → LoadError
source_error a none = missing_plugin a.plugin_id
source_error a (some actual) = source_differs a.plugin_id a.source_revision actual

-- `sources` gives the source revision of each plugin that was discovered.
unfoldable pub check_sources :
    (String → Option String) → List ReloadRecoveryAction → Result LoadError (Unit {0})
check_sources sources [] = ok tt
check_sources sources (a ∷ actions) =
    let rest = check_sources sources actions in
    if restores a.action
    then (if is_text (sources a.plugin_id) a.source_revision
        then rest
        else err (source_error a (sources a.plugin_id)))
    else rest

unfoldable pub discard_each : List ReloadRecoveryAction → ℕ → Journal → Loaded
unfolding finish_recovery
discard_each [] now j = (ok tt, j)
discard_each (a ∷ actions) now j = elim (restores a.action) [
  | true ↦ discard_each actions now j
  | false ↦ elim (finish_recovery a now j) [
    | err e ↦ (err (journal_error e), j)
    | ok j' ↦ discard_each actions now j'
  ]
]

-- `currents` gives the id of each plugin's current generation.
unfoldable pub confirm_each :
    (String → Option String) → List ReloadRecoveryAction → ℕ → Journal → Loaded
unfolding finish_recovery
confirm_each currents [] now j = (ok tt, j)
confirm_each currents (a ∷ actions) now j = elim (restores a.action) [
  | false ↦ confirm_each currents actions now j
  | true ↦ elim (is_text (currents a.plugin_id) a.generation_id) [
    | false ↦ (err (generation_differs a.plugin_id a.generation_id (currents a.plugin_id)), j)
    | true ↦ elim (finish_recovery a now j) [
      | err e ↦ (err (journal_error e), j)
      | ok j' ↦ confirm_each currents actions now j'
    ]
  ]
]

-- `activation` is what the activation of the plugins between the two loops comes to, `currents` the
-- generations that it has published.
unfoldable pub recover_all :
    (sources : String → Option String)
    → (activation : Result String (Unit {0})) → (currents : String → Option String) → ℕ
    → Journal
    → Loaded
unfolding check_sources discard_each confirm_each
recover_all sources activation currents now j =
    let recovery = pending_recovery j in
    elim (check_sources sources recovery) [
      | err e ↦ (err e, j)
      | ok u ↦
          let discarded = discard_each recovery now j in
          elim discarded.0 [
            | err e ↦ discarded
            | ok u ↦ elim activation [
              | err e ↦ (err (activation_failed e), discarded.1)
              | ok u ↦ confirm_each currents recovery now discarded.1
            ]
          ]
    ]
