-- ===== src/ReloadJournal/Startup.antt =====
-- How the recovery of `PluginManager.load_all` (agent/plugins/manager.py) ends, by what it finds installed.
use kirakira_agent_online.Prelude.{
  ℕ, ◌≡◌, refl, sym, subst, ◌∙◌, inl, inr, String, ◌&&◌, not, Option, [], arith, ◌==◌, Result, ok,
  err, count, All,
}
use kirakira_agent_online.ReloadJournal.{
  ReloadRecoveryAction, Journal, restores, find_transaction, pending_recovery,
}
use kirakira_agent_online.ReloadJournal.Loading.{
  generation_differs, activation_failed, Loaded, source_error, check_sources, recover_all,
}
use kirakira_agent_online.ReloadJournal.Recovery.{
  Unique, is_candidate, pending_recovery-Pending, pending_recovery-done, pending_recovery-distinct,
  pending_recovery-candidates, pending_recovery-length,
}
use kirakira_agent_online.ReloadJournal.Loops.{
  FirstUnfit, Confirmed, all_confirmed, stopped, SourceFits, GenerationFits, check_sources-Checked,
  Discarded, discard_each-Discarded, confirm_each-Confirmed,
}

-- No candidate is pending any more.
abbrev pub NoCandidates : Journal → Type 0
NoCandidates j = count (λ a. not (restores a.action)) (pending_recovery j) ≡ 0

Discarded-NoCandidates :
    (now : ℕ) (j j' : Journal)
    → Discarded (pending_recovery j) now j j'
    → count is_candidate j'.transactions ≡ 0
Discarded-NoCandidates now j j' x = omega (arith, x.candidates, pending_recovery-candidates j)

-- The four ways in which the recovery of a journal ends.
-- - `completed`: each committed generation has its source installed and is the current one after the
--   activation, which succeeds. No recovery is pending.
-- - `source_unfit`: the source of a committed generation is missing or another one. The error names the
--   first such action, and the journal is as it was.
-- - `not_activated`: the sources fit and the activation fails. No candidate is pending, and each transaction
--   that was not discarded is as it was.
-- - `generation_unfit`: the sources fit, the activation succeeds and a committed generation is not the
--   current one. The error names the first such action, whose transaction is as it was; no candidate is
--   pending.
pub data RecoveryEnd (sources : String → Option String) (activation : Result String (Unit {0}))
    (currents : String → Option String) (j : Journal) : Loaded → Type 0 where
  completed :
      (j' : Journal)
      → activation ≡ ok tt
      → All (SourceFits sources) (pending_recovery j)
      → All (GenerationFits currents) (pending_recovery j)
      → pending_recovery j' ≡ []
      → RecoveryEnd sources activation currents j (ok tt, j')
  source_unfit :
      (a : ReloadRecoveryAction)
      → FirstUnfit (SourceFits sources) (pending_recovery j) a
      → RecoveryEnd sources activation currents j (err (source_error a (sources a.plugin_id)), j)
  not_activated :
      (e : String) (j' : Journal)
      → activation ≡ err e
      → All (SourceFits sources) (pending_recovery j)
      → NoCandidates j'
      → ((k : ℕ)
          → count (λ a. not (restores a.action) && a.tx_id == k) (pending_recovery j) ≡ 0
          → find_transaction k j' ≡ find_transaction k j)
      → RecoveryEnd sources activation currents j (err (activation_failed e), j')
  generation_unfit :
      (a : ReloadRecoveryAction) (j' : Journal)
      → activation ≡ ok tt
      → All (SourceFits sources) (pending_recovery j)
      → FirstUnfit (GenerationFits currents) (pending_recovery j) a
      → NoCandidates j'
      → find_transaction a.tx_id j' ≡ find_transaction a.tx_id j
      → RecoveryEnd sources activation currents j
          (err (generation_differs a.plugin_id a.generation_id (currents a.plugin_id)), j')

after_discard :
    (sources : String → Option String) (activation : Result String (Unit {0}))
    (currents : String → Option String) (now : ℕ) (j jd : Journal)
    → All (SourceFits sources) (pending_recovery j)
    → check_sources sources (pending_recovery j) ≡ ok tt
    → Discarded (pending_recovery j) now j jd
    → Confirmed currents (pending_recovery j) now jd
    → RecoveryEnd sources activation currents j (recover_all sources activation currents now j)
unfolding recover_all
after_discard sources (err t) currents now j jd fit e x confirmed =
    let ends : recover_all sources (err t) currents now j ≡ (err (activation_failed t), jd) =
      rw (e, recover_all) (rw x.answer (rw x.answer refl)) in
    subst (RecoveryEnd sources (err t) currents j) (sym ends) (
      not_activated t jd refl fit
        (pending_recovery-candidates jd ∙ Discarded-NoCandidates now j jd x) x.others)
after_discard sources (ok u) currents now j jd fit e x (all_confirmed j' all c n) =
    let ends : recover_all sources (ok u) currents now j ≡ (ok tt, j') =
      rw (e, recover_all) (rw x.answer (rw x.answer c)) in
    subst (RecoveryEnd sources (ok u) currents j) (sym ends) (
      completed j' refl fit all
        (pending_recovery-done j' (omega (arith, n, x.fewer, pending_recovery-length j))))
after_discard sources (ok u) currents now j jd fit e x (stopped j' a f c same g n o) =
    let ends : recover_all sources (ok u) currents now j
        ≡ (err (generation_differs a.plugin_id a.generation_id (currents a.plugin_id)), j') =
      rw (e, recover_all) (rw x.answer (rw x.answer c)) in
    subst (RecoveryEnd sources (ok u) currents j) (sym ends) (
      generation_unfit a j' refl fit f
        (pending_recovery-candidates j' ∙ same ∙ Discarded-NoCandidates now j jd x)
        (g ∙ x.others a.tx_id o))

-- The recovery of a new process, on a journal whose transactions have unique ids, ends in one of four ways,
-- whatever phases the old process left them in, whatever is installed and whatever the activation comes to:
-- completed with nothing pending, where every committed generation has its source and is the current one;
-- or with the error of the first committed generation whose source does not fit, and the journal as it was;
-- or with the error of the activation, and each transaction that was not discarded as it was; or with the
-- error of the first committed generation that is not the current one, and its transaction as it was. After
-- the last two no candidate is pending. The journal itself refuses none of the recoveries.
pub recovery_decides :
    (sources : String → Option String) (activation : Result String (Unit {0}))
    (currents : String → Option String) (now : ℕ) (j : Journal)
    → Unique j
    → RecoveryEnd sources activation currents j (recover_all sources activation currents now j)
unfolding recover_all
recovery_decides sources activation currents now j u =
    elim (check_sources-Checked sources (pending_recovery j)) [
      | inr (a, f, e) ↦
          let ends : recover_all sources activation currents now j
              ≡ (err (source_error a (sources a.plugin_id)), j) =
            rw (e, recover_all) refl in
          subst (RecoveryEnd sources activation currents j) (sym ends) (source_unfit a f)
      | inl (fit, e) ↦
          let d = pending_recovery-distinct j u in
          let (jd, x) =
            discard_each-Discarded (pending_recovery j) now j u d (pending_recovery-Pending j u) in
          after_discard sources activation currents now j jd fit e x
            (confirm_each-Confirmed currents (pending_recovery j) now jd x.unique d x.committed)
    ]
