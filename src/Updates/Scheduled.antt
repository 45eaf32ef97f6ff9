-- ===== src/Updates/Scheduled.antt =====
-- backend/app/updates/manager.py: the scheduled run of `UpdateManager`, on the tables that
-- backend/app/updates/repository.py keeps for it. The database is taken to answer; what can raise is
-- the builder of the candidate profile, a parameter. The rows of finished runs are kept with their
-- status.
use continuous_auth.Common.{
  ℕ, ◌+◌, Bool, true, false, ◌&&◌, ◌||◌, Option, none, some, List, [], ◌∷◌, ◌++◌, map, String, leb,
  ltb, ◌==◌, same_text, values, store, if◌then◌else◌,
}
use Prim.Native.String.{compare}
use text.Mathlib.Text.{is_lt}
use continuous_auth.Risk.Assessment.{Floats}
use continuous_auth.Updates.Candidates.{
  UpdateCandidate, UpdateManagerConfig, is_promoted, is_eligible, promoted, rejected, days,
  reassess, is_settled,
}

module _ (N : Floats) where
  -- The rates; a missing one was not measured.
  pub record ValidationMetrics : Type 0 where
    pub false_rejection_rate : N.F
    pub false_acceptance_rate : Option N.F

  pub record CandidateBuild : Type 0 where
    pub profile_version : String
    pub keyboard_artifact_version : Option String
    pub mouse_artifact_version : Option String
    pub aggregate_checksum : String
    pub baseline_metrics : ValidationMetrics
    pub candidate_metrics : ValidationMetrics

pub data RunStatus : Type 0 where
  running run_rejected activated run_failed : RunStatus

-- The codes of runs and of validations.
pub data RunCode : Type 0 where
  not_finished no_eligible_candidates profile_activated update_job_failed : RunCode
  fixed_cadence_not_due : RunCode
  validation_passed validation_regression validation_far_unmeasured : RunCode

pub record UpdateRun : Type 0 where
  pub run_id : String
  pub user_id : String
  pub scheduled_for : ℕ
  pub status : RunStatus
  pub code : RunCode

pub record ModelProfile : Type 0 where
  pub profile_version : String
  pub user_id : String
  pub keyboard_artifact_version : Option String
  pub mouse_artifact_version : Option String
  pub aggregate_checksum : String
  pub created_at : ℕ

-- The tables, and the calls of `activate_profile`.
pub record UpdateTables : Type 0 where
  pub candidates : List (String × UpdateCandidate)
  pub runs : List UpdateRun
  pub activations : List ModelProfile

-- the status of an outcome with a run is the run's; without one it is SKIPPED
pub record UpdateRunOutcome : Type 0 where
  pub run_id : Option String
  pub status : Option RunStatus
  pub code : RunCode
  pub profile : Option ModelProfile

unfoldable pub save_candidate : UpdateCandidate → UpdateTables → UpdateTables
save_candidate c t = record t { candidates = store c.candidate_id c t.candidates }

unfoldable pub save_all : List UpdateCandidate → UpdateTables → UpdateTables
unfolding save_candidate
save_all [] t = t
save_all (c ∷ cs) t = save_all cs (save_candidate c t)

-- `ORDER BY quarantined_at_utc, candidate_id`
abbrev pub precedes : UpdateCandidate → UpdateCandidate → Bool
precedes c d =
    ltb c.quarantined_at d.quarantined_at
    || (c.quarantined_at == d.quarantined_at && is_lt (compare c.candidate_id d.candidate_id))

abbrev pub insert_ordered : UpdateCandidate → List UpdateCandidate → List UpdateCandidate
insert_ordered c [] = c ∷ []
insert_ordered c (d ∷ ds) =
    let rest = insert_ordered c ds in if precedes d c then d ∷ rest else c ∷ d ∷ ds

abbrev pub rows_of : String → List UpdateCandidate → List UpdateCandidate
rows_of user_id [] = []
rows_of user_id (c ∷ cs) =
    let rest = rows_of user_id cs in
    if same_text c.user_id user_id then insert_ordered c rest else rest

unfoldable pub candidates_for_user : String → UpdateTables → List UpdateCandidate
candidates_for_user user_id t = rows_of user_id (values t.candidates)

abbrev pub is_activated : RunStatus → Bool
is_activated activated = true
is_activated running = false
is_activated run_rejected = false
is_activated run_failed = false

-- `schedule_due`: the cadence has passed since each activated run of the user
unfoldable pub schedule_due : String → ℕ → ℕ → List UpdateRun → Bool
schedule_due user_id now cadence [] = true
schedule_due user_id now cadence (r ∷ rs) =
    let rest = schedule_due user_id now cadence rs in
    if same_text r.user_id user_id && is_activated r.status
    then leb (r.scheduled_for + cadence) now && rest
    else rest

unfoldable pub begin_run : String → String → ℕ → UpdateTables → UpdateTables
begin_run run_id user_id scheduled_for t =
    let run : UpdateRun = record {
      run_id = run_id;
      user_id = user_id;
      scheduled_for = scheduled_for;
      status = running;
      code = not_finished;
    } in
    record t { runs = t.runs ++ run ∷ [] }

abbrev pub is_running : RunStatus → Bool
is_running running = true
is_running run_rejected = false
is_running activated = false
is_running run_failed = false

unfoldable pub finish_runs : String → RunStatus → RunCode → List UpdateRun → List UpdateRun
finish_runs run_id status code [] = []
finish_runs run_id status code (r ∷ rs) =
    let rest = finish_runs run_id status code rs in
    if same_text r.run_id run_id && is_running r.status
    then record r { status = status; code = code } ∷ rest
    else r ∷ rest

-- `finish_run`, and the outcome of the run
unfoldable pub finish :
    String
    → RunStatus
    → RunCode
    → Option ModelProfile
    → UpdateTables
    → UpdateRunOutcome × UpdateTables
unfolding finish_runs
finish run_id status code profile t = (
  record { run_id = some run_id; status = some status; code = code; profile = profile },
  record t { runs = finish_runs run_id status code t.runs },
)

-- The candidate as it is promoted for the run.
unfoldable pub promote : UpdateCandidate → UpdateCandidate
promote c =
    let updated = record c {
      disposition = promoted;
      reason_code = "PROMOTED_FOR_SCHEDULED_RETRAINING";
      audit_revision = c.audit_revision + 1;
    } in
    if is_promoted c.disposition then c else updated

-- The candidate of a run whose model was worse.
unfoldable pub reject : UpdateCandidate → UpdateCandidate
reject c = record c {
  disposition = rejected;
  reason_code = "MODEL_VALIDATION_REGRESSION";
  audit_revision = c.audit_revision + 1;
}

-- Those that are eligible or promoted, each promoted.
unfoldable pub promotable : List UpdateCandidate → List UpdateCandidate
unfolding promote
promotable [] = []
promotable (c ∷ cs) =
    let rest = promotable cs in
    if is_eligible c.disposition || is_promoted c.disposition then promote c ∷ rest else rest

module _ {F : Type 0} (config : UpdateManagerConfig F) where
  -- `reassess` of a run, for each candidate; a settled one is not saved
  unfoldable pub reassess_all :
      ℕ → List UpdateCandidate → UpdateTables → List UpdateCandidate × UpdateTables
  unfolding save_candidate
  reassess_all now [] t = ([], t)
  reassess_all now (c ∷ cs) t =
      let c' = reassess config now true c in
      let (rest, t') =
        reassess_all now cs (if is_settled c.disposition then t else save_candidate c' t) in
      (c' ∷ rest, t')

module _ (N : Floats) (config : UpdateManagerConfig N.F) where
  compare_rates : Option N.F → Option N.F → CandidateBuild N → RunCode
  compare_rates none candidate build = validation_far_unmeasured
  compare_rates (some baseline) none build = validation_far_unmeasured
  compare_rates (some baseline) (some candidate) build =
      let frr =
        N.sub build.candidate_metrics.false_rejection_rate
          build.baseline_metrics.false_rejection_rate in
      let far = N.sub candidate baseline in
      if N.le frr config.regression_tolerance && N.le far config.regression_tolerance
      then validation_passed
      else validation_regression

  -- `_validate`: the code, VALIDATION_PASSED where the report is accepted
  unfoldable pub validate : CandidateBuild N → RunCode
  unfolding compare_rates
  validate build =
      compare_rates build.baseline_metrics.false_acceptance_rate
        build.candidate_metrics.false_acceptance_rate build

  profile_of : String → ℕ → CandidateBuild N → ModelProfile
  profile_of user_id scheduled_for build = record {
    profile_version = build.profile_version;
    user_id = user_id;
    keyboard_artifact_version = build.keyboard_artifact_version;
    mouse_artifact_version = build.mouse_artifact_version;
    aggregate_checksum = build.aggregate_checksum;
    created_at = scheduled_for;
  }

  -- What follows the validation.
  unfoldable pub conclude :
      String
      → String
      → ℕ
      → List UpdateCandidate
      → CandidateBuild N
      → RunCode
      → UpdateTables
      → UpdateRunOutcome × UpdateTables
  unfolding profile_of
  conclude run_id user_id scheduled_for cs build validation_passed t =
      let p = profile_of user_id scheduled_for build in
      finish run_id activated profile_activated (some p)
        (record t { activations = t.activations ++ p ∷ [] })
  conclude run_id user_id scheduled_for cs build code t =
      finish run_id run_rejected code none (save_all (map reject cs) t)

  -- What follows the call of the builder; none is an exception.
  unfoldable pub validate_build :
      String
      → String
      → ℕ
      → List UpdateCandidate
      → Option (CandidateBuild N)
      → UpdateTables
      → UpdateRunOutcome × UpdateTables
  validate_build run_id user_id scheduled_for cs none t =
      finish run_id run_failed update_job_failed none t
  validate_build run_id user_id scheduled_for cs (some build) t =
      conclude run_id user_id scheduled_for cs build (validate build) t

  -- The training of a run, with the candidates that it promotes.
  unfoldable pub train :
      (String → List UpdateCandidate → Option (CandidateBuild N))
      → String
      → String
      → ℕ
      → List UpdateCandidate
      → UpdateTables
      → UpdateRunOutcome × UpdateTables
  train builder run_id user_id scheduled_for [] t =
      finish run_id run_rejected no_eligible_candidates none t
  train builder run_id user_id scheduled_for (c ∷ cs) t =
      validate_build run_id user_id scheduled_for (c ∷ cs) (builder user_id (c ∷ cs))
        (save_all (c ∷ cs) t)

  unfoldable pub run_scheduled :
      (String → List UpdateCandidate → Option (CandidateBuild N))
      → String
      → String
      → ℕ
      → UpdateTables
      → UpdateRunOutcome × UpdateTables
  run_scheduled builder run_id user_id scheduled_for t =
      let begun = begin_run run_id user_id scheduled_for t in
      let (assessed, t') =
        reassess_all config scheduled_for (candidates_for_user user_id begun) begun in
      let trained = train builder run_id user_id scheduled_for (promotable assessed) t' in
      if schedule_due user_id scheduled_for (days config.retraining_cadence_days) t.runs
      then trained
      else (
        record { run_id = none; status = none; code = fixed_cadence_not_due; profile = none },
        t,
      )
