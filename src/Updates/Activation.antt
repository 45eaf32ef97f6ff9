-- ===== src/Updates/Activation.antt =====
-- What a profile that backend/app/updates/manager.py activates has behind it, and runs of its calls.
use continuous_auth.Common.{
  ℕ, ◌≡◌, ◌⊎◌, refl, ◌∙◌, subst, inl, inr, true, Option, none, some, List, [], ◌∷◌, ◌++◌, map,
  String, All, Bool-cases, Option-cases, ◌≢◌, ◌+◌, ◌≤◌, false, same_text, eq_iff, arith,
}
use continuous_auth.Risk.Assessment.{Floats}
use continuous_auth.Updates.Candidates.{
  UpdateCandidate, UpdateManagerConfig, is_settled, reassess, days,
}
use continuous_auth.Updates.Scheduled.{
  UpdateTables, CandidateBuild, RunCode, RunStatus, UpdateRun, activated, is_activated,
  ModelProfile, validation_passed, save_candidate, save_all, candidates_for_user, begin_run, finish,
  reject, promotable, reassess_all, validate, conclude, validate_build, train, run_scheduled,
  schedule_due,
}
use continuous_auth.Updates.Gates.{passed, promotable-passed}
use continuous_auth.Updates.Tables.{IsSound, assessed-IsSound}

save_all-activations :
    (cs : List UpdateCandidate) (t : UpdateTables) → (save_all cs t).activations ≡ t.activations
unfolding save_all save_candidate
save_all-activations [] t = refl
save_all-activations (c ∷ cs) t = save_all-activations cs (save_candidate c t)

reassess_all-activations :
    {F : Type 0} (config : UpdateManagerConfig F) (now : ℕ) (cs : List UpdateCandidate)
    (t : UpdateTables)
    → (reassess_all config now cs t).1.activations ≡ t.activations
unfolding reassess_all save_candidate
reassess_all-activations config now [] t = refl
reassess_all-activations config now (c ∷ cs) t = elim (Bool-cases (is_settled c.disposition)) [
  | inl e ↦ rw e (reassess_all-activations config now cs t)
  | inr e ↦
      rw e (reassess_all-activations config now cs (save_candidate (reassess config now true c) t))
]

begin_run-activations :
    (run_id user_id : String) (now : ℕ) (t : UpdateTables)
    → (begin_run run_id user_id now t).activations ≡ t.activations
unfolding begin_run
begin_run-activations run_id user_id now t = refl

different : (s t : String) → same_text s t ≡ false → s ≢ t
different s t h e = ground (arith, h, e, eq_iff s t)

not_activated : (s : RunStatus) → is_activated s ≡ false → s ≢ activated
not_activated s h e = ground (arith, h, e)

-- The run is of another user, or activated nothing, or the cadence has passed since.
abbrev pub IsPast : String → ℕ → ℕ → UpdateRun → Type 0
IsPast user_id now cadence r =
    (r.user_id ≢ user_id) ⊎ (r.status ≢ activated) ⊎ (r.scheduled_for + cadence ≤ now)

schedule_due-IsPast :
    (user_id : String) (now cadence : ℕ) (rs : List UpdateRun)
    → schedule_due user_id now cadence rs ≡ true
    → All (IsPast user_id now cadence) rs
unfolding schedule_due
schedule_due-IsPast user_id now cadence [] h = tt
schedule_due-IsPast user_id now cadence (r ∷ rs) h =
    elim (Bool-cases (same_text r.user_id user_id)) [
      | inr e ↦ (
        inl (different r.user_id user_id e),
        schedule_due-IsPast user_id now cadence rs (ground (arith, h, e)),
      )
      | inl e ↦ elim (Bool-cases (is_activated r.status)) [
        | inr a ↦ (
          inr (inl (not_activated r.status a)),
          schedule_due-IsPast user_id now cadence rs (ground (arith, h, e, a)),
        )
        | inl a ↦ (
          inr (inr (ground (arith, h, e, a))),
          schedule_due-IsPast user_id now cadence rs (ground (arith, h, e, a)),
        )
      ]
    ]

module _ (N : Floats) (config : UpdateManagerConfig N.F) where
  -- Both rates of false acceptance were measured, and neither rate of errors exceeds the baseline's by
  -- more than the tolerance.
  abbrev pub IsNoWorse : CandidateBuild N → Type 0
  IsNoWorse build =
      (far far' : N.F) × (build.baseline_metrics.false_acceptance_rate ≡ some far)
      × (build.candidate_metrics.false_acceptance_rate ≡ some far')
      × (N.le (N.sub far' far) config.regression_tolerance ≡ true)
      × (N.le
            (N.sub build.candidate_metrics.false_rejection_rate
              build.baseline_metrics.false_rejection_rate)
            config.regression_tolerance
          ≡ true)

  validate-IsNoWorse :
      (build : CandidateBuild N) → validate N config build ≡ validation_passed → IsNoWorse build
  unfolding validate
  validate-IsNoWorse build h = elim (Option-cases build.baseline_metrics.false_acceptance_rate) [
    | inl n ↦ absurd (ground (arith, h, n))
    | inr (far, n) ↦ elim (Option-cases build.candidate_metrics.false_acceptance_rate) [
      | inl m ↦ absurd (ground (arith, h, n, m))
      | inr (far', m) ↦ (far, far', n, m, ground (arith, h, n, m), ground (arith, h, n, m))
    ]
  ]

  -- A profile of this user is activated with these candidates behind it.
  abbrev pub Activates :
      (String → List UpdateCandidate → Option (CandidateBuild N))
      → String
      → List UpdateCandidate
      → List ModelProfile
      → List ModelProfile
      → Type 0
  Activates builder user_id cs before after =
      (build : CandidateBuild N) × (p : ModelProfile) × (builder user_id cs ≡ some build)
      × IsNoWorse build
      × (p.user_id ≡ user_id)
      × (p.profile_version ≡ build.profile_version)
      × (after ≡ before ++ p ∷ [])

  conclude-activations :
      (run_id user_id : String) (now : ℕ) (cs : List UpdateCandidate) (build : CandidateBuild N)
      (code : RunCode) (t : UpdateTables)
      → let after = (conclude N config run_id user_id now cs build code t).1.activations in
        (after ≡ t.activations)
        ⊎ ((code ≡ validation_passed)
            × ((p : ModelProfile) × (p.user_id ≡ user_id)
                × (p.profile_version ≡ build.profile_version)
                × (after ≡ t.activations ++ p ∷ [])))
  unfolding conclude finish
  conclude-activations run_id user_id now cs build validation_passed t =
      inr (refl, (_, refl, refl, refl))
  conclude-activations run_id user_id now cs build code t =
      inl (save_all-activations (map reject cs) t)

  -- The builder's answer decides.
  validate_build-activations :
      (builder : String → List UpdateCandidate → Option (CandidateBuild N))
      (run_id user_id : String) (now : ℕ) (cs : List UpdateCandidate)
      (o : Option (CandidateBuild N)) (t : UpdateTables)
      → builder user_id cs ≡ o
      → let after = (validate_build N config run_id user_id now cs o t).1.activations in
        (after ≡ t.activations) ⊎ Activates builder user_id cs t.activations after
  unfolding validate_build finish
  validate_build-activations builder run_id user_id now cs none t h = inl refl
  validate_build-activations builder run_id user_id now cs (some build) t h =
      elim (conclude-activations run_id user_id now cs build (validate N config build) t) [
        | inl same ↦ inl same
        | inr (v, (p, u, n, e)) ↦ inr (build, p, h, validate-IsNoWorse build v, u, n, e)
      ]

  train-activations :
      (builder : String → List UpdateCandidate → Option (CandidateBuild N))
      (run_id user_id : String) (now : ℕ) (cs : List UpdateCandidate) (t : UpdateTables)
      → let after = (train N config builder run_id user_id now cs t).1.activations in
        (after ≡ t.activations) ⊎ Activates builder user_id cs t.activations after
  unfolding train finish
  train-activations builder run_id user_id now [] t = inl refl
  train-activations builder run_id user_id now (c ∷ cs) t =
      let saved = save_all (c ∷ cs) t in
      subst
        (λ before.
          let after =
            (validate_build N config run_id user_id now (c ∷ cs) (builder user_id (c ∷ cs))
              saved).1.activations in
          (after ≡ before) ⊎ Activates builder user_id (c ∷ cs) before after)
        (save_all-activations (c ∷ cs) t)
        (validate_build-activations builder run_id user_id now (c ∷ cs) (builder user_id (c ∷ cs))
          saved refl)

  -- A scheduled run activates at most one profile, for its user, and only where the cadence has passed
  -- since each run that activated one for this user, the builder was given candidates that are all
  -- promoted with their six gates passed and no incident, and built a profile with both rates of
  -- false acceptance measured, whose rates of false acceptance and false rejection exceed the
  -- baseline's by no more than the tolerance. Every other run, a failing builder included, activates
  -- nothing.
  pub run_scheduled-activations :
      (builder : String → List UpdateCandidate → Option (CandidateBuild N))
      (run_id user_id : String) (now : ℕ) (t : UpdateTables)
      → IsSound t
      → let after = (run_scheduled N config builder run_id user_id now t).1.activations in
        (after ≡ t.activations)
        ⊎ (All (IsPast user_id now (days config.retraining_cadence_days)) t.runs
            × ((cs : List UpdateCandidate) × All (λ c. passed c ≡ true) cs
                × Activates builder user_id cs t.activations after))
  unfolding run_scheduled
  run_scheduled-activations builder run_id user_id now t a =
      let begun = begin_run run_id user_id now t in
      let (cs, t') = reassess_all config now (candidates_for_user user_id begun) begun in
      let (h, a') = assessed-IsSound N config run_id user_id now t a in
      let same =
        reassess_all-activations config now (candidates_for_user user_id begun) begun
        ∙ begin_run-activations run_id user_id now t in
      elim (Bool-cases (schedule_due user_id now (days config.retraining_cadence_days) t.runs)) [
        | inr e ↦ rw e (inl refl)
        | inl e ↦
            rw e
              (elim (subst
                (λ before.
                  let after =
                    (train N config builder run_id user_id now (promotable cs) t').1.activations in
                  (after ≡ before) ⊎ Activates builder user_id (promotable cs) before after)
                same (train-activations builder run_id user_id now (promotable cs) t')) [
                  | inl none_activated ↦ inl none_activated
                  | inr done ↦ inr (
                    schedule_due-IsPast user_id now (days config.retraining_cadence_days) t.runs e,
                    (promotable cs, promotable-passed cs h, done),
                  )
                ])
      ]
