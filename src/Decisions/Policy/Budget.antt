-- ===== src/Decisions/Policy/Budget.antt =====
-- The action budget of backend/app/decisions/policy.py, over any run of decisions.
use continuous_auth.Common.{
  ℕ, ◌+◌, ◌≤◌, ◌<◌, ◌≡◌, refl, ◌⊎◌, inl, inr, Bool, true, false, List, [], ◌∷◌, ◌++◌, arith, ltb,
  if◌then◌else◌, length, length-append, count_if, count_if-le-length, sym, ◌∙◌,
}
use continuous_auth.Contracts.{DecisionAction}
use continuous_auth.Decisions.Policy.{
  RiskSettings, cooldown_us, DecisionPolicy, new_policy, expire, decide,
}
use continuous_auth.Decisions.Policy.Runs.{Request, History, InOrder, end_of, record_applied, run}

-- A time at most one cooldown before `now`.
abbrev pub within : ℕ → ℕ → ℕ → Bool
within cooldown now t = ltb now (t + cooldown)

abbrev pub within_entry : ℕ → ℕ → DecisionAction × ℕ → Bool
within_entry cooldown now (_, t) = within cooldown now t

expire-within :
    (cooldown now n : ℕ) (ts : List ℕ)
    → now ≤ n
    → count_if (within cooldown n) (expire cooldown now ts) ≡ count_if (within cooldown n) ts
unfolding expire
expire-within cooldown now n [] h = refl
expire-within cooldown now n (t ∷ ts) h = ground (arith, expire-within cooldown now n ts)

count_if-snoc :
    (p : ℕ → Bool) (ts : List ℕ) (t : ℕ)
    → count_if p (ts ++ t ∷ []) ≡ count_if p ts + (if p t then 1 else 0)
count_if-snoc p [] t = ground arith
count_if-snoc p (x ∷ ts) t = ground (arith, count_if-snoc p ts t)

length-expire : (cooldown now : ℕ) (ts : List ℕ) → length (expire cooldown now ts) ≤ length ts
unfolding expire
length-expire cooldown now [] = omega arith
length-expire cooldown now (t ∷ ts) = ground (arith, length-expire cooldown now ts)

module _ {F : Type 0} (settings : RiskSettings F) where
  -- The policy's deque counts what the history holds, from now on.
  abbrev Counts : ℕ → History → DecisionPolicy → Type 0
  Counts now h p =
      ((n : ℕ)
        → now ≤ n
        → count_if (within_entry (cooldown_us settings) n) h
          ≡ count_if (within (cooldown_us settings) n) p.applied_times)
      × (length p.applied_times ≤ settings.risk.action_budget)

  decide-times :
      (q : Request) (p : DecisionPolicy)
      → let (r, p') = decide settings q.level q.high_count q.now q.enabled p in
        ((r.enforcement_applied ≡ false)
          × ((p'.applied_times ≡ p.applied_times)
              ⊎ (p'.applied_times ≡ expire (cooldown_us settings) q.now p.applied_times)))
        ⊎ ((r.enforcement_applied ≡ true)
            × (length (expire (cooldown_us settings) q.now p.applied_times)
                < settings.risk.action_budget)
            × (p'.applied_times
                ≡ expire (cooldown_us settings) q.now p.applied_times ++ q.now ∷ []))
  unfolding decide
  decide-times q p = ground arith

  step-Counts :
      (start : ℕ) (q : Request) (h : History) (p : DecisionPolicy)
      → start ≤ q.now
      → Counts start h p
      → let (r, p') = decide settings q.level q.high_count q.now q.enabled p in
        Counts q.now (record_applied settings r q.now h) p'
  unfolding record_applied
  step-Counts start q h p le (same, few) =
      let (r, p') = decide settings q.level q.high_count q.now q.enabled p in
      let c = cooldown_us settings in
      let kept = expire c q.now p.applied_times in
      elim (decide-times q p) [
        | inl (off, inl e) ↦ (λ n hn. rw (off, e) (same n (omega arith)), rw e few)
        | inl (off, inr e) ↦ (
          λ n hn.
              rw (off, e) (same n (omega arith) ∙ sym (expire-within c q.now n p.applied_times hn)),
          rw e (omega (arith, length-expire c q.now p.applied_times)),
        )
        | inr (on, room, e) ↦ (
          λ n hn. ground (
            arith,
            same n,
            expire-within c q.now n p.applied_times hn,
            count_if-snoc (within c n) kept q.now,
          ),
          rw e (omega (arith, length-append kept (q.now ∷ []))),
        )
      ]

  run-Counts :
      (start : ℕ) (qs : List Request) (h : History) (p : DecisionPolicy)
      → InOrder start qs
      → Counts start h p
      → let (h', p') = run settings qs (h, p) in Counts (end_of start qs) h' p'
  unfolding run end_of
  run-Counts start [] h p o c = c
  run-Counts start (q ∷ qs) h p o c =
      let (r, p') = decide settings q.level q.high_count q.now q.enabled p in
      run-Counts q.now qs (record_applied settings r q.now h) p' o.1 (step-Counts start q h p o.0 c)

  count-le-length :
      (n : ℕ) (h : History) (p : DecisionPolicy)
      → Counts n h p
      → count_if (within_entry (cooldown_us settings) n) h ≤ settings.risk.action_budget
  count-le-length n h p (same, few) = omega (
    arith,
    same n (omega arith),
    count_if-le-length (within (cooldown_us settings) n) p.applied_times,
  )

  -- The action budget: for requests in the order of their times, made of a new policy, the actions
  -- applied less than one cooldown before the last request are never more than the budget.
  pub run-within_budget :
      (qs : List Request)
      → InOrder 0 qs
      → let (h, _) = run settings qs ([], new_policy) in
        count_if (within_entry (cooldown_us settings) (end_of 0 qs)) h ≤ settings.risk.action_budget
  unfolding new_policy
  run-within_budget qs o =
      let (h, p) = run settings qs ([], new_policy) in
      count-le-length (end_of 0 qs) h p
        (run-Counts 0 qs [] new_policy o ((λ n hn. refl), omega arith))
