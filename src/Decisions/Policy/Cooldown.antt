-- ===== src/Decisions/Policy/Cooldown.antt =====
-- The cooldown of backend/app/decisions/policy.py, over any run of decisions.
use continuous_auth.Common.{
  ℕ, ◌+◌, ◌≤◌, ◌≡◌, refl, ◌⊎◌, inl, inr, Bool, true, false, not, ◌||◌, ◌&&◌, every, All, Option,
  none, some, List, [], ◌∷◌, arith, leb, sym, subst, Bool-cases, Option-cases,
}
use continuous_auth.Contracts.{DecisionAction, same_action}
use continuous_auth.Decisions.Policy.{
  RiskSettings, cooldown_us, DecisionPolicy, new_policy, update, cooling, decide,
}
use continuous_auth.Decisions.Policy.Runs.{Request, History, record_applied, run}

same_action-eq : (a b : DecisionAction) → same_action a b ≡ true → a ≡ b
same_action-eq a b h = ground arith

same_action_self : (a : DecisionAction) → same_action a a ≡ true
same_action_self a = ground arith

module _ {F : Type 0} (settings : RiskSettings F) where
  -- An action applied at `t` comes at least one cooldown after an earlier one of its kind.
  abbrev pub apart : DecisionAction → ℕ → DecisionAction × ℕ → Bool
  apart a t (b, u) = not (same_action b a) || leb (u + cooldown_us settings) t

  abbrev pub spaced : History → Bool
  spaced [] = true
  spaced ((a, t) ∷ h) = every (apart a t) h && spaced h

  abbrev NoLater : ℕ → Option ℕ → Type 0
  NoLater t none = ⊥
  NoLater t (some last) = t ≤ last

  -- The policy knows a time for every action in the history, and it is not an earlier one.
  abbrev Known : DecisionPolicy → DecisionAction × ℕ → Type 0
  Known p (a, t) = NoLater t (p.last_by_action a)

  decide-last :
      (q : Request) (p : DecisionPolicy)
      → let (r, p') = decide settings q.level q.high_count q.now q.enabled p in
        ((r.enforcement_applied ≡ false) × (p'.last_by_action ≡ p.last_by_action))
        ⊎ ((r.enforcement_applied ≡ true)
            × (cooling (cooldown_us settings) q.now (p.last_by_action r.emitted) ≡ false)
            × (p'.last_by_action ≡ update p.last_by_action r.emitted q.now))
  unfolding decide
  decide-last q p = ground arith

  Known-apart :
      (a : DecisionAction) (now : ℕ) (h : History) (p : DecisionPolicy)
      → All (Known p) h
      → cooling (cooldown_us settings) now (p.last_by_action a) ≡ false
      → every (apart a now) h ≡ true
  Known-apart a now [] p k c = refl
  Known-apart a now ((b, t) ∷ h) p k c =
      let rest = Known-apart a now h p k.1 c in
      elim (Bool-cases (same_action b a)) [
        | inr differ ↦ ground (arith, rest)
        | inl alike ↦ elim (Option-cases (p.last_by_action a)) [
          | inl never ↦ absurd (ground (arith, same_action-eq b a alike))
          | inr (l, e) ↦ ground (arith, rest, same_action-eq b a alike)
        ]
      ]

  Known-le :
      (a : DecisionAction) (now t : ℕ) (p : DecisionPolicy)
      → Known p (a, t)
      → cooling (cooldown_us settings) now (p.last_by_action a) ≡ false
      → t ≤ now
  Known-le a now t p k c = elim (Option-cases (p.last_by_action a)) [
    | inl never ↦ absurd (rw never at k)
    | inr (l, e) ↦ ground arith
  ]

  -- The entry of an action after an update of the table.
  update-NoLater :
      (a b : DecisionAction) (now t : ℕ) (p : DecisionPolicy)
      → cooling (cooldown_us settings) now (p.last_by_action a) ≡ false
      → Known p (b, t)
      → NoLater t (update p.last_by_action a now b)
  update-NoLater a b now t p c k = elim (Bool-cases (same_action b a)) [
    | inr differ ↦ rw differ k
    | inl alike ↦ rw alike (
        Known-le a now t p
          (subst (λ (x : DecisionAction). Known p (x, t)) (same_action-eq b a alike) k) c)
  ]

  Known-update :
      (a : DecisionAction) (now : ℕ) (h : History) (p p' : DecisionPolicy)
      → p'.last_by_action ≡ update p.last_by_action a now
      → cooling (cooldown_us settings) now (p.last_by_action a) ≡ false
      → All (Known p) h
      → All (Known p') h
  Known-update a now [] p p' e c k = tt
  Known-update a now ((b, t) ∷ h) p p' e c k = (
    subst (λ (f : DecisionAction → Option ℕ). NoLater t (f b)) (sym e)
        (update-NoLater a b now t p c k.0),
    Known-update a now h p p' e c k.1,
  )

  Known-same :
      (h : History) (p p' : DecisionPolicy)
      → p'.last_by_action ≡ p.last_by_action
      → All (Known p) h
      → All (Known p') h
  Known-same [] p p' e k = tt
  Known-same ((b, t) ∷ h) p p' e k = (
    subst (λ (f : DecisionAction → Option ℕ). NoLater t (f b)) (sym e) k.0,
    Known-same h p p' e k.1,
  )

  update_self :
      (a : DecisionAction) (now : ℕ) (p : DecisionPolicy)
      → NoLater now (update p.last_by_action a now a)
  update_self a now p = rw (same_action_self a) (omega arith)

  step-spaced :
      (q : Request) (h : History) (p : DecisionPolicy)
      → All (Known p) h × (spaced h ≡ true)
      → let (r, p') = decide settings q.level q.high_count q.now q.enabled p in
        All (Known p') (record_applied settings r q.now h)
        × (spaced (record_applied settings r q.now h) ≡ true)
  unfolding record_applied
  step-spaced q h p (k, s) =
      let (r, p') = decide settings q.level q.high_count q.now q.enabled p in
      elim (decide-last q p) [
        | inl (off, e) ↦ rw off (Known-same h p p' e k, s)
        | inr (on, c, e) ↦ rw on (
          (
            subst (λ (f : DecisionAction → Option ℕ). NoLater q.now (f r.emitted)) (sym e)
                (update_self r.emitted q.now p),
            Known-update r.emitted q.now h p p' e c k,
          ),
          ground (arith, Known-apart r.emitted q.now h p k c),
        )
      ]

  run-spaced_from :
      (qs : List Request) (h : History) (p : DecisionPolicy)
      → All (Known p) h × (spaced h ≡ true)
      → spaced (run settings qs (h, p)).0 ≡ true
  unfolding run
  run-spaced_from [] h p k = k.1
  run-spaced_from (q ∷ qs) h p k =
      let (r, p') = decide settings q.level q.high_count q.now q.enabled p in
      run-spaced_from qs (record_applied settings r q.now h) p' (step-spaced q h p k)

  -- The cooldown: whatever is requested of a new policy, two applied actions of one kind are at
  -- least one cooldown apart.
  pub run-spaced : (qs : List Request) → spaced (run settings qs ([], new_policy)).0 ≡ true
  run-spaced qs = run-spaced_from qs [] new_policy (tt, refl)
