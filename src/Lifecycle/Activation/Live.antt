-- ===== src/Lifecycle/Activation/Live.antt =====
-- At most one live policy of a routing key: what an activation does to the rows that the
-- orchestrator reads.
use newchanges.Base.{
  ℕ, ◌+◌, true, ◌&&◌, some, String, eq_iff, [], keep-append, ◌≡◌, ◌∙◌, arith, Bool-cases,
  Option-cases, inl, inr,
}
use newchanges.Base.Float.{Float}
use newchanges.Lifecycle.Records.{
  OptimizationStatus, PolicyStatus, policy_status_eq, Recommendation, Database, find_recommendation,
  get_active_policy, get_latest_version_number, active_rows, of_key, status_eq,
}
use newchanges.Lifecycle.Activation.{
  WorkloadTypes, Activate, resolve_workload_type, target_complexity, validate_policy, activate,
  apply_policy, supersede, new_policy,
}
use newchanges.Lifecycle.Activation.Versions.{activates}
use newchanges.Lifecycle.Activation.Superseded.{OneLive, with_new-OneLive, active-live, cleared}

module _ {ℓ} {F : Type ℓ} ⦃f : Float F⦄ (types : WorkloadTypes) (id : String) (a : Activate F)
    (db : Database F) where
  own_key-new :
      (rec : Recommendation F) (kind : String) (n : ℕ)
      → of_key rec.tenant_id kind target_complexity (new_policy a rec kind n) ≡ true
  own_key-new rec kind n = ground (arith, eq_iff rec.tenant_id rec.tenant_id, eq_iff kind kind)

  activate-OneLive :
      (rec : Recommendation F) (kind : String)
      → OneLive db.policies
      → OneLive (activate a rec kind db).1.policies
  activate-OneLive rec kind one =
      with_new-OneLive rec.tenant_id kind target_complexity (new_policy a rec kind version)
        db.policies (own_key-new rec kind version) one
    where
      version : ℕ
      version =
          get_latest_version_number rec.tenant_id kind (
            supersede (get_active_policy rec.tenant_id kind target_complexity db.policies)
              db.policies)
          + 1

  -- An activation keeps at most one live policy of every routing key, whatever it answers.
  pub apply_policy-OneLive : OneLive db.policies → OneLive (apply_policy types id a db).1.policies
  unfolding apply_policy
  apply_policy-OneLive one = elim (Option-cases (find_recommendation id db.recommendations)) [
    | inl missing ↦ rw (missing, apply_policy) one
    | inr (rec, found) ↦ elim (Bool-cases (status_eq rec.status OptimizationStatus.approved)) [
      | inl ok ↦ elim (Bool-cases (validate_policy rec)) [
        | inl valid ↦
            rw (activates types id a db rec found (ground (arith, ok)) valid)
              (activate-OneLive rec (resolve_workload_type types rec.workload_id) one)
        | inr invalid ↦ rw (found, apply_policy) (rw ok (rw invalid one))
      ]
      | inr other ↦ rw (found, apply_policy) (rw other one)
    ]
  ]

  activate-canary :
      (rec : Recommendation F) (kind : String)
      → a.is_canary ≡ true
      → OneLive db.policies
      → active_rows rec.tenant_id kind target_complexity (activate a rec kind db).1.policies ≡ []
  unfolding active_rows
  activate-canary rec kind c one =
      keep-append
        (λ p.
          of_key rec.tenant_id kind target_complexity p
          && policy_status_eq p.status PolicyStatus.active)
        (supersede (get_active_policy rec.tenant_id kind target_complexity db.policies) db.policies)
        _
      ∙ rw
          (active-live rec.tenant_id kind target_complexity _ (
            cleared rec.tenant_id kind target_complexity db.policies
              (one rec.tenant_id kind target_complexity)))
          (rw c (ground arith))

  -- Where at most one policy of every key is live, after an activation of an approved and valid
  -- recommendation in CANARY mode the orchestrator finds no ACTIVE policy for the key: the
  -- predecessor is superseded and the new policy is not ACTIVE.
  pub apply_policy-canary :
      (rec : Recommendation F)
      → find_recommendation id db.recommendations ≡ some rec
      → rec.status ≡ OptimizationStatus.approved
      → validate_policy rec ≡ true
      → a.is_canary ≡ true
      → OneLive db.policies
      → active_rows rec.tenant_id
          (resolve_workload_type types rec.workload_id)
          target_complexity
          (apply_policy types id a db).1.policies
        ≡ []
  apply_policy-canary rec found ok valid c one =
      rw (activates types id a db rec found ok valid)
        (activate-canary rec (resolve_workload_type types rec.workload_id) c one)
