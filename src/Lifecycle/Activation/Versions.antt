-- ===== src/Lifecycle/Activation/Versions.antt =====
-- When an activation goes through, and the version that it creates.
use newchanges.Base.{
  ℕ, ◌+◌, ◌≤◌, leb, ltb, Bool, true, not, ◌||◌, Option, none, some, String, List, [], ◌∷◌, ◌++◌,
  map, All, All-map, ◌≡◌, refl, sym, ap, ◌∙◌, arith, Bool-cases, Option-cases, inl, inr,
}
use mathlib.Core.Path.{subst}
use newchanges.Base.Float.{Float}
use newchanges.Lifecycle.Records.{
  OptimizationStatus, PolicyStatus, Recommendation, RoutingPolicy, Database, find_recommendation,
  write_recommendation, write_status, get_active_policy, get_latest_version_number, status_eq,
  of_line,
}
use newchanges.Lifecycle.Records.Lookup.{
  find_recommendation-id, find-write_recommendation, contents, contents-write_status,
}
use newchanges.Lifecycle.Approval.{PolicyError, done, refused}
use newchanges.Lifecycle.Activation.{
  WorkloadTypes, Activate, resolve_workload_type, target_complexity, validate_policy, activate,
  apply_policy, supersede, new_policy, applied, id_of,
}

module _ {ℓ} {F : Type ℓ} where
  -- the policy is of another line, or of an earlier version
  abbrev pub is_earlier : RoutingPolicy F → RoutingPolicy F → Bool
  is_earlier new p = not (of_line new.tenant_id new.workload_type p) || ltb p.version new.version

  abbrev versions_below : String → String → ℕ → RoutingPolicy F → Bool
  versions_below tenant kind n p = not (of_line tenant kind p) || leb p.version n

  latest_version-bounds :
      (tenant kind : String) (ps : List (RoutingPolicy F)) (n : ℕ)
      → get_latest_version_number tenant kind ps ≤ n
      → All (λ p. versions_below tenant kind n p ≡ true) ps
  unfolding get_latest_version_number
  latest_version-bounds tenant kind [] n h = tt
  latest_version-bounds tenant kind (p ∷ ps) n h =
      (ground (arith, h), latest_version-bounds tenant kind ps n (ground (arith, h)))

  latest_version-write_status :
      (tenant kind id : String) (s : PolicyStatus) (ps : List (RoutingPolicy F))
      → get_latest_version_number tenant kind (write_status id s ps)
        ≡ get_latest_version_number tenant kind ps
  unfolding get_latest_version_number write_status
  latest_version-write_status tenant kind id s [] = refl
  latest_version-write_status tenant kind id s (p ∷ ps) =
      ground (arith, latest_version-write_status tenant kind id s ps)

  map-append :
      (xs ys : List (RoutingPolicy F))
      → map contents (xs ++ ys) ≡ map contents xs ++ map contents ys
  map-append [] ys = refl
  map-append (x ∷ xs) ys = ap (λ l. contents x ∷ l) (map-append xs ys)

module _ {ℓ} {F : Type ℓ} ⦃f : Float F⦄ (types : WorkloadTypes) (id : String) (a : Activate F)
    (db : Database F) where
  -- An activation of `rec` that answered `r` and the policy `p`.
  pub record IsActivation (rec r : Recommendation F) (p : RoutingPolicy F) (db' : Database F)
      : Type ℓ where
    pub found : find_recommendation id db.recommendations ≡ some rec
    pub was_approved : rec.status ≡ OptimizationStatus.approved
    pub was_valid : validate_policy rec ≡ true
    pub stored : find_recommendation id db'.recommendations ≡ some r
    pub now_applied : (r.status ≡ OptimizationStatus.applied) × (r.applied_policy_id ≡ some p.id)
    pub newest : All (λ q. is_earlier p q ≡ true) db.policies
    pub kept : map contents db'.policies ≡ map contents db.policies ++ contents p ∷ []
    pub audits : db'.audits ≡ db.audits

  applied-id : (s : Option String) (x : Recommendation F) → (applied a s x).id ≡ x.id
  applied-id s x = refl

  -- A refused activation leaves the database as it was.
  pub apply_policy-refused :
      (e : PolicyError)
      → (apply_policy types id a db).0 ≡ refused e
      → (apply_policy types id a db).1 ≡ db
  unfolding apply_policy
  apply_policy-refused e h = ground arith

  latest_version-supersede :
      (tenant kind : String) (c : Option (RoutingPolicy F)) (ps : List (RoutingPolicy F))
      → get_latest_version_number tenant kind (supersede c ps)
        ≡ get_latest_version_number tenant kind ps
  latest_version-supersede tenant kind none ps = refl
  latest_version-supersede tenant kind (some p) ps =
      latest_version-write_status tenant kind p.id PolicyStatus.superseded ps

  contents-supersede :
      (c : Option (RoutingPolicy F)) (ps : List (RoutingPolicy F))
      → map contents (supersede c ps) ≡ map contents ps
  contents-supersede none ps = refl
  contents-supersede (some p) ps = contents-write_status p.id PolicyStatus.superseded ps

  pub activates :
      (rec : Recommendation F)
      → find_recommendation id db.recommendations ≡ some rec
      → rec.status ≡ OptimizationStatus.approved
      → validate_policy rec ≡ true
      → apply_policy types id a db ≡ activate a rec (resolve_workload_type types rec.workload_id) db
  unfolding apply_policy
  activates rec found ok valid = ground arith

  -- what `activate` does, with the predecessor that it found
  pub activated :
      (rec : Recommendation F) (kind : String) (c : Option (RoutingPolicy F)) (n : ℕ)
      → find_recommendation id db.recommendations ≡ some rec
      → rec.status ≡ OptimizationStatus.approved
      → validate_policy rec ≡ true
      → get_latest_version_number rec.tenant_id kind db.policies ≡ n
      → IsActivation rec (applied a (id_of c) rec) (new_policy a rec kind (n + 1)) (record db {
        recommendations = write_recommendation rec.id (applied a (id_of c)) db.recommendations;
        policies = supersede c db.policies ++ new_policy a rec kind (n + 1) ∷ [];
      })
  activated rec kind c n found ok valid e = record {
    found = found;
    was_approved = ok;
    was_valid = valid;
    stored =
        subst
          (λ k.
            find_recommendation id (write_recommendation k (applied a (id_of c)) db.recommendations)
            ≡ some (applied a (id_of c) rec))
          (sym (find_recommendation-id id db.recommendations rec found))
          (find-write_recommendation id (applied a (id_of c)) db.recommendations rec
            (applied-id (id_of c)) found);
    now_applied = (refl, refl);
    newest =
        All-map _ _ db.policies (λ q h. ground (arith, h))
          (latest_version-bounds rec.tenant_id kind db.policies n (ground (arith, e)));
    kept =
        map-append (supersede c db.policies) (new_policy a rec kind (n + 1) ∷ [])
        ∙ ap (λ l. l ++ contents (new_policy a rec kind (n + 1)) ∷ [])
            (contents-supersede c db.policies);
    audits = refl;
  }

  abbrev pub kind_of : Recommendation F → String
  kind_of rec = resolve_workload_type types rec.workload_id

  -- the predecessor of an activation of `rec`
  abbrev pub current_of : Recommendation F → Option (RoutingPolicy F)
  current_of rec = get_active_policy rec.tenant_id (kind_of rec) target_complexity db.policies

  abbrev pub answer_on : Recommendation F → Recommendation F × RoutingPolicy F
  answer_on rec = (
    applied a (id_of (current_of rec)) rec,
    new_policy a rec (kind_of rec) (
        get_latest_version_number rec.tenant_id (kind_of rec)
          (supersede (current_of rec) db.policies)
        + 1),
  )

  -- an activation that goes through, by the row that it was on
  pub record IsAnswer (r : Recommendation F) (p : RoutingPolicy F) (rec : Recommendation F)
      : Type ℓ where
    pub found : find_recommendation id db.recommendations ≡ some rec
    pub was_approved : rec.status ≡ OptimizationStatus.approved
    pub was_valid : validate_policy rec ≡ true
    pub answer : ◌≡◌ {A = Recommendation F × RoutingPolicy F} (answer_on rec) (r, p)

  pub apply_policy-IsAnswer :
      (r : Recommendation F) (p : RoutingPolicy F)
      → (apply_policy types id a db).0 ≡ done (r, p)
      → (rec : Recommendation F) × IsAnswer r p rec
  unfolding apply_policy
  apply_policy-IsAnswer r p e = elim (Option-cases (find_recommendation id db.recommendations)) [
    | inl missing ↦ ground (arith, missing)
    | inr (rec, found) ↦ elim (Bool-cases (status_eq rec.status OptimizationStatus.approved)) [
      | inl ok ↦ elim (Bool-cases (validate_policy rec)) [
        | inl valid ↦ (
          rec,
          record {
            found = found;
            was_approved = ground (arith, ok);
            was_valid = valid;
            answer =
                done_inj _ _
                  (sym (ap (λ x. x.0) (activates rec found (ground (arith, ok)) valid)) ∙ e);
          },
        )
        | inr invalid ↦ ground (arith, found, ok, invalid)
      ]
      | inr other ↦ ground (arith, found, other)
    ]
  ]
    where
      done_inj : (x y : Recommendation F × RoutingPolicy F) → done x ≡ done y → x ≡ y
      done_inj x y h = cc

  -- An activation that goes through is of an approved and valid recommendation, which becomes
  -- APPLIED and names the new policy. The new policy's version is above every earlier one of its
  -- tenant and workload type. Of the policies that were there none is removed, and none is changed
  -- but in its status. No audit record is written.
  pub apply_policy-IsActivation :
      (r : Recommendation F) (p : RoutingPolicy F)
      → (apply_policy types id a db).0 ≡ done (r, p)
      → (rec : Recommendation F) × IsActivation rec r p (apply_policy types id a db).1
  apply_policy-IsActivation r p e = (
    rec,
    rw (activates rec i.found i.was_approved i.was_valid) (
        subst (λ x. IsActivation rec x.0 x.1 (activate a rec (kind_of rec) db).1) i.answer
          (activated rec (kind_of rec) (current_of rec)
            (get_latest_version_number rec.tenant_id (kind_of rec)
              (supersede (current_of rec) db.policies))
            i.found i.was_approved i.was_valid
            (sym (
              latest_version-supersede rec.tenant_id (kind_of rec) (current_of rec) db.policies)))),
  )
    where
      rec : Recommendation F
      rec = (apply_policy-IsAnswer r p e).0

      i : IsAnswer r p rec
      i = (apply_policy-IsAnswer r p e).1
