-- ===== src/Lifecycle/Activation/Rollback.antt =====
-- What a rollback restores.
use newchanges.Base.{
  leb, Bool, true, false, not, ◌&&◌, if◌then◌else◌, Option, none, some, String, str_eq, eq_iff,
  List, [], ◌∷◌, ◌++◌, keep, All, All-map, All-keep, ◌≡◌, refl, sym, ap, ◌∙◌, arith, Bool-cases,
  Option-cases, inl, inr,
}
use mathlib.Core.Path.{subst}
use newchanges.Base.Float.{Float}
use newchanges.Lifecycle.Records.{
  OptimizationStatus, PolicyStatus, Recommendation, RoutingPolicy, Database, find_recommendation,
  write_status, get_active_policy, with_status, latest, of_key, is_live,
}
use newchanges.Lifecycle.Approval.{done}
use newchanges.Lifecycle.Activation.{
  WorkloadTypes, Activate, target_complexity, validate_policy, activate, apply_policy, supersede,
  id_of, mark, undo, rollback_policy,
}
use newchanges.Lifecycle.Activation.Versions.{
  activates, activated, IsAnswer, apply_policy-IsAnswer, kind_of, current_of, answer_on,
}

module _ {ℓ} {F : Type ℓ} where
  write_status-append :
      (id : String) (s : PolicyStatus) (xs ys : List (RoutingPolicy F))
      → write_status id s (xs ++ ys) ≡ write_status id s xs ++ write_status id s ys
  unfolding write_status
  write_status-append id s [] ys = refl
  write_status-append id s (x ∷ xs) ys =
      ap (λ l. (if str_eq x.id id then with_status s x else x) ∷ l) (write_status-append id s xs ys)

  write_status-absent :
      (id : String) (s : PolicyStatus) (ps : List (RoutingPolicy F))
      → All (λ p. str_eq p.id id ≡ false) ps
      → write_status id s ps ≡ ps
  unfolding write_status
  write_status-absent id s [] h = refl
  write_status-absent id s (p ∷ ps) h = rw (h.0) (ap (λ l. p ∷ l) (write_status-absent id s ps h.1))

  write_status-twice :
      (id : String) (s s' : PolicyStatus) (ps : List (RoutingPolicy F))
      → write_status id s (write_status id s' ps) ≡ write_status id s ps
  unfolding write_status
  write_status-twice id s s' [] = refl
  write_status-twice id s s' (p ∷ ps) = elim (Bool-cases (str_eq p.id id)) [
    | inl here ↦ rw here (rw here (ap (λ l. with_status s p ∷ l) (write_status-twice id s s' ps)))
    | inr other ↦ rw other (rw other (ap (λ l. p ∷ l) (write_status-twice id s s' ps)))
  ]

  ids-write_status :
      (P : String → Type 0) (id : String) (s : PolicyStatus) (ps : List (RoutingPolicy F))
      → All (λ p. P p.id) ps
      → All (λ p. P p.id) (write_status id s ps)
  unfolding write_status
  ids-write_status P id s [] h = tt
  ids-write_status P id s (p ∷ ps) h = elim (Bool-cases (str_eq p.id id)) [
    | inl here ↦ rw here (h.0, ids-write_status P id s ps h.1)
    | inr other ↦ rw other (h.0, ids-write_status P id s ps h.1)
  ]

  -- the policies with the predecessor ACTIVE
  abbrev pub revive : Option (RoutingPolicy F) → List (RoutingPolicy F) → List (RoutingPolicy F)
  revive none ps = ps
  revive (some c) ps = write_status c.id PolicyStatus.active ps

  module _ (P : RoutingPolicy F → Type 0) where
    All-latest :
        (ps : List (RoutingPolicy F)) (c : RoutingPolicy F) → All P ps → latest ps ≡ some c → P c
    All-latest [] c h e = cc
    All-latest (p ∷ ps) c h e = elim (Option-cases (latest ps)) [
      | inl k ↦ subst P (some_inj p c (first k ∙ e)) h.0
      | inr (q, k) ↦ elim (Bool-cases (leb q.version p.version)) [
        | inl newer ↦ subst P (some_inj p c (sym (rw k (rw newer refl)) ∙ e)) h.0
        | inr older ↦
            subst P (some_inj q c (sym (rw k (rw older refl)) ∙ e)) (All-latest ps q h.1 k)
      ]
    ]
      where
        some_inj : (x y : RoutingPolicy F) → some x ≡ some y → x ≡ y
        some_inj x y g = cc

        first : latest ps ≡ none → some p ≡ latest (p ∷ ps)
        first k = rw k refl

    All-get_active_policy :
        (tenant kind complexity : String) (ps : List (RoutingPolicy F)) (c : RoutingPolicy F)
        → All P ps
        → get_active_policy tenant kind complexity ps ≡ some c
        → P c
    unfolding get_active_policy
    All-get_active_policy tenant kind complexity ps c h e =
        All-latest (keep (λ p. of_key tenant kind complexity p && is_live p) ps) c
          (All-keep P _ ps h) e

  -- the id of a policy is given, and is not the one of a new row
  abbrev pub is_other_id : String → RoutingPolicy F → Bool
  is_other_id new_id p = not (str_eq p.id "") && not (str_eq p.id new_id)

  module _ (new : RoutingPolicy F) (given : str_eq new.id "" ≡ false) where
    add_then_mark :
        (ps : List (RoutingPolicy F))
        → All (λ p. str_eq p.id new.id ≡ false) ps
        → mark (some new.id) PolicyStatus.rolled_back (ps ++ new ∷ [])
          ≡ ps ++ with_status PolicyStatus.rolled_back new ∷ []
    unfolding write_status
    add_then_mark ps h = rw given (
        write_status-append new.id PolicyStatus.rolled_back ps (new ∷ [])
        ∙ rw (write_status-absent new.id PolicyStatus.rolled_back ps h)
            (rw ((eq_iff new.id new.id).1 refl) refl))

    undoes :
        (c : Option (RoutingPolicy F)) (ps : List (RoutingPolicy F))
        → All (λ p. is_other_id new.id p ≡ true) ps
        → ((x : RoutingPolicy F) → c ≡ some x → is_other_id new.id x ≡ true)
        → mark
            (id_of c)
            PolicyStatus.active
            (mark (some new.id) PolicyStatus.rolled_back (supersede c ps ++ new ∷ []))
          ≡ revive c ps ++ with_status PolicyStatus.rolled_back new ∷ []
    undoes none ps h k = add_then_mark ps (All-map _ _ ps (λ p e. ground (arith, e)) h)
    undoes (some c) ps h k =
        ap (mark (some c.id) PolicyStatus.active) (
          add_then_mark (write_status c.id PolicyStatus.superseded ps) (
            ids-write_status (λ i. str_eq i new.id ≡ false) c.id PolicyStatus.superseded ps
              (All-map _ _ ps (λ p e. ground (arith, e)) h)))
        ∙ rw given_c (
            write_status-append c.id PolicyStatus.active
              (write_status c.id PolicyStatus.superseded ps) (undone_new ∷ [])
            ∙ rw
                (
                  write_status-twice c.id PolicyStatus.active PolicyStatus.superseded ps,
                  write_status-absent c.id PolicyStatus.active (undone_new ∷ [])
                      (ground (arith, k c refl, eq_iff new.id c.id, eq_iff c.id new.id), tt),
                )
                refl)
      where
        undone_new : RoutingPolicy F
        undone_new = with_status PolicyStatus.rolled_back new

        given_c : str_eq c.id "" ≡ false
        given_c = ground (arith, k c refl)

module _ {ℓ} {F : Type ℓ} ⦃f : Float F⦄ (types : WorkloadTypes) (id : String) (a : Activate F)
    (db : Database F) where
  rolls_back :
      (now : F) (x : Recommendation F) (d : Database F)
      → find_recommendation id d.recommendations ≡ some x
      → x.status ≡ OptimizationStatus.applied
      → rollback_policy id now d ≡ undo now x d
  unfolding rollback_policy
  rolls_back now x d found e = ground arith

  rollback_policy-activate :
      (rec : Recommendation F) (now : F)
      → find_recommendation id db.recommendations ≡ some rec
      → rec.status ≡ OptimizationStatus.approved
      → validate_policy rec ≡ true
      → str_eq a.new_id "" ≡ false
      → All (λ q. is_other_id a.new_id q ≡ true) db.policies
      → (rollback_policy id now (activate a rec (kind_of types id a db rec) db).1).1.policies
        ≡ revive (current_of types id a db rec) db.policies
          ++ with_status PolicyStatus.rolled_back (answer_on types id a db rec).1 ∷ []
  rollback_policy-activate rec now found ok valid given fresh =
      rw
        (rolls_back now _ (activate a rec (kind_of types id a db rec) db).1
          (activated types id a db rec (kind_of types id a db rec) (current_of types id a db rec) _
            found ok valid refl).stored
          refl)
        (undoes (answer_on types id a db rec).1 given (current_of types id a db rec) db.policies
          fresh
          (λ c e.
            All-get_active_policy (λ q. is_other_id a.new_id q ≡ true) rec.tenant_id
              (kind_of types id a db rec) target_complexity db.policies c fresh e))

  -- Rolling back an activation: every policy is as it was before, but the predecessor is ACTIVE and
  -- the new policy stays, ROLLED_BACK. The new row's id is given and not one of those before.
  pub rollback_policy-apply_policy :
      (r : Recommendation F) (p : RoutingPolicy F) (now : F)
      → (apply_policy types id a db).0 ≡ done (r, p)
      → str_eq a.new_id "" ≡ false
      → All (λ q. is_other_id a.new_id q ≡ true) db.policies
      → (rollback_policy id now (apply_policy types id a db).1).1.policies
        ≡ revive
            (get_active_policy p.tenant_id p.workload_type p.complexity db.policies)
            db.policies
          ++ with_status PolicyStatus.rolled_back p ∷ []
  rollback_policy-apply_policy r p now e given fresh =
      rw (activates types id a db rec i.found i.was_approved i.was_valid) (
        subst
          (λ (x : Recommendation F × RoutingPolicy F).
            (rollback_policy id now (activate a rec (kind_of types id a db rec) db).1).1.policies
            ≡ revive (get_active_policy x.1.tenant_id x.1.workload_type x.1.complexity db.policies)
                db.policies
              ++ with_status PolicyStatus.rolled_back x.1 ∷ [])
          i.answer
          (rollback_policy-activate rec now i.found i.was_approved i.was_valid given fresh))
    where
      rec : Recommendation F
      rec = (apply_policy-IsAnswer types id a db r p e).0

      i : IsAnswer types id a db r p rec
      i = (apply_policy-IsAnswer types id a db r p e).1
