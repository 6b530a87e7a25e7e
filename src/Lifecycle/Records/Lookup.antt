-- ===== src/Lifecycle/Records/Lookup.antt =====
-- What the writes to a row do to the lookups.
use newchanges.Base.{some, String, eq_iff, List, [], ◌∷◌, map, ◌≡◌, refl, arith}
use newchanges.Lifecycle.Records.{
  Recommendation, RoutingPolicy, PolicyStatus, find_recommendation, write_recommendation,
  write_status, with_status,
}

module _ {ℓ} {F : Type ℓ} where
  pub find_recommendation-id :
      (id : String) (rs : List (Recommendation F)) (r : Recommendation F)
      → find_recommendation id rs ≡ some r
      → r.id ≡ id
  unfolding find_recommendation
  find_recommendation-id id [] r e = cc
  find_recommendation-id id (x ∷ rs) r e =
      ground (arith, eq_iff x.id id, find_recommendation-id id rs r)

  -- A row that is found and then written is found as it was written.
  pub find-write_recommendation :
      (id : String) (change : Recommendation F → Recommendation F) (rs : List (Recommendation F))
      (r : Recommendation F)
      → ((x : Recommendation F) → (change x).id ≡ x.id)
      → find_recommendation id rs ≡ some r
      → find_recommendation id (write_recommendation id change rs) ≡ some (change r)
  unfolding find_recommendation write_recommendation
  find-write_recommendation id change [] r k e = cc
  find-write_recommendation id change (x ∷ rs) r k e =
      ground (arith, k x, find-write_recommendation id change rs r k)

  -- everything of a policy but its status
  abbrev pub contents : RoutingPolicy F → RoutingPolicy F
  contents p = with_status PolicyStatus.draft p

  pub contents-write_status :
      (id : String) (s : PolicyStatus) (ps : List (RoutingPolicy F))
      → map contents (write_status id s ps) ≡ map contents ps
  unfolding write_status
  contents-write_status id s [] = refl
  contents-write_status id s (p ∷ ps) = ground (arith, contents-write_status id s ps)
