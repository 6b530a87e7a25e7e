-- ===== src/Lifecycle/Activation/Superseded.antt =====
-- The rows of a routing key before and after its live policy is superseded.
use newchanges.Base.{
  ◌≤◌, Bool, true, false, ◌&&◌, if◌then◌else◌, Option, none, some, String, str_eq, eq_iff, List, [],
  ◌∷◌, ◌++◌, length, length-append, length-keep-le, keep, keep-append, is_empty, ◌≡◌, refl, sym, ap,
  ◌∙◌, arith, Bool-cases, Option-cases, inl, inr,
}
use mathlib.Core.Path.{subst}
use newchanges.Lifecycle.Records.{
  PolicyStatus, RoutingPolicy, write_status, get_active_policy, active_rows, of_key, is_live,
  latest, with_status,
}
use newchanges.Lifecycle.Activation.{supersede}

module _ {ℓ} {F : Type ℓ} where
  -- the ACTIVE and CANARY policies of a key
  abbrev pub live_rows : String → String → String → List (RoutingPolicy F) → List (RoutingPolicy F)
  live_rows tenant kind complexity = keep (λ p. of_key tenant kind complexity p && is_live p)

  -- at most one of every key
  abbrev pub OneLive : List (RoutingPolicy F) → Type 0
  OneLive ps = (tenant kind complexity : String) → length (live_rows tenant kind complexity ps) ≤ 1

  -- a test that a superseded policy does not meet
  module _ (q : RoutingPolicy F → Bool)
      (gone : (p : RoutingPolicy F) → q (with_status PolicyStatus.superseded p) ≡ false) where
    keep-superseded-le :
        (id : String) (ps : List (RoutingPolicy F))
        → length (keep q (write_status id PolicyStatus.superseded ps)) ≤ length (keep q ps)
    unfolding write_status
    keep-superseded-le id [] = omega arith
    keep-superseded-le id (p ∷ ps) = elim (Bool-cases (str_eq p.id id)) [
      | inl here ↦ rw here (rw (gone p) (ground (arith, keep-superseded-le id ps)))
      | inr other ↦ rw other (ground (arith, keep-superseded-le id ps))
    ]

    stays_empty :
        (id : String) (ps : List (RoutingPolicy F))
        → keep q ps ≡ []
        → keep q (write_status id PolicyStatus.superseded ps) ≡ []
    stays_empty id ps e =
        no_length (keep q (write_status id PolicyStatus.superseded ps))
          (ground (arith, e, keep-superseded-le id ps))
      where
        no_length : (xs : List (RoutingPolicy F)) → length xs ≤ 0 → xs ≡ []
        no_length [] h = refl
        no_length (x ∷ xs) h = ground (arith, h)

    drop_first :
        (x : RoutingPolicy F) (xs : List (RoutingPolicy F))
        → q x ≡ false
        → keep q xs ≡ []
        → keep q (x ∷ xs) ≡ []
    drop_first x xs h e = rw h e

    cons_inj :
        (x y : RoutingPolicy F) (xs ys : List (RoutingPolicy F))
        → x ∷ xs ≡ y ∷ ys
        → (x ≡ y) × (xs ≡ ys)
    cons_inj x y xs ys e = (cc, cc)

    -- superseding the only row that meets the test leaves none
    keep-superseded :
        (ps : List (RoutingPolicy F)) (c : RoutingPolicy F)
        → keep q ps ≡ c ∷ []
        → keep q (write_status c.id PolicyStatus.superseded ps) ≡ []
    unfolding write_status
    keep-superseded [] c e = cc
    keep-superseded (p ∷ ps) c e = elim (Bool-cases (q p)) [
      | inl on ↦
          drop_first (written p) (write_status c.id PolicyStatus.superseded ps) (first on)
            (stays_empty c.id ps (cons_inj p c (keep q ps) [] (unfold_on on ∙ e)).1)
      | inr off ↦
          drop_first (written p) (write_status c.id PolicyStatus.superseded ps) (rest off)
            (keep-superseded ps c (sym (skip off) ∙ e))
    ]
      where
        written : RoutingPolicy F → RoutingPolicy F
        written x = if str_eq x.id c.id then with_status PolicyStatus.superseded x else x

        unfold_on : q p ≡ true → p ∷ keep q ps ≡ keep q (p ∷ ps)
        unfold_on on = rw on refl

        skip : q p ≡ false → keep q (p ∷ ps) ≡ keep q ps
        skip off = rw off refl

        rest : q p ≡ false → q (written p) ≡ false
        rest off = elim (Bool-cases (str_eq p.id c.id)) [
          | inl here ↦ rw (here, written) (gone p)
          | inr other ↦ rw (other, written) off
        ]

        first : q p ≡ true → q (written p) ≡ false
        first on =
            rw
              (
                (eq_iff p.id c.id).1
                    (ap (λ x. x.id) (cons_inj p c (keep q ps) [] (unfold_on on ∙ e)).0),
                written,
              )
              (gone p)

  keep-stronger :
      (q r : RoutingPolicy F → Bool)
      → ((p : RoutingPolicy F) → q p ≡ false → r p ≡ false)
      → (ps : List (RoutingPolicy F)) → keep q ps ≡ []
      → keep r ps ≡ []
  keep-stronger q r h [] e = refl
  keep-stronger q r h (p ∷ ps) e = elim (Bool-cases (q p)) [
    | inl on ↦ ground (arith, on, e)
    | inr off ↦ rw (h p off) (keep-stronger q r h ps (sym (skip off) ∙ e))
  ]
    where
      skip : q p ≡ false → keep q (p ∷ ps) ≡ keep q ps
      skip off = rw off refl

  module _ (tenant kind complexity : String) where
    latest-is_empty : (ps : List (RoutingPolicy F)) → latest ps ≡ none → is_empty ps ≡ true
    latest-is_empty [] e = refl
    latest-is_empty (p ∷ ps) e = ground arith

    none_live :
        (ps : List (RoutingPolicy F))
        → get_active_policy tenant kind complexity ps ≡ none
        → live_rows tenant kind complexity ps ≡ []
    unfolding get_active_policy
    none_live ps e = ground (arith, latest-is_empty (live_rows tenant kind complexity ps) e)

    latest-single :
        (ps : List (RoutingPolicy F)) (c : RoutingPolicy F)
        → length ps ≤ 1
        → latest ps ≡ some c
        → ps ≡ c ∷ []
    latest-single [] c h e = cc
    latest-single (p ∷ []) c h e = ground (arith, e)
    latest-single (p ∷ q ∷ ps) c h e = ground (arith, h)

    not_live :
        (p : RoutingPolicy F)
        → (of_key tenant kind complexity (with_status PolicyStatus.superseded p)
            && is_live (with_status PolicyStatus.superseded p))
          ≡ false
    not_live p = ground arith

    -- after superseding what `get_active_policy` answers, nothing of the key is live
    pub cleared :
        (ps : List (RoutingPolicy F))
        → length (live_rows tenant kind complexity ps) ≤ 1
        → live_rows tenant kind complexity
            (supersede (get_active_policy tenant kind complexity ps) ps)
          ≡ []
    unfolding get_active_policy
    cleared ps h = elim (Option-cases (get_active_policy tenant kind complexity ps)) [
      | inl e ↦ rw e (none_live ps e)
      | inr (c, e) ↦ rw e (
          keep-superseded _ not_live ps c
            (latest-single (live_rows tenant kind complexity ps) c h e))
    ]

    supersede-le :
        (c : Option (RoutingPolicy F)) (ps : List (RoutingPolicy F))
        → length (live_rows tenant kind complexity (supersede c ps))
          ≤ length (live_rows tenant kind complexity ps)
    supersede-le none ps = omega arith
    supersede-le (some p) ps = keep-superseded-le _ not_live p.id ps

    pub active-live :
        (ps : List (RoutingPolicy F))
        → live_rows tenant kind complexity ps ≡ []
        → active_rows tenant kind complexity ps ≡ []
    unfolding active_rows
    active-live ps e =
        keep-stronger (λ p. of_key tenant kind complexity p && is_live p) _
          (λ p h. ground (arith, h)) ps e

    -- the rows of a key after a new policy of that key
    own_key :
        (new : RoutingPolicy F) (ps : List (RoutingPolicy F))
        → length (live_rows tenant kind complexity ps) ≤ 1
        → length (
            live_rows tenant kind complexity
              (supersede (get_active_policy tenant kind complexity ps) ps ++ new ∷ []))
          ≤ 1
    own_key new ps h =
        rw
          (keep-append (λ p. of_key tenant kind complexity p && is_live p)
            (supersede (get_active_policy tenant kind complexity ps) ps) (new ∷ []))
          (rw (cleared ps h)
            (length-keep-le (λ p. of_key tenant kind complexity p && is_live p) (new ∷ [])))

    -- and those of any other key
    other_key :
        (new : RoutingPolicy F) (c : Option (RoutingPolicy F)) (ps : List (RoutingPolicy F))
        → of_key tenant kind complexity new ≡ false
        → length (live_rows tenant kind complexity ps) ≤ 1
        → length (live_rows tenant kind complexity (supersede c ps ++ new ∷ [])) ≤ 1
    other_key new c ps k h =
        rw
          (keep-append (λ p. of_key tenant kind complexity p && is_live p) (supersede c ps)
            (new ∷ []))
          (rw k (
            omega (
              arith,
              h,
              supersede-le c ps,
              length-append (live_rows tenant kind complexity (supersede c ps)) [],
            )))

  pub with_new-OneLive :
      (tenant kind complexity : String) (new : RoutingPolicy F) (ps : List (RoutingPolicy F))
      → of_key tenant kind complexity new ≡ true
      → OneLive ps
      → OneLive (supersede (get_active_policy tenant kind complexity ps) ps ++ new ∷ [])
  with_new-OneLive tenant kind complexity new ps k one t' k' c' =
      elim (Bool-cases (of_key t' k' c' new)) [
        | inl same ↦
            subst (λ x. Bounded x k' c')
              (ground (arith, same, k, eq_iff new.tenant_id t', eq_iff new.tenant_id tenant))
              (subst (λ x. Bounded tenant x c')
                (ground
                  (arith, same, k, eq_iff new.workload_type k', eq_iff new.workload_type kind))
                (subst (λ x. Bounded tenant kind x)
                  (ground
                    (arith, same, k, eq_iff new.complexity c', eq_iff new.complexity complexity))
                  (own_key tenant kind complexity new ps (one tenant kind complexity))))
        | inr other ↦
            other_key t' k' c' new (get_active_policy tenant kind complexity ps) ps other
              (one t' k' c')
      ]
    where
      Bounded : String → String → String → Type 0
      Bounded x y z =
          length (
            live_rows x y z
              (supersede (get_active_policy tenant kind complexity ps) ps ++ new ∷ []))
          ≤ 1
