-- ===== src/Registry/Seed/Growth.antt =====
-- What a run of `register_from_seed` leaves, and what a second one does.
use mathlib.Core.List.{append-nil, append_assoc}
use mathlib.Core.Path.{subst}
use newchanges.Base.{
  ℕ, ◌+◌, ◌≡◌, refl, arith, Bool, true, ◌&&◌, ◌||◌, List, [], ◌∷◌, ◌++◌, some, String, str_eq,
  length, Bool-cases, Option-cases, inl, inr, any-append, length-append, ap, sym, ◌∙◌, eq_iff,
}
use newchanges.Base.Float.{Float}
use newchanges.Registry.{ModelRegistryEntry, exists}
use newchanges.Registry.Seed.{
  SeedItem, text_or, entry_from_seed, add, register_item, register_from_seed,
}

module _ {ℓ} {F : Type ℓ} ⦃f : Float F⦄ where
  -- A record that a run passes over.
  abbrev known : SeedItem F → List (ModelRegistryEntry F) → Bool
  known item rows =
      str_eq (text_or item.model_name "") "" || exists (text_or item.model_name "") rows

  abbrev all_known : List (SeedItem F) → List (ModelRegistryEntry F) → Bool
  all_known [] rows = true
  all_known (item ∷ items) rows = known item rows && all_known items rows

  add_lem :
      (e : ModelRegistryEntry F) (rows rows' : List (ModelRegistryEntry F))
      → add e rows ≡ some rows'
      → rows' ≡ rows ++ e ∷ []
  unfolding add
  add_lem e rows rows' h = ground arith

  entry_name :
      (uuid name : String) (item : SeedItem F) (e : ModelRegistryEntry F)
      → entry_from_seed uuid name item ≡ some e
      → e.model_name ≡ name
  unfolding entry_from_seed
  entry_name uuid name item e h = ground arith

  -- What one round adds.
  record IsAdded (item : SeedItem F) (rows rows' : List (ModelRegistryEntry F)) (n : ℕ)
      : Type ℓ where
    added : List (ModelRegistryEntry F)
    grown : rows' ≡ rows ++ added
    counted : length added ≡ n
    seen : known item rows' ≡ true

  -- A record that is passed over adds nothing, and one that is inserted is known afterwards.
  pass_lem :
      (item : SeedItem F) (rows rows' : List (ModelRegistryEntry F)) (n : ℕ)
      → known item rows ≡ true
      → rows ≡ rows'
      → 0 ≡ n
      → IsAdded item rows rows' n
  pass_lem item rows rows' n h e z = record {
    added = [];
    grown = rw append-nil (sym e);
    counted = z;
    seen = subst (λ r. known item r ≡ true) e h;
  }

  insert_lem :
      (item : SeedItem F) (e : ModelRegistryEntry F) (rows rows' : List (ModelRegistryEntry F))
      → e.model_name ≡ text_or item.model_name ""
      → rows' ≡ rows ++ e ∷ []
      → IsAdded item rows rows' 1
  insert_lem item e rows rows' name h = record {
    added = e ∷ [];
    grown = h;
    counted = refl;
    seen = rw h (
        ground (
          arith,
          any-append
              (λ (x : ModelRegistryEntry F). str_eq x.model_name (text_or item.model_name "")) rows
              (e ∷ []),
          eq_iff e.model_name (text_or item.model_name ""),
          name,
        ));
  }

  item_lem :
      (uuid : String) (item : SeedItem F) (rows rows' : List (ModelRegistryEntry F)) (n : ℕ)
      → register_item uuid item rows ≡ some (rows', n)
      → IsAdded item rows rows' n
  unfolding register_item
  item_lem uuid item rows rows' n h = elim (Bool-cases (known item rows)) [
    | inl q ↦ pass_lem item rows rows' n q (ground arith) (ground arith)
    | inr q ↦ elim (Option-cases (entry_from_seed uuid (text_or item.model_name "") item)) [
      | inl z ↦ absurd (ground arith)
      | inr (e, z) ↦ elim (Option-cases (add e rows)) [
        | inl k ↦ absurd (ground arith)
        | inr (r, k) ↦ subst (IsAdded item rows rows') (ground arith) (
            insert_lem item e rows rows' (entry_name uuid (text_or item.model_name "") item e z)
              (add_lem e rows rows' (ground arith)))
      ]
    ]
  ]

  known_pass :
      (uuid : List (ModelRegistryEntry F) → String) (items : List (SeedItem F))
      (rows : List (ModelRegistryEntry F))
      → all_known items rows ≡ true
      → register_from_seed uuid items rows ≡ some (rows, 0)
  unfolding register_from_seed register_item
  known_pass uuid [] rows h = refl
  known_pass uuid (item ∷ items) rows h = ground (arith, known_pass uuid items rows)

  known-append :
      (item : SeedItem F) (rows more : List (ModelRegistryEntry F))
      → known item rows ≡ true
      → known item (rows ++ more) ≡ true
  known-append item rows more h = ground (
    arith,
    any-append (λ (x : ModelRegistryEntry F). str_eq x.model_name (text_or item.model_name "")) rows
        more,
  )

  -- What a run leaves: the rows before it, as many more as it counts, and every record known.
  pub record IsSeeded (items : List (SeedItem F)) (rows rows' : List (ModelRegistryEntry F)) (n : ℕ)
      : Type ℓ where
    pub inserted : List (ModelRegistryEntry F)
    pub extends : rows' ≡ rows ++ inserted
    pub counts : length inserted ≡ n
    pub all_seen : all_known items rows' ≡ true

  step-IsSeeded :
      (item : SeedItem F) (items : List (SeedItem F))
      (rows middle rows' : List (ModelRegistryEntry F)) (n m : ℕ)
      → IsAdded item rows middle n
      → IsSeeded items middle rows' m
      → IsSeeded (item ∷ items) rows rows' (n + m)
  step-IsSeeded item items rows middle rows' n m a s = record {
    inserted = a.added ++ s.inserted;
    extends = s.extends ∙ ap (λ r. r ++ s.inserted) a.grown ∙ append_assoc rows a.added s.inserted;
    counts = omega (arith, length-append a.added s.inserted, a.counted, s.counts);
    all_seen = ground (
      arith,
      s.all_seen,
      subst (λ r. known item r ≡ true) (sym s.extends) (known-append item middle s.inserted a.seen),
    );
  }

  retarget :
      (items : List (SeedItem F)) (rows a b : List (ModelRegistryEntry F)) (n m : ℕ)
      → a ≡ b
      → n ≡ m
      → IsSeeded items rows a n
      → IsSeeded items rows b m
  retarget items rows a b n m p q s =
      subst (λ r. IsSeeded items rows r m) p (subst (IsSeeded items rows a) q s)

  register-IsSeeded :
      (uuid : List (ModelRegistryEntry F) → String) (items : List (SeedItem F))
      (rows rows' : List (ModelRegistryEntry F)) (n : ℕ)
      → register_from_seed uuid items rows ≡ some (rows', n)
      → IsSeeded items rows rows' n
  unfolding register_from_seed
  register-IsSeeded uuid [] rows rows' n h = record {
    inserted = [];
    extends = rw append-nil (ground arith);
    counts = ground arith;
    all_seen = refl;
  }
  register-IsSeeded uuid (item ∷ items) rows rows' n h =
      elim (Option-cases (register_item (uuid rows) item rows)) [
        | inl z ↦ absurd (ground arith)
        | inr ((middle, k), z) ↦ elim (Option-cases (register_from_seed uuid items middle)) [
          | inl w ↦ absurd (ground arith)
          | inr ((last, m), w) ↦
              retarget (item ∷ items) rows last rows' (k + m) n (ground arith) (ground arith) (
                step-IsSeeded item items rows middle last k m
                  (item_lem (uuid rows) item rows middle k z)
                  (register-IsSeeded uuid items middle last m w))
        ]
      ]

  -- A run of the seed that succeeds keeps the table's rows as they are and appends as many as it
  -- counts; a second run of the same seed, whatever ids it would draw, inserts nothing.
  pub register_from_seed_again :
      (uuid uuid' : List (ModelRegistryEntry F) → String) (items : List (SeedItem F))
      (rows rows' : List (ModelRegistryEntry F)) (n : ℕ)
      → register_from_seed uuid items rows ≡ some (rows', n)
      → ((new : List (ModelRegistryEntry F)) × (rows' ≡ rows ++ new) × (length new ≡ n))
        × (register_from_seed uuid' items rows' ≡ some (rows', 0))
  register_from_seed_again uuid uuid' items rows rows' n h =
      ((s.inserted, s.extends, s.counts), known_pass uuid' items rows' s.all_seen)
    where
      s : IsSeeded items rows rows' n
      s = register-IsSeeded uuid items rows rows' n h
