-- ===== src/RateLimit/Window.antt =====
-- The rate limiter against the history of what it has admitted, over all keys and policies.
use newchanges.Base.{
  ℕ, ◌-◌, ◌≤◌, leb, true, false, not, ◌&&◌, if◌then◌else◌, Option, none, some, String, str_eq,
  eq_iff, List, [], ◌∷◌, ◌++◌, length, length-append, keep, keep-append, keep-none, All, All-map,
  All-append, ◌≡◌, refl, sym, ap, ◌∙◌, arith, Bool-cases, inl, inr,
}
use mathlib.Core.List.{append_assoc}
use mathlib.Core.Path.{subst}
use newchanges.Base.Audit.{Trail}
use newchanges.Base.Float.{Float, IsOrdered, ◌≼◌}
use newchanges.RateLimit.Chain.{IsChain, IsChain-append, recent-chain}
use newchanges.RateLimit.{
  RateLimitPolicy, RateLimitDecision, Hits, hits_of, set_hits, drop_expired, check, refusal,
}

module _ {ℓ} {F : Type ℓ} where
  hits_of-set_hits :
      (store : Hits F) (key k : String) (hits : List F)
      → hits_of (set_hits store key hits) k ≡ (if str_eq key k then hits else hits_of store k)
  unfolding hits_of set_hits
  hits_of-set_hits [] key k hits = refl
  hits_of-set_hits ((j, old) ∷ rest) key k hits =
      ground (arith, hits_of-set_hits rest key k hits, eq_iff j key, eq_iff j k, eq_iff key k)

module _ {ℓ} {F : Type ℓ} ⦃f : Float F⦄ where
  abbrev pub live : F → RateLimitPolicy F → List F → List F
  live now p hits = drop_expired (f.sub now p.window_seconds) hits

  -- the hits inside the window that ends at `now`
  abbrev pub recent : F → F → List F → List F
  recent now window = keep (λ hit. not (f.le hit (f.sub now window)))

  -- what one check leaves of the history of admitted calls
  abbrev pub admit : String → F → Option (RateLimitDecision F) → (String → List F) → String → List F
  admit key now none history k = history k
  admit key now (some d) history k =
      if d.allowed && str_eq key k then history k ++ now ∷ [] else history k

module _ {ℓ} {F : Type ℓ} ⦃f : Float F⦄ where
  admit-refusal :
      (key k : String) (now : F) (p : RateLimitPolicy F) (hits : List F) (history : String → List F)
      → admit key now (refusal now p hits) history k ≡ history k
  admit-refusal key k now p [] history = refl
  admit-refusal key k now p (x ∷ xs) history = refl

  admit-other :
      (key k : String) (now : F) (d : Option (RateLimitDecision F)) (history : String → List F)
      → str_eq key k ≡ false
      → admit key now d history k ≡ history k
  admit-other key k now none history h = refl
  admit-other key k now (some d) history h = ground (arith, h)

module _ {ℓ} {F : Type ℓ} ⦃f : Float F⦄ (window : String → F) (most : String → ℕ) where
  -- The times do not go back: what the limiter holds at a time, and the history of the calls that
  -- it has admitted, by key. The checks of a key have the same window; their maxima may differ, up
  -- to a bound.
  pub data Served : F → Hits F × Trail → (String → List F) → Type ℓ where
    started : (t : F) (trail : Trail) → Served t ([], trail) (λ k. [])
    served :
        {t : F} {s : Hits F × Trail} {history : String → List F} (now : F) (key : String)
        (p : RateLimitPolicy F)
        → Served t s history
        → t ≼ now
        → p.window_seconds ≡ window key
        → p.max_requests ≤ most key
        → Served now (check now key p s).1 (admit key now (check now key p s).0 history)

module _ {ℓ} {F : Type ℓ} ⦃f : Float F⦄ where
  -- the deque of a key is the end of its history, in order, and the rest has left the window
  pub record IsWindow (t w : F) (n : ℕ) (hits history : List F) : Type ℓ where
    old : List F
    split : history ≡ old ++ hits
    expired : All (λ x. x ≼ f.sub t w) old
    chain : IsChain hits
    past : All (λ x. x ≼ t) hits
    pub bounded : length hits ≤ n

  module _ (o : IsOrdered F) (sub_mono : (a b c : F) → a ≼ b → f.sub a c ≼ f.sub b c) where
    pub IsWindow-later :
        (t now v : F) (n : ℕ) (hits history : List F)
        → t ≼ now
        → IsWindow t v n hits history
        → IsWindow now v n hits history
    IsWindow-later t now v n hits history h w = record {
      old = w.old;
      split = w.split;
      expired = All-map _ _ w.old (λ x e. o.le_trans x _ _ e (sub_mono t now v h)) w.expired;
      chain = w.chain;
      past = All-map _ _ hits (λ x e. o.le_trans x t now e h) w.past;
      bounded = w.bounded;
    }

    pub recent-IsWindow :
        (now v : F) (n : ℕ) (hits history : List F)
        → IsWindow now v n hits history
        → recent now v history ≡ drop_expired (f.sub now v) hits
    recent-IsWindow now v n hits history w =
        ap (recent now v) w.split
        ∙ keep-append _ w.old hits
        ∙ ap (λ l. l ++ recent now v hits)
            (keep-none _ w.old (All-map _ _ w.old (λ x e. rw e refl) w.expired))
        ∙ recent-chain o _ hits w.chain

    -- the window after the expired hits are dropped
    IsWindow-drop :
        (now v : F) (n : ℕ) (old hits history : List F)
        → history ≡ old ++ hits
        → All (λ x. x ≼ f.sub now v) old
        → IsChain hits
        → All (λ x. x ≼ now) hits
        → length hits ≤ n
        → IsWindow now v n (drop_expired (f.sub now v) hits) history
    unfolding drop_expired
    IsWindow-drop now v n old [] history e x c s b = record {
      old = old;
      split = e;
      expired = x;
      chain = c;
      past = s;
      bounded = b;
    }
    IsWindow-drop now v n old (h ∷ hits) history e x c s b =
        elim (Bool-cases (f.le h (f.sub now v))) [
          | inl gone ↦ rw gone (
              IsWindow-drop now v n (old ++ h ∷ []) hits history
                (e ∙ sym (append_assoc old (h ∷ []) hits)) (All-append _ old (h ∷ []) x (gone, tt))
                c.1 s.1 (omega (arith, b)))
          | inr kept ↦
              rw kept
                (record { old = old; split = e; expired = x; chain = c; past = s; bounded = b })
        ]

    pub check-hits :
        (now : F) (key : String) (p : RateLimitPolicy F) (s : Hits F × Trail)
        → (check now key p s).0 ≡ (
            if leb p.max_requests (length (live now p (hits_of s.0 key)))
            then refusal now p (live now p (hits_of s.0 key))
            else some (record {
              allowed = true;
              remaining = p.max_requests - length (live now p (hits_of s.0 key) ++ now ∷ []);
              retry_after_seconds = none;
            }))
    unfolding check
    check-hits now key p s = ground arith

    -- what a check does to the deque of each key
    check-hits_of :
        (now : F) (key k : String) (p : RateLimitPolicy F) (s : Hits F × Trail)
        → hits_of (check now key p s).1.0 k ≡ (
            if str_eq key k
            then (let hits = live now p (hits_of s.0 key) in
                if leb p.max_requests (length hits) then hits else hits ++ now ∷ [])
            else hits_of s.0 k)
    unfolding check
    check-hits_of now key k p s =
        elim (Bool-cases (leb p.max_requests (length (live now p (hits_of s.0 key))))) [
          | inl full ↦ rw full (hits_of-set_hits s.0 key k _)
          | inr room ↦ rw room (hits_of-set_hits s.0 key k _)
        ]

    IsWindow-own :
        (now : F) (k : String) (p : RateLimitPolicy F) (n : ℕ) (s : Hits F × Trail)
        (history : String → List F)
        → p.max_requests ≤ n
        → IsWindow now p.window_seconds n (hits_of s.0 k) (history k)
        → IsWindow now p.window_seconds n
            (hits_of (check now k p s).1.0 k)
            (admit k now (check now k p s).0 history k)
    IsWindow-own now k p n s history most w =
        elim (Bool-cases (leb p.max_requests (length (live now p (hits_of s.0 k))))) [
          | inl full ↦
              rw
                (
                  check-hits now k p s,
                  check-hits_of now k k p s,
                  (eq_iff k k).1 refl,
                  full,
                  admit-refusal k k now p (live now p (hits_of s.0 k)) history,
                )
                dropped
          | inr room ↦
              rw (check-hits now k p s, check-hits_of now k k p s, (eq_iff k k).1 refl, room)
                (record {
                  old = dropped.old;
                  split = rw ((eq_iff k k).1 refl) (
                      ap (λ l. l ++ now ∷ []) dropped.split
                      ∙ append_assoc dropped.old (live now p (hits_of s.0 k)) (now ∷ []));
                  expired = dropped.expired;
                  chain =
                      IsChain-append (live now p (hits_of s.0 k)) now dropped.chain dropped.past;
                  past =
                      All-append _ (live now p (hits_of s.0 k)) (now ∷ []) dropped.past
                        (o.le_refl now, tt);
                  bounded =
                      ground
                        (arith, room, most, length-append (live now p (hits_of s.0 k)) (now ∷ []));
                })
        ]
      where
        dropped : IsWindow now p.window_seconds n (live now p (hits_of s.0 k)) (history k)
        dropped =
            IsWindow-drop now p.window_seconds n w.old (hits_of s.0 k) (history k) w.split w.expired
              w.chain w.past w.bounded

    module _ (window : String → F) (most : String → ℕ) where
      pub Served-IsWindow :
          {t : F} {s : Hits F × Trail} {history : String → List F}
          → Served window most t s history
          → (k : String) → IsWindow t (window k) (most k) (hits_of s.0 k) (history k)
      unfolding hits_of
      Served-IsWindow (started t trail) k = record {
        old = [];
        split = refl;
        expired = tt;
        chain = tt;
        past = tt;
        bounded = omega arith;
      }
      Served-IsWindow (served {t} {s} {history} now key p before h same below) k =
          elim (Bool-cases (str_eq key k)) [
            | inl here ↦
                subst
                  (λ j.
                    IsWindow now (window j) (most j) (hits_of (check now key p s).1.0 j)
                      (admit key now (check now key p s).0 history j))
                  ((eq_iff key k).0 here)
                  (subst
                    (λ v.
                      IsWindow now v (most key) (hits_of (check now key p s).1.0 key)
                        (admit key now (check now key p s).0 history key))
                    same
                    (IsWindow-own now key p (most key) s history below (
                      subst (λ v. IsWindow now v (most key) (hits_of s.0 key) (history key))
                        (sym same)
                        (IsWindow-later t now (window key) (most key) (hits_of s.0 key)
                          (history key) h (Served-IsWindow before key)))))
            | inr other ↦
                rw
                  (
                    check-hits_of now key k p s,
                    other,
                    admit-other key k now (check now key p s).0 history other,
                  )
                  (IsWindow-later t now (window k) (most k) (hits_of s.0 k) (history k) h
                    (Served-IsWindow before k))
          ]
