-- ===== src/Base/Sort.antt =====
-- Python's `sorted` by a key, as a stable insertion sort on a Boolean order, and the order of texts.
use Prim.Native.Char.{code}
use Prim.Native.String.{String}
use Prim.Native.Nat.{suc}
use mathlib.Core.Path.{◌≡◌, refl, sym, subst, ap₂}
use mathlib.Core.Bool.{Bool, true, false, Bool-set}
use mathlib.Core.Logic.{◌⊎◌, inl, inr}
use mathlib.Core.Logic.Or
use mathlib.Core.List.{List, [], ◌∷◌, Perm, Mem, mem-cons, not-mem-nil}
use mathlib.Core.List.Perm
use native.Mathlib.Omega.{arith}
use text.Mathlib.TextEquality.{Char-path}
use newchanges.Base.Tests.{ltb, ◌==◌, if◌then◌else◌, Bool-cases}
use newchanges.Base.Lists.{All, length}

-- `s <= t` on texts, which Python and the database compare by code points
unfoldable pub text_le : String → String → Bool
text_le String.[] t = true
text_le (String.◌∷◌ c s) String.[] = false
text_le (String.◌∷◌ c s) (String.◌∷◌ d t) =
    let rest = text_le s t in
    if ltb (code c) (code d) then true else if code c == code d then rest else false

pub text_le_total : (s t : String) → (text_le s t ≡ true) ⊎ (text_le t s ≡ true)
unfolding text_le
text_le_total String.[] t = inl refl
text_le_total (String.◌∷◌ c s) String.[] = inr refl
text_le_total (String.◌∷◌ c s) (String.◌∷◌ d t) = ground (arith, text_le_total s t)

pub text_le_trans : (s t u : String) → text_le s t ≡ true → text_le t u ≡ true → text_le s u ≡ true
unfolding text_le
text_le_trans String.[] t u h k = refl
text_le_trans (String.◌∷◌ c s) String.[] u h k = cc
text_le_trans (String.◌∷◌ c s) (String.◌∷◌ d t) String.[] h k = cc
text_le_trans (String.◌∷◌ c s) (String.◌∷◌ d t) (String.◌∷◌ e u) h k =
    ground (arith, text_le_trans s t u)

pub text_le_antisymm : (s t : String) → text_le s t ≡ true → text_le t s ≡ true → s ≡ t
unfolding text_le
text_le_antisymm String.[] String.[] h k = refl
text_le_antisymm String.[] (String.◌∷◌ d t) h k = cc
text_le_antisymm (String.◌∷◌ c s) String.[] h k = cc
text_le_antisymm (String.◌∷◌ c s) (String.◌∷◌ d t) h k =
    ap₂ String.◌∷◌ (Char-path c d (ground arith))
      (text_le_antisymm s t (ground arith) (ground arith))

module _ {ℓ} {A : Type ℓ} (le : A → A → Bool) where
  unfoldable pub insert : A → List A → List A
  insert e [] = e ∷ []
  insert e (x ∷ xs) = let later = x ∷ insert e xs in if le e x then e ∷ x ∷ xs else later

  unfoldable pub sort_by : List A → List A
  unfolding insert
  sort_by [] = []
  sort_by (e ∷ es) = insert e (sort_by es)

  abbrev pub IsBelow : A → List A → Type 0
  IsBelow e = All (λ x. le e x ≡ true)

  abbrev pub IsSorted : List A → Type 0
  IsSorted [] = Unit
  IsSorted (x ∷ xs) = IsBelow x xs × IsSorted xs

  insert-perm : (e : A) (xs : List A) → Perm (insert e xs) (e ∷ xs)
  unfolding insert
  insert-perm e [] = Perm.rfl
  insert-perm e (x ∷ xs) = elim (Bool-cases (le e x)) [
    | inl h ↦ rw h Perm.rfl
    | inr h ↦ rw h (Perm.trans (Perm.cons x (insert-perm e xs)) (Perm.swap e x xs))
  ]

  pub sort_by-perm : (es : List A) → Perm (sort_by es) es
  unfolding sort_by
  sort_by-perm [] = Perm.rfl
  sort_by-perm (e ∷ es) = Perm.trans (insert-perm e (sort_by es)) (Perm.cons e (sort_by-perm es))

  pub length-insert : (e : A) (xs : List A) → length (insert e xs) ≡ suc (length xs)
  unfolding insert
  length-insert e [] = omega arith
  length-insert e (x ∷ xs) = ground (arith, length-insert e xs)

  pub length-sort_by : (es : List A) → length (sort_by es) ≡ length es
  unfolding sort_by
  length-sort_by [] = omega arith
  length-sort_by (e ∷ es) = omega (arith, length-insert e (sort_by es), length-sort_by es)

  module _ (total : (a b : A) → (le a b ≡ true) ⊎ (le b a ≡ true))
      (trans : (a b c : A) → le a b ≡ true → le b c ≡ true → le a c ≡ true) where
    IsBelow-trans : (a b : A) (xs : List A) → le a b ≡ true → IsBelow b xs → IsBelow a xs
    IsBelow-trans a b [] h k = tt
    IsBelow-trans a b (x ∷ xs) h (p, k) = (trans a b x h p, IsBelow-trans a b xs h k)

    IsBelow-insert :
        (a e : A) (xs : List A) → le a e ≡ true → IsBelow a xs → IsBelow a (insert e xs)
    unfolding insert
    IsBelow-insert a e [] h k = (h, tt)
    IsBelow-insert a e (x ∷ xs) h k = ground (arith, IsBelow-insert a e xs h k.1)

    insert-IsSorted : (e : A) (xs : List A) → IsSorted xs → IsSorted (insert e xs)
    unfolding insert
    insert-IsSorted e [] s = (tt, tt)
    insert-IsSorted e (x ∷ xs) s = elim (Bool-cases (le e x)) [
      | inl h ↦ rw h ((h, IsBelow-trans e x xs h s.0), s)
      | inr h ↦
          rw h (IsBelow-insert x e xs (ground (arith, total e x)) s.0, insert-IsSorted e xs s.1)
    ]

    pub sort_by-IsSorted : (es : List A) → IsSorted (sort_by es)
    unfolding sort_by
    sort_by-IsSorted [] = tt
    sort_by-IsSorted (e ∷ es) = insert-IsSorted e (sort_by es) (sort_by-IsSorted es)

    below_refl : (a : A) → le a a ≡ true
    below_refl a = ground (arith, total a a)

    -- The head of a sorted list is below each of its members.
    pub head_below :
        (h : A) (xs : List A) (x : A) → IsSorted (h ∷ xs) → Mem x (h ∷ xs) → le h x ≡ true
    head_below h xs x s m =
        Or.elim (Bool-set _ _) (mem-cons.0 m)
          (λ e. subst (λ y. le h y ≡ true) (sym e) (below_refl h)) (below xs s.0)
      where
        below : (ys : List A) → IsBelow h ys → Mem x ys → le h x ≡ true
        below [] b n = absurd (not-mem-nil n)
        below (y ∷ ys) b n =
            Or.elim (Bool-set _ _) (mem-cons.0 n) (λ e. subst (λ z. le h z ≡ true) (sym e) b.0)
              (below ys b.1)
