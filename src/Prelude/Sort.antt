-- ===== src/Prelude/Sort.antt =====
-- `sort.Slice(l, less)`: the items in an order in which none is `less` than one before it. The
-- library leaves the order of ties open; here they stay as they were.
use Prim.Native.Nat.{ℕ, zero, suc}
use mathlib.Core.Path.{◌≡◌}
use mathlib.Core.Bool.{Bool, true, false}
use mathlib.Core.Logic.{inl, inr}
use mathlib.Core.List.{List, [], ◌∷◌, Perm}
use mathlib.Core.List.Perm
use domus.Prelude.Tests.{if◌then◌else◌, Bool-cases}
use domus.Prelude.Lists.{All, All-take, take, drop}

module _ {ℓ} {A : Type ℓ} (less : A → A → Bool) where
  unfoldable insert_by : A → List A → List A
  insert_by x [] = x ∷ []
  insert_by x (y ∷ ys) = if less y x then y ∷ insert_by x ys else x ∷ y ∷ ys

  unfoldable pub sort_by : List A → List A
  unfolding insert_by
  sort_by [] = []
  sort_by (x ∷ xs) = insert_by x (sort_by xs)

  insert_by-perm : (x : A) (l : List A) → Perm (insert_by x l) (x ∷ l)
  unfolding insert_by
  insert_by-perm x [] = Perm.refl (x ∷ [])
  insert_by-perm x (y ∷ ys) = elim (Bool-cases (less y x)) [
    | inl t ↦ rw t (Perm.trans (Perm.cons y (insert_by-perm x ys)) (Perm.swap x y ys))
    | inr f ↦ rw f (Perm.refl (x ∷ y ∷ ys))
  ]

  pub sort_by-perm : (l : List A) → Perm (sort_by l) l
  unfolding sort_by
  sort_by-perm [] = Perm.refl []
  sort_by-perm (x ∷ xs) = Perm.trans (insert_by-perm x (sort_by xs)) (Perm.cons x (sort_by-perm xs))

  All-insert_by {κ} : (P : A → Type κ) (x : A) (l : List A) → P x → All P l → All P (insert_by x l)
  unfolding insert_by
  All-insert_by P x [] p a = (p, tt)
  All-insert_by P x (y ∷ ys) p a = elim (Bool-cases (less y x)) [
    | inl t ↦ rw t (a.0, All-insert_by P x ys p a.1)
    | inr f ↦ rw f (p, (a.0, a.1))
  ]

  pub All-sort_by {κ} : (P : A → Type κ) (l : List A) → All P l → All P (sort_by l)
  unfolding sort_by
  All-sort_by P [] a = tt
  All-sort_by P (x ∷ xs) a = All-insert_by P x (sort_by xs) a.0 (All-sort_by P xs a.1)

  -- No item is `less` than one before it.
  abbrev pub IsSortedBy : List A → Type 0
  IsSortedBy [] = Unit
  IsSortedBy (x ∷ xs) = All (λ y. less y x ≡ false) xs × IsSortedBy xs

  pub IsSortedBy-take : (n : ℕ) (l : List A) → IsSortedBy l → IsSortedBy (take n l)
  unfolding take
  IsSortedBy-take (suc n) (x ∷ xs) s =
      (All-take (λ y. less y x ≡ false) n xs s.0, IsSortedBy-take n xs s.1)
  IsSortedBy-take _ _ s = tt

  pub IsSortedBy-drop : (n : ℕ) (l : List A) → IsSortedBy l → IsSortedBy (drop n l)
  unfolding drop
  IsSortedBy-drop (suc n) (x ∷ xs) s = IsSortedBy-drop n xs s.1
  IsSortedBy-drop zero _ s = s
  IsSortedBy-drop (suc n) [] s = tt

  -- What makes `less` the strict part of a linear preorder.
  pub record IsWeakOrder : Type ℓ where
    pub asym : (x y : A) → less x y ≡ true → less y x ≡ false
    pub weak_trans : (x y z : A) → less y x ≡ false → less z y ≡ false → less z x ≡ false

  module _ (o : IsWeakOrder) where
    All-weak :
        (x y : A) (l : List A)
        → less y x ≡ false
        → All (λ z. less z y ≡ false) l
        → All (λ z. less z x ≡ false) l
    All-weak x y [] h a = tt
    All-weak x y (z ∷ l) h a = (o.weak_trans x y z h a.0, All-weak x y l h a.1)

    insert_by-IsSortedBy : (x : A) (l : List A) → IsSortedBy l → IsSortedBy (insert_by x l)
    unfolding insert_by
    insert_by-IsSortedBy x [] s = (tt, tt)
    insert_by-IsSortedBy x (y ∷ ys) s = elim (Bool-cases (less y x)) [
      | inl t ↦ rw t (
        All-insert_by (λ z. less z y ≡ false) x ys (o.asym y x t) s.0,
        insert_by-IsSortedBy x ys s.1,
      )
      | inr f ↦ rw f ((f, All-weak x y ys f s.0), (s.0, s.1))
    ]

    pub sort_by-IsSortedBy : (l : List A) → IsSortedBy (sort_by l)
    unfolding sort_by
    sort_by-IsSortedBy [] = tt
    sort_by-IsSortedBy (x ∷ xs) = insert_by-IsSortedBy x (sort_by xs) (sort_by-IsSortedBy xs)
