-- ===== src/Model/Modify.antt =====
-- `v, ok := m[k]; if !ok { return gorm.ErrRecordNotFound }; v.field = …`: the shape of the
-- repositories' updates (internal/model/mem_repos.go). The map holds pointers, so the entry is
-- changed in place.
use domus.Prelude.{Text, Option-cases, ◌≡◌, inl, inr, none, some}
use domus.Dict.{Dict, lookup, insert, IsMap}
use domus.Dict.Keys.{insert-IsMap}
use domus.Dict.Holds.{Holds, Unique, Holds-insert, Unique-insert}
use domus.Model.Result.{Result, ok, err, record_not_found, or_keep}

module _ {ℓ} {V : Type ℓ} where
  unfoldable pub modify : Text → (V → V) → Dict V → Result (Dict V)
  modify k f m = elim (lookup k m) [ none ↦ err record_not_found | some v ↦ ok (insert k (f v) m) ]

  pub modify_ok :
      (k : Text) (f : V → V) {v : V} (m : Dict V)
      → lookup k m ≡ some v
      → modify k f m ≡ ok (insert k (f v) m)
  unfolding modify
  modify_ok k f m l = rw (l, modify)

  pub modify_missing :
      (k : Text) (f : V → V) (m : Dict V) → lookup k m ≡ none → modify k f m ≡ err record_not_found
  unfolding modify
  modify_missing k f m n = rw (n, modify)

  pub modify-IsMap :
      (k : Text) (f : V → V) (m : Dict V) → IsMap m → IsMap (or_keep m (modify k f m))
  modify-IsMap k f m u = elim (Option-cases (lookup k m)) [
    | inl n ↦ rw (modify_missing k f m n) u
    | inr (v, l) ↦ rw (modify_ok k f m l) (insert-IsMap k (f v) m u)
  ]

  pub modify-Holds {κ} :
      (P : Text → V → Type κ) (k : Text) (f : V → V) (m : Dict V)
      → ((j : Text) (v : V) → P j v → P j (f v))
      → Holds P m
      → Holds P (or_keep m (modify k f m))
  modify-Holds P k f m keep i = elim (Option-cases (lookup k m)) [
    | inl n ↦ rw (modify_missing k f m n) i
    | inr (v, l) ↦ rw (modify_ok k f m l) (Holds-insert P k (f v) m (keep k v (i k v l)) i)
  ]

  pub modify-Unique {κ} :
      (R : V → V → Type κ) (k : Text) (f : V → V) (m : Dict V)
      → ((a b : V) → R a b → R b a)
      → ((a b : V) → R (f a) b → R a b)
      → Unique R m
      → Unique R (or_keep m (modify k f m))
  modify-Unique R k f m symm back i = elim (Option-cases (lookup k m)) [
    | inl n ↦ rw (modify_missing k f m n) i
    | inr (v, l) ↦
        rw (modify_ok k f m l)
          (Unique-insert R k (f v) m symm (λ j b ne l' r. ne (i k j v b l l' (back v b r))) i)
  ]
