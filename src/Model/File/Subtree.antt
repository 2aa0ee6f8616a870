-- ===== src/Model/File/Subtree.antt =====
-- Where the records of a subtree are after `MoveByPrefix` (internal/model/mem_repos.go).
use mathlib.Core.List.{Memᴰ}
use domus.Prelude.{
  ℕ, Text, str_eq, eq_iff, has_prefix, has_prefix-append, append-drop_of_has_prefix,
  drop-length-append, drop, length, true, false, &&-eq_true, ◌≡◌, ◌⊎◌, sym, ◌∙◌, ap, subst, inl,
  inr, Bool-cases, some, List, [], ◌∷◌, ◌++◌, All, All-imp, arith,
}
use domus.Dict.{Dict, lookup, insert, values_where, delete_where}
use domus.Dict.Lookup.{lookup-insert, lookup-insert_self}
use domus.Dict.Found.{All-values_where, values_where_complete}
use domus.Model.Keys.{NoColon}
use domus.Model.Result.{ok}
use domus.Model.File.{FileRecord, FileRepo, file_key, get, is_under}
use domus.Model.File.Move.{reparented, store_all, move_by_prefix, move_by_prefix_with}
use domus.Model.File.Stored.{IsStore, IsWf, found_at, file_key-injective}
use domus.Model.File.Reads.{get_ok, lookup_of_get}

append-injective : (p s t : Text) → p ++ s ≡ p ++ t → s ≡ t
append-injective [] s t h = h
append-injective (x ∷ p) s t h = append-injective p s t (cc)

module _ (u old new : Text) (now : ℕ) (a : NoColon u) (f : FileRecord) where
  -- Each record of the list lies below the prefix, and one at the path of `f` is `f`.
  abbrev Lines : List FileRecord → Type 0
  Lines = All (λ g. (has_prefix g.path old ≡ true) × (g.path ≡ f.path → g ≡ f))

  path_of : FileRecord → Text
  path_of g = (reparented old new now g).path

  same_target :
      (g : FileRecord)
      → has_prefix g.path old ≡ true
      → has_prefix f.path old ≡ true
      → file_key u (path_of g) ≡ file_key u (path_of f)
      → g.path ≡ f.path
  unfolding path_of reparented
  same_target g h k e =
      sym (append-drop_of_has_prefix g.path old h)
      ∙ (ap (◌++◌ old) (append-injective new _ _ (file_key-injective u u _ _ a a e).1)
          ∙ append-drop_of_has_prefix f.path old k)

  store_all_shows :
      (fs : List FileRecord) (m : Dict FileRecord)
      → has_prefix f.path old ≡ true
      → Lines fs
      → Memᴰ f fs ⊎ (lookup (file_key u (path_of f)) m ≡ some (reparented old new now f))
      → lookup (file_key u (path_of f)) (store_all u old new now fs m)
        ≡ some (reparented old new now f)
  unfolding store_all path_of
  store_all_shows [] m k h (inl e) = elim e [ ]
  store_all_shows [] m k h (inr l) = l
  store_all_shows (g ∷ fs) m k h e =
      elim (Bool-cases (str_eq (file_key u (path_of g)) (file_key u (path_of f)))) [
        | inl t ↦
            let same : g ≡ f = h.0.1 (same_target g h.0.0 k ((eq_iff _ _).0 t)) in
            store_all_shows fs _ k h.1 (
              inr (
                subst
                  (λ x.
                    lookup (file_key u (path_of f))
                      (insert (file_key u (path_of x)) (reparented old new now x) m)
                    ≡ some (reparented old new now f))
                  (sym same) (lookup-insert_self _ _ m)))
        | inr n ↦ store_all_shows fs _ k h.1 (later e n)
      ]
    where
      later :
          Memᴰ f (g ∷ fs) ⊎ (lookup (file_key u (path_of f)) m ≡ some (reparented old new now f))
          → str_eq (file_key u (path_of g)) (file_key u (path_of f)) ≡ false
          → Memᴰ f fs
            ⊎ (lookup
                  (file_key u (path_of f))
                  (insert (file_key u (path_of g)) (reparented old new now g) m)
                ≡ some (reparented old new now f))
      later (inr l) n = inr (rw (lookup-insert _ _ _ m) (rw n l))
      later (inl (Memᴰ.tail t)) n = inl t
      later (inl (Memᴰ.head p)) n = absurd (
          ground (
            arith,
            eq_iff (file_key u (path_of g)) (file_key u (path_of f)),
            ap (λ x. file_key u (path_of x)) p,
          ))

lookup_unique :
    (m : Dict FileRecord) (k : Text) (g f : FileRecord)
    → lookup k m ≡ some g
    → lookup k m ≡ some f
    → g ≡ f
lookup_unique m k g f a b = ground arith

-- The records below the prefix, and that one at the path of `f` is `f`.
Lines-under :
    (u old new : Text) (now : ℕ) (a : NoColon u) (f : FileRecord) (m : Dict FileRecord)
    → IsStore m
    → lookup (file_key u f.path) m ≡ some f
    → Lines u old new now a f (values_where (λ _ g. is_under u old g) m)
Lines-under u old new now a f m w l =
    All-imp _
      (λ g (k, t, c).
        let (user, under) = &&-eq_true (str_eq g.user_id u) (has_prefix g.path old) t in
        let key : k ≡ file_key u g.path =
          (w.stored k g c).keyed ∙ ap (λ x. file_key x g.path) ((eq_iff _ _).0 user) in
        (
          under,
          λ same.
              lookup_unique m (file_key u f.path) g f
                (subst (λ x. lookup x m ≡ some g) (key ∙ ap (file_key u) same) c) l,
        ))
      (All-values_where (λ _ g. is_under u old g) m w.is_map)

move_by_prefix_ok :
    (u old new : Text) (now : ℕ) (r : FileRepo) {r' : FileRepo}
    → move_by_prefix u old new now r ≡ ok r'
    → r'.entries
      ≡ store_all u old new now
          (values_where (λ _ f. is_under u old f) r.entries)
          (delete_where (λ _ f. is_under u old f) r.entries)
unfolding move_by_prefix move_by_prefix_with
move_by_prefix_ok u old new now r h = ground arith

-- Moving a subtree of a well-formed repository, for a user whose id holds no colon: if the move
-- succeeds, what `Get` returned at `old ++ s` is afterwards at `new ++ s`, with only path, parent
-- and time of change rewritten, also where the new prefix had records of its own.
pub get-move_by_prefix :
    (u old new s : Text) (now : ℕ) (r : FileRepo) (f : FileRecord) {r' : FileRepo}
    → NoColon u
    → IsWf r
    → get u (old ++ s) r ≡ ok f
    → move_by_prefix u old new now r ≡ ok r'
    → get u (new ++ s) r' ≡ ok (reparented old new now f)
unfolding path_of reparented
get-move_by_prefix u old new s now r f {r'} a w g h =
    let l = lookup_of_get u (old ++ s) f r g in
    let (user, path) = found_at u (old ++ s) f r.entries a w l in
    let l' : lookup (file_key u f.path) r.entries ≡ some f =
      subst (λ x. lookup (file_key u x) r.entries ≡ some f) path l in
    let under : has_prefix f.path old ≡ true =
      subst (λ x. has_prefix x old ≡ true) path (has_prefix-append old s) in
    let target : new ++ drop (length old) f.path ≡ new ++ s =
      ap (λ x. new ++ drop (length old) x) (sym path) ∙ ap (◌++◌ new) (drop-length-append old s) in
    let shown =
      store_all_shows u old new now a f (values_where (λ _ x. is_under u old x) r.entries)
        (delete_where (λ _ x. is_under u old x) r.entries) under
        (Lines-under u old new now a f r.entries w l')
        (inl (
          values_where_complete (λ _ x. is_under u old x) (file_key u f.path) r.entries l'
            (ground (arith, under, eq_iff f.user_id u, user)))) in
    get_ok u (new ++ s) r' (
      subst (λ x. lookup (file_key u x) r'.entries ≡ some (reparented old new now f)) target
        (rw (move_by_prefix_ok u old new now r h) shown))
