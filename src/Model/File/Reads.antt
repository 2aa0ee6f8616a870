-- ===== src/Model/File/Reads.antt =====
-- What `Get` shows after a path is written, and which records a listing shows
-- (internal/model/mem_repos.go).
use mathlib.Core.List.{Memᴰ}
use domus.Prelude.{
  ℕ, Text, str_eq, eq_iff, has_prefix, ℤ, int64_succ, Bool, true, &&-eq_true, ◌&&◌, ◌≡◌, refl, ap,
  subst, inl, inr, Option-cases, some, List, All, All-imp, arith, if◌then◌else◌,
}
use domus.Dict.{lookup}
use domus.Dict.Lookup.{lookup-insert_self, lookup-delete_where}
use domus.Dict.Found.{All-values_where, values_where_complete}
use domus.Model.Keys.{NoColon}
use domus.Model.Result.{ok, err, record_not_found}
use domus.Model.File.{
  FileRecord, FileRepo, UpsertOpts, file_key, get, is_under, list_by_prefix, status_ready,
}
use domus.Model.File.Basic.{fresh, rewritten, first, upsert, delete_by_prefix}
use domus.Model.File.Stored.{IsWf, found_at}

pub get_ok :
    (u p : Text) {f : FileRecord} (r : FileRepo)
    → lookup (file_key u p) r.entries ≡ some f
    → get u p r ≡ ok f
unfolding get
get_ok u p r l = rw (l, get)

pub lookup_of_get :
    (u p : Text) (f : FileRecord) (r : FileRepo)
    → get u p r ≡ ok f
    → lookup (file_key u p) r.entries ≡ some f
unfolding get
lookup_of_get u p f r h = ground arith

-- Writing to a path that has a record keeps the record's id, path and creation time, makes it
-- ready, and lets the generation of a file grow by one (as an int64) and that of a directory
-- stay.
get-upsert :
    (u p name : Text) (d : Bool) (size : ℤ) (type hash : Text) (o : List UpsertOpts) (now : ℕ)
    (r : FileRepo) (f : FileRecord)
    → get u p r ≡ ok f
    → (g : FileRecord) × (get u p (upsert u p name d size type hash o now r) ≡ ok g)
      × (g.id ≡ f.id)
      × (g.path ≡ f.path)
      × (g.created_at ≡ f.created_at)
      × (g.status ≡ status_ready)
      × (g.generation ≡ (if d then f.generation else int64_succ f.generation))
unfolding upsert rewritten
get-upsert u p name d size type hash o now r f h =
    let l = lookup_of_get u p f r h in
    (
      rewritten p name d size type hash (first o) now f,
      get_ok u p _ (rw (l, upsert) (lookup-insert_self (file_key u p) _ r.entries)),
      refl,
      refl,
      refl,
      refl,
      refl,
    )

-- Writing to a path without a record makes one there with the next id, of generation 1 if it is a
-- file, and the next id moves on.
get-upsert_new :
    (u p name : Text) (d : Bool) (size : ℤ) (type hash : Text) (o : List UpsertOpts) (now : ℕ)
    (r : FileRepo)
    → get u p r ≡ err record_not_found
    → (get u p (upsert u p name d size type hash o now r)
        ≡ ok (fresh r.next_id u p name d size type hash (first o) now))
      × ((upsert u p name d size type hash o now r).next_id ≡ int64_succ r.next_id)
unfolding upsert get
get-upsert_new u p name d size type hash o now r h =
    elim (Option-cases (lookup (file_key u p) r.entries)) [
      | inl n ↦ (
        rw (
          n,
          upsert,
          lookup-insert_self (file_key u p)
              (fresh r.next_id u p name d size type hash (first o) now) r.entries,
          get,
        ),
        rw (n, upsert),
      )
      | inr (f, l) ↦ absurd (ground arith)
    ]

-- After `DeleteByPrefix` on a well-formed repository the paths of that user that begin with the
-- prefix show nothing, and every other path of every user whose id holds no colon what it did.
get-delete_by_prefix :
    (u v prefix q : Text) (r : FileRepo)
    → NoColon v
    → IsWf r
    → get v q (delete_by_prefix u prefix r)
      ≡ (if str_eq v u && has_prefix q prefix then err record_not_found else get v q r)
unfolding get delete_by_prefix
get-delete_by_prefix u v prefix q r b w = elim (Option-cases (lookup (file_key v q) r.entries)) [
  | inl n ↦
      ground
        (arith, lookup-delete_where (λ _ f. is_under u prefix f) (file_key v q) r.entries w.is_map)
  | inr (f, l) ↦
      let (user, path) = found_at v q f r.entries b w l in
      ground (
        arith,
        lookup-delete_where (λ _ f. is_under u prefix f) (file_key v q) r.entries w.is_map,
        ap (λ x. str_eq x u) user,
        ap (λ x. has_prefix x prefix) path,
        l,
      )
]

-- A record that `ListByPrefix` shows: stored under its own path, of the user, below the prefix.
abbrev pub Below : Text → Text → FileRepo → FileRecord → Type 0
Below u prefix r f =
    (get f.user_id f.path r ≡ ok f) × (f.user_id ≡ u) × (has_prefix f.path prefix ≡ true)

-- `ListByPrefix` returns only records of the user below the prefix.
list_by_prefix_sound :
    (u prefix : Text) (r : FileRepo) → IsWf r → All (Below u prefix r) (list_by_prefix u prefix r)
unfolding list_by_prefix
list_by_prefix_sound u prefix r w =
    All-imp _
      (λ f (k, t, l).
        let (a, c) = &&-eq_true (str_eq f.user_id u) (has_prefix f.path prefix) t in
        (
          get_ok f.user_id f.path r
              (subst (λ x. lookup x r.entries ≡ some f) (w.stored k f l).keyed l),
          (eq_iff _ _).0 a,
          c,
        ))
      (All-values_where (λ _ f. is_under u prefix f) r.entries w.is_map)

-- And it returns every such record.
list_by_prefix_complete :
    (prefix : Text) (f : FileRecord) (r : FileRepo)
    → get f.user_id f.path r ≡ ok f
    → has_prefix f.path prefix ≡ true
    → Memᴰ f (list_by_prefix f.user_id prefix r)
unfolding list_by_prefix
list_by_prefix_complete prefix f r g h =
    values_where_complete (λ _ x. is_under f.user_id prefix x) (file_key f.user_id f.path) r.entries
      (lookup_of_get f.user_id f.path f r g) (ground (arith, h, eq_iff f.user_id f.user_id))
