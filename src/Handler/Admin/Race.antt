-- ===== src/Handler/Admin/Race.antt =====
-- Two requests at the same time: the guard of internal/handler/admin_root_guard.go and the change
-- of the role in internal/handler/admin.go are separate calls of the repository.
use domus.Prelude.{
  some, ◌+◌, codes, Text, str_eq, ◌≡◌, ◌≢◌, refl, [], arith, subst, sym, ap, eq_iff, ◌∙◌,
}
use domus.Dict.{lookup}
use domus.Dict.Lookup.{lookup-insert}
use domus.Dict.Count.{one_if, count_where, count_where-insert}
use domus.Model.Result.{ok, or_keep}
use domus.Model.User.{User, UserRepo, get_by_id, update_role, count_by_role}
use domus.Handler.Admin.{ensure_not_demoting_last_root}
use domus.Handler.Admin.Roots.{is_root, roots, count_roots, read_user, changed}

not_root : one_if (str_eq (codes "user") (codes "root")) ≡ 0
unfolding str_eq
not_root = refl

root : one_if (str_eq (codes "root") (codes "root")) ≡ 1
unfolding str_eq
root = refl

demoted_root :
    (id : Text) (w : User) (users : UserRepo)
    → lookup id users ≡ some w
    → w.role ≡ codes "root"
    → roots (or_keep users (update_role id (codes "user") users)) + 1 ≡ roots users
unfolding roots
demoted_root id w users l e =
    subst (λ m. count_where is_root m + 1 ≡ count_where is_root users)
      (sym (changed id (codes "user") w users l))
      (omega (
        arith,
        count_where-insert is_root id (record w { role = codes "user" }) w users l,
        ap (λ x. one_if (str_eq x (codes "root"))) e,
        not_root,
        root,
      ))

guard_open :
    (users : UserRepo) (u : User)
    → count_by_role (codes "root") users ≡ 2
    → ensure_not_demoting_last_root users u (codes "user") ≡ []
unfolding ensure_not_demoting_last_root
guard_open users u c = ground (arith, c)

-- If both of the last two root users are to be demoted, and both guards are asked before either
-- role is changed, then both guards let it pass, and no root user is left.
both_demoted :
    (i j : Text) (u v : User) (users : UserRepo)
    → i ≢ j
    → get_by_id i users ≡ ok u
    → get_by_id j users ≡ ok v
    → u.role ≡ codes "root"
    → v.role ≡ codes "root"
    → count_by_role (codes "root") users ≡ 2
    → let users' = or_keep users (update_role i (codes "user") users) in
      (ensure_not_demoting_last_root users u (codes "user") ≡ [])
      × (ensure_not_demoting_last_root users v (codes "user") ≡ [])
      × (count_by_role (codes "root") (or_keep users' (update_role j (codes "user") users')) ≡ 0)
both_demoted i j u v users ne g h a b c = (
  guard_open users u c,
  guard_open users v c,
  count_roots _
      ∙ omega (
        arith,
        demoted_root i u users (read_user i u users g) a,
        demoted_root j v users' kept b,
        sym (count_roots users) ∙ c,
      ),
)
  where
    users' : UserRepo
    users' = or_keep users (update_role i (codes "user") users)

    kept : lookup j users' ≡ some v
    kept =
        subst (λ m. lookup j m ≡ some v)
          (sym (changed i (codes "user") u users (read_user i u users g)))
          (ground (
            arith,
            lookup-insert i j (record u { role = codes "user" }) users,
            eq_iff i j,
            read_user j v users h,
            ne,
          ))
