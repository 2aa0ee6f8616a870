-- ===== src/Handler/Admin/Examples.antt =====
-- Managing users (internal/handler/admin.go) with one root user.
use domus.Prelude.{ℕ, ◌≤◌, codes, Option, none, some, List, [], ◌∷◌, ◌≡◌, refl, true, false, arith}
use domus.Model.Result.{ok}
use domus.Model.User.{User, UserRepo, count_by_role}
use domus.Model.User.Invariant.{Call, creates, run, IsWf, empty-IsWf, user_run-IsWf}
use domus.Model.Cleanup.{Repos, new_mem_repos}
use domus.Handler.Admin.Remains.{
  Request, creates_user, updates_user, deletes_user, serve_all, AreFresh, root_remains,
}

abbrev calls : List Call
calls = creates (codes "ann") (ok (codes "hash")) (codes "root") (codes "kek") (codes "u1") 10 ∷ []

abbrev repos : Repos
repos = record (new_mem_repos true) { users = run calls [] }

abbrev requests : List Request
requests =
    creates_user (codes "bob") (codes "pw") (codes "root") (ok (codes "kek")) (ok (codes "hash"))
      (codes "u2") 20 (some true)
    ∷ deletes_user (codes "u1") (codes "u2")
    ∷ updates_user (codes "u2") (codes "user") [] (ok [])
    ∷ []

requests_fresh : AreFresh requests repos
unfolding AreFresh domus.Dict.lookup run domus.Model.User.create domus.Dict.find domus.Dict.insert
    domus.Prelude.str_eq
requests_fresh = (refl, (tt, (tt, tt)))

one_root : count_by_role (codes "root") repos.users ≡ 1
unfolding count_by_role domus.Dict.values_where run domus.Model.User.create domus.Dict.find
    domus.Dict.insert domus.Prelude.str_eq
one_root = refl

root_remains_example :
    IsWf (serve_all requests repos).users
    × (1 ≤ count_by_role (codes "root") (serve_all requests repos).users)
root_remains_example =
    root_remains requests repos requests_fresh (user_run-IsWf calls [] empty-IsWf)
      (omega (arith, one_root))
