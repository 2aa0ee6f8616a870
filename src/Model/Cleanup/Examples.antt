-- ===== src/Model/Cleanup/Examples.antt =====
-- The deletion of a user (internal/model/mem_repos.go) from repositories with one user.
use domus.Prelude.{codes, str_eq, true, ◌≡◌, ◌||◌, none, refl, if◌then◌else◌, []}
use domus.Dict.{lookup, unless}
use domus.Model.Result.{ok, after}
use domus.Model.User
use domus.Model.Workspace
use domus.Model.Cleanup.{Repos, new_mem_repos, delete_user_and_related_data}
use domus.Model.Cleanup.Laws.{AreMaps, lookup-delete_user}

abbrev repos : Repos
repos = record (new_mem_repos true) {
  users = after [] (
      User.create (codes "ann") (ok (codes "hash")) (codes "user") (codes "kek") (codes "u1") 10
        []);
  workspace = Workspace.save (codes "u1") (codes "{}") [];
}

repos-AreMaps : AreMaps repos
unfolding User.create domus.Dict.find domus.Dict.insert lookup new_mem_repos Workspace.save
repos-AreMaps = record {
  users = (refl, tt);
  files = tt;
  trash = tt;
  sessions = tt;
  tasks = tt;
  shares = tt;
  workspace = (refl, tt);
}

lookup-delete_user_example :
    (lookup (codes "u1") (delete_user_and_related_data (codes "u1") repos).users
      ≡ (if str_eq (codes "u1") (codes "u1") then none else lookup (codes "u1") repos.users))
    × (lookup (codes "u1") (delete_user_and_related_data (codes "u1") repos).files.entries
        ≡ unless (λ f. str_eq f.user_id (codes "u1")) (lookup (codes "u1") repos.files.entries))
    × (lookup (codes "u1") (delete_user_and_related_data (codes "u1") repos).trash
        ≡ unless (λ e. str_eq e.user_id (codes "u1")) (lookup (codes "u1") repos.trash))
    × (lookup (codes "u1") (delete_user_and_related_data (codes "u1") repos).sessions.entries
        ≡ unless
            (λ e. str_eq e.session.user_id (codes "u1"))
            (lookup (codes "u1") repos.sessions.entries))
    × (lookup (codes "u1") (delete_user_and_related_data (codes "u1") repos).tasks.entries
        ≡ unless (λ t. str_eq t.user_id (codes "u1")) (lookup (codes "u1") repos.tasks.entries))
    × (lookup (codes "u1") (delete_user_and_related_data (codes "u1") repos).shares.entries
        ≡ unless
            (λ s. str_eq s.owner_id (codes "u1") || str_eq s.target_user_id (codes "u1"))
            (lookup (codes "u1") repos.shares.entries))
    × (lookup (codes "u1") (delete_user_and_related_data (codes "u1") repos).workspace
        ≡ (if str_eq (codes "u1") (codes "u1") then none else lookup (codes "u1") repos.workspace))
lookup-delete_user_example = lookup-delete_user (codes "u1") (codes "u1") repos repos-AreMaps
