-- ===== src/Model/Cleanup.antt =====
-- `NewMemRepos`, `memAuditRepo` and `memUserCleanupRepo` of internal/model/mem_repos.go: the
-- repositories together, and the deletion of a user from all of them.
use domus.Prelude.{ℕ, Text, str_eq, ℤ, pos, Bool, ◌||◌, Option, none, List, [], if◌then◌else◌}
use domus.Dict.{delete_where, delete}
use domus.Model.Trash.{TrashRepo, delete_by_user_id}
use domus.Model.User.{UserRepo}
use domus.Model.Session
use domus.Model.Session.{Session, SessionRepo}
use domus.Model.Task.{TaskRepo}
use domus.Model.Share.{ShareRepo}
use domus.Model.File.{FileRepo}
use domus.Model.Workspace.{WorkspaceRepo}
pub mod Laws
mod Examples

pub record Repos : Type 0 where
  pub users : UserRepo
  pub files : FileRepo
  pub trash : TrashRepo
  pub sessions : SessionRepo
  pub tasks : TaskRepo
  pub shares : ShareRepo
  pub workspace : WorkspaceRepo

-- `on_task_update` says whether a callback is given.
unfoldable pub new_mem_repos : Bool → Repos
new_mem_repos on_task_update = record {
  users = [];
  files = record { entries = []; next_id = pos 1 };
  trash = [];
  sessions = record { entries = []; populate_kek = none };
  tasks = record { entries = []; next_id = pos 1; notifies = on_task_update };
  shares = record { entries = []; next_id = pos 1 };
  workspace = [];
}

unfoldable pub delete_user_and_related_data : Text → Repos → Repos
unfolding delete_by_user_id
delete_user_and_related_data user_id r = record {
  shares = record r.shares {
    entries =
        delete_where (λ _ s. str_eq s.owner_id user_id || str_eq s.target_user_id user_id)
          r.shares.entries;
  };
  files = record r.files {
    entries = delete_where (λ _ f. str_eq f.user_id user_id) r.files.entries;
  };
  trash = delete_by_user_id user_id r.trash;
  tasks = record r.tasks {
    entries = delete_where (λ _ t. str_eq t.user_id user_id) r.tasks.entries;
  };
  workspace = delete user_id r.workspace;
  sessions = record r.sessions {
    entries = delete_where (λ _ e. str_eq e.session.user_id user_id) r.sessions.entries;
  };
  users = delete user_id r.users;
}
