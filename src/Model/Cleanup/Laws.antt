-- ===== src/Model/Cleanup/Laws.antt =====
-- Deleting a user leaves nothing of that user in any repository and touches nothing of anybody
-- else (`DeleteUserAndRelatedData` of internal/model/mem_repos.go).
use domus.Prelude.{Text, str_eq, ◌||◌, ◌≡◌, none, if◌then◌else◌}
use domus.Dict.{lookup, IsMap, unless}
use domus.Dict.Lookup.{lookup-delete, lookup-delete_where}
use domus.Model.Cleanup.{Repos, delete_user_and_related_data}

-- Every map of the repositories has one entry for a key.
pub record AreMaps (r : Repos) : Type 0 where
  pub users : IsMap r.users
  pub files : IsMap r.files.entries
  pub trash : IsMap r.trash
  pub sessions : IsMap r.sessions.entries
  pub tasks : IsMap r.tasks.entries
  pub shares : IsMap r.shares.entries
  pub workspace : IsMap r.workspace

-- After the deletion of a user, each key of each repository's map shows nothing where the entry
-- was the user's (for a share, as owner or as target), and otherwise what it showed; the maps
-- have one entry for a key.
pub lookup-delete_user :
    (u k : Text) (r : Repos)
    → AreMaps r
    → (lookup k (delete_user_and_related_data u r).users
        ≡ (if str_eq u k then none else lookup k r.users))
      × (lookup k (delete_user_and_related_data u r).files.entries
          ≡ unless (λ f. str_eq f.user_id u) (lookup k r.files.entries))
      × (lookup k (delete_user_and_related_data u r).trash
          ≡ unless (λ e. str_eq e.user_id u) (lookup k r.trash))
      × (lookup k (delete_user_and_related_data u r).sessions.entries
          ≡ unless (λ e. str_eq e.session.user_id u) (lookup k r.sessions.entries))
      × (lookup k (delete_user_and_related_data u r).tasks.entries
          ≡ unless (λ t. str_eq t.user_id u) (lookup k r.tasks.entries))
      × (lookup k (delete_user_and_related_data u r).shares.entries
          ≡ unless
              (λ s. str_eq s.owner_id u || str_eq s.target_user_id u)
              (lookup k r.shares.entries))
      × (lookup k (delete_user_and_related_data u r).workspace
          ≡ (if str_eq u k then none else lookup k r.workspace))
unfolding delete_user_and_related_data
lookup-delete_user u k r w = (
  lookup-delete u k r.users,
  lookup-delete_where (λ _ f. str_eq f.user_id u) k r.files.entries w.files,
  lookup-delete_where (λ _ e. str_eq e.user_id u) k r.trash w.trash,
  lookup-delete_where (λ _ e. str_eq e.session.user_id u) k r.sessions.entries w.sessions,
  lookup-delete_where (λ _ t. str_eq t.user_id u) k r.tasks.entries w.tasks,
  lookup-delete_where (λ _ s. str_eq s.owner_id u || str_eq s.target_user_id u) k r.shares.entries
      w.shares,
  lookup-delete u k r.workspace,
)
