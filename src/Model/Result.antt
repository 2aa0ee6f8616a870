-- ===== src/Model/Result.antt =====
-- The results of repository calls: a value, or one of the errors that the repositories return
-- (internal/model; `gorm.Err…` are values of package gorm).
pub data RepoError : Type 0 where
  record_not_found duplicated_key trash_state_conflict invalid_share_inode : RepoError
  username_exists hash_failed random_failed : RepoError

pub data Result {ℓ} (A : Type ℓ) : Type ℓ where
  ok : A → Result A
  err : RepoError → Result A

-- The state after a call that fails without a change.
abbrev pub or_keep {ℓ} : {S : Type ℓ} → S → Result S → S
or_keep s (ok s') = s'
or_keep s (err e) = s

-- The same for a call that returns a value too.
abbrev pub after {ℓ κ} : {A : Type ℓ} {S : Type κ} → S → Result (A × S) → S
after s (ok (a, s')) = s'
after s (err e) = s
