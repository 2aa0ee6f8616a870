-- ===== src/Model/Share/Examples.antt =====
-- The share repository (internal/model/mem_repos.go) with one share.
use domus.Prelude.{codes, pos, true, ◌≡◌, ◌↔◌, [], ◌∷◌, List, some}
use domus.Dict.Holds.{Holds-empty}
use domus.Model.Result.{ok}
use domus.Model.Share.{Share, ShareRepo, get_by_id, remove}
use domus.Model.Share.Invariant.{IsWf, IsStored, Call, creates, run, share_run-IsWf}
use domus.Model.Share.Laws.{Party, remove_iff}

abbrev share : Share
share = record {
  id = pos 0;
  share_id = codes "s1";
  owner_id = codes "ann";
  file_inode = pos 7;
  file_path = codes "/a";
  file_name = codes "a";
  file_size = pos 3;
  content_type = codes "text/plain";
  target_user_id = codes "bob";
  wrapped_dek = codes "dek";
  permission = codes "read";
  expires_at = some 100;
  created_at = 0;
}

abbrev calls : List Call
calls = creates (some share) 10 ∷ []

abbrev empty : ShareRepo
empty = record { entries = []; next_id = pos 1 }

abbrev one_share : ShareRepo
one_share = run calls empty

empty-IsWf : IsWf empty
empty-IsWf = record { is_map = tt; stored = Holds-empty IsStored }

one_share-IsWf : IsWf one_share
one_share-IsWf = share_run-IsWf calls empty empty-IsWf

remove_iff_example : ((remove (pos 1) (codes "bob") one_share).0 ≡ true) ↔ (
    (s : Share) × (get_by_id s.share_id one_share ≡ ok s) × (s.id ≡ pos 1) × Party (codes "bob") s)
remove_iff_example = remove_iff (pos 1) (codes "bob") one_share one_share-IsWf
