-- ===== src/Model/Session/Examples.antt =====
-- The session repository (internal/model/mem_repos.go) with one session.
use domus.Prelude.{ℕ, ltb, codes, ◌+◌, ◌≡◌, refl, [], ◌∷◌, List, none, some, if◌then◌else◌}
use domus.Model.Result.{ok, after}
use domus.Model.Session.{SessionRepo, create, get, hex_encode}
use domus.Model.Session.Laws.{session_get-create}

abbrev empty : SessionRepo
empty = record { entries = []; populate_kek = none }

abbrev random : List ℕ
random = 1 ∷ 171 ∷ []

abbrev one_session : SessionRepo
one_session = after empty (create (codes "u1") (codes "ann") (codes "root") (ok random) 10 empty)

create_ok :
    create (codes "u1") (codes "ann") (codes "root") (ok random) 10 empty
    ≡ ok (codes "01ab", one_session)
unfolding create hex_encode
create_ok = refl

session_get-create_example : get (codes "01ab") 20 one_session ≡ (
    if ltb (10 + 604800000000000) 20
    then none
    else some (record {
      user_id = codes "u1";
      username = codes "ann";
      role = codes "root";
      created_at = 10;
      kek = [];
    }))
session_get-create_example =
    session_get-create (codes "u1") (codes "ann") (codes "root") (ok random) 10 20 empty create_ok
