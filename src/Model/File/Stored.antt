-- ===== src/Model/File/Stored.antt =====
-- Where `memFileRepo` (internal/model/mem_repos.go) keeps a record: at the key of its user and path.
use domus.Prelude.{Text, Bool, ◌≡◌, some}
use domus.Dict.{Dict, lookup, insert, delete, delete_where, IsMap}
use domus.Dict.Keys.{insert-IsMap, delete-IsMap, delete_where-IsMap}
use domus.Dict.Holds.{Holds, Holds-insert, Holds-delete, Holds-delete_where}
use domus.Model.Keys.{NoColon, colon-injective}
use domus.Model.File.{FileRecord, FileRepo, file_key}

-- A record is stored at the key of its user and path, and its user's id holds no colon.
pub record IsStored (k : Text) (f : FileRecord) : Type 0 where
  pub keyed : k ≡ file_key f.user_id f.path
  pub no_colon : NoColon f.user_id

pub record IsStore (m : Dict FileRecord) : Type 0 where
  pub is_map : IsMap m
  pub stored : Holds IsStored m

abbrev pub IsWf : FileRepo → Type 0
IsWf r = IsStore r.entries

pub file_key-injective :
    (u v p q : Text) → NoColon u → NoColon v → file_key u p ≡ file_key v q → (u ≡ v) × (p ≡ q)
unfolding file_key
file_key-injective u v p q a b e = colon-injective u v p q a b e

-- The record that a lookup by user and path shows is that user's, at that path.
pub found_at :
    (u p : Text) (f : FileRecord) (m : Dict FileRecord)
    → NoColon u
    → IsStore m
    → lookup (file_key u p) m ≡ some f
    → (u ≡ f.user_id) × (p ≡ f.path)
found_at u p f m a w l =
    let s = w.stored (file_key u p) f l in
    file_key-injective u f.user_id p f.path a s.no_colon s.keyed

pub put-IsStore :
    (k : Text) (f : FileRecord) (m : Dict FileRecord)
    → IsStored k f
    → IsStore m
    → IsStore (insert k f m)
put-IsStore k f m s w = record {
  is_map = insert-IsMap k f m w.is_map;
  stored = Holds-insert IsStored k f m s w.stored;
}

pub delete-IsStore : (k : Text) (m : Dict FileRecord) → IsStore m → IsStore (delete k m)
delete-IsStore k m w = record {
  is_map = delete-IsMap k m w.is_map;
  stored = Holds-delete IsStored k m w.stored;
}

pub delete_where-IsStore :
    (p : Text → FileRecord → Bool) (m : Dict FileRecord) → IsStore m → IsStore (delete_where p m)
delete_where-IsStore p m w = record {
  is_map = delete_where-IsMap p m w.is_map;
  stored = Holds-delete_where IsStored p m w.is_map w.stored;
}

-- A changed record keeps its place when it keeps its user and path.
pub change-IsStored :
    (k : Text) (f g : FileRecord)
    → g.user_id ≡ f.user_id
    → g.path ≡ f.path
    → IsStored k f
    → IsStored k g
change-IsStored k f g u p s = record { keyed = rw (u, p) s.keyed; no_colon = rw u s.no_colon }
