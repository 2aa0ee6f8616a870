-- ===== src/Auth/Timed/Laws.antt =====
-- What `timedStore.Get` returns after each method (internal/auth/challenge.go).
use domus.Prelude.{ℕ, ◌+◌, ◌≤◌, ltb, Text, str_eq, eq_iff, ◌≡◌, none, some, arith, if◌then◌else◌}
use domus.Dict.{IsMap}
use domus.Dict.Lookup.{lookup-insert, lookup-delete, lookup-delete_where}
use domus.Auth.Timed.{TimedStore, set, get, remove, clean}

module _ {T : Type 0} where
  -- A value that was set is returned until its time to live has passed and never after, and other
  -- keys show what they did.
  pub get-set :
      (k j : Text) (v : T) (ttl now later : ℕ) (s : TimedStore T)
      → (get j later (set k v ttl now s)).0 ≡ (
          if str_eq k j
          then (if ltb (now + ttl) later then none else some v)
          else (get j later s).0)
  unfolding get set
  get-set k j v ttl now later s =
      ground (arith, lookup-insert k j (record { value = v; expires_at = now + ttl }) s)

  -- A key that was removed shows nothing, and other keys show what they did.
  pub get-remove :
      (k j : Text) (later : ℕ) (s : TimedStore T)
      → (get j later (remove k s)).0 ≡ (if str_eq k j then none else (get j later s).0)
  unfolding get remove
  get-remove k j later s = ground (arith, lookup-delete k j s)

  -- Reading, which may delete an expired entry, changes nothing that a later read shows.
  pub get-get :
      (k j : Text) (now later : ℕ) (s : TimedStore T)
      → now ≤ later
      → (get j later (get k now s).1).0 ≡ (get j later s).0
  unfolding get
  get-get k j now later s h = ground (arith, lookup-delete k j s, eq_iff k j)

  -- Cleaning changes nothing that a later read shows.
  pub get-clean :
      (j : Text) (now later : ℕ) (s : TimedStore T)
      → IsMap s
      → now ≤ later
      → (get j later (clean now s)).0 ≡ (get j later s).0
  unfolding get clean
  get-clean j now later s u h =
      ground (arith, lookup-delete_where (λ _ e. ltb e.expires_at now) j s u)
