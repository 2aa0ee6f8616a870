-- ===== src/Auth/Timed.antt =====
-- `timedStore` of internal/auth/challenge.go: a map whose entries expire. The clock's reading, in
-- nanoseconds, is an argument of each method that reads it.
pub mod Laws
pub mod Refines
use domus.Prelude.{ℕ, ◌+◌, ltb, Text, Bool, Option, none, some, if◌then◌else◌}
use domus.Dict.{Dict, lookup, insert, delete, delete_where}

pub record TimedEntry (T : Type 0) : Type 0 where
  pub value : T
  pub expires_at : ℕ

abbrev pub TimedStore : Type 0 → Type 0
TimedStore T = Dict (TimedEntry T)

module _ {T : Type 0} where
  unfoldable pub set : Text → T → ℕ → ℕ → TimedStore T → TimedStore T
  set key val ttl now s = insert key (record { value = val; expires_at = now + ttl }) s

  -- An entry that is found expired is deleted; deleting a key that is absent changes nothing.
  unfoldable pub get : Text → ℕ → TimedStore T → Option T × TimedStore T
  get key now s = elim (lookup key s) [
    | none ↦ (none, delete key s)
    | some e ↦ if ltb e.expires_at now then (none, delete key s) else (some e.value, s)
  ]

  unfoldable pub remove : Text → TimedStore T → TimedStore T
  remove key s = delete key s

  unfoldable pub clean : ℕ → TimedStore T → TimedStore T
  clean now s = delete_where (λ _ e. ltb e.expires_at now) s
