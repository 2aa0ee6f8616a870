-- ===== src/Auth/Timed/Refines.antt =====
-- What a store with expiring entries promises, and that `timedStore` of internal/auth/challenge.go
-- keeps it: the entries that it deletes were not to be seen.
use domus.Prelude.{
  ℕ, ◌+◌, ◌≤◌, ltb, Text, str_eq, Option, none, some, List, [], ◌∷◌, if◌then◌else◌, ◌≡◌, refl, ap,
  ◌∙◌, arith, Bool-cases, inl, inr,
}
use domus.Dict.{lookup, insert, delete, delete_where, IsMap}
use domus.Dict.Keys.{insert-IsMap, delete-IsMap, delete_where-IsMap}
use domus.Auth.Timed.{TimedEntry, TimedStore, set, get, remove, clean}
use domus.Auth.Timed.Laws.{get-set, get-remove, get-get, get-clean}

-- A call of the store.
pub data Call (T : Type 0) : Type 0 where
  sets : Text → T → ℕ → Call T
  gets : Text → Call T
  removes : Text → Call T
  cleans : Call T

-- The specification: a function from keys to values with the time until which they are shown.
-- Nothing but `remove` takes a value away.
abbrev pub Spec : Type 0 → Type 0
Spec T = Text → Option (TimedEntry T)

module _ {T : Type 0} where
  unfoldable pub shown : ℕ → Option (TimedEntry T) → Option T
  shown now none = none
  shown now (some e) = if ltb e.expires_at now then none else some e.value

  unfoldable pub spec_step : Call T → ℕ → Spec T → Option T × Spec T
  spec_step (sets k v ttl) now f =
      (none, λ j. if str_eq k j then some (record { value = v; expires_at = now + ttl }) else f j)
  spec_step (gets k) now f = (shown now (f k), f)
  spec_step (removes k) now f = (none, λ j. if str_eq k j then none else f j)
  spec_step cleans now f = (none, f)

  unfoldable pub store_step : Call T → ℕ → TimedStore T → Option T × TimedStore T
  store_step (sets k v ttl) now s = (none, set k v ttl now s)
  store_step (gets k) now s = get k now s
  store_step (removes k) now s = (none, remove k s)
  store_step cleans now s = (none, clean now s)

  -- The results of calls, each with the clock's reading.
  unfoldable pub spec_run : List (Call T × ℕ) → Spec T → List (Option T)
  spec_run [] f = []
  spec_run ((c, now) ∷ cs) f = let (out, f') = spec_step c now f in out ∷ spec_run cs f'

  unfoldable pub store_run : List (Call T × ℕ) → TimedStore T → List (Option T)
  store_run [] s = []
  store_run ((c, now) ∷ cs) s = let (out, s') = store_step c now s in out ∷ store_run cs s'

  -- The clock does not go back, from a time on.
  abbrev pub IsForward : ℕ → List (Call T × ℕ) → Type 0
  IsForward from [] = Unit
  IsForward from ((c, now) ∷ cs) = (from ≤ now) × IsForward now cs

  -- From a time on, the store shows what the specification shows.
  Shows : ℕ → TimedStore T → Spec T → Type 0
  Shows now s f =
      IsMap s × ((k : Text) (later : ℕ) → now ≤ later → (get k later s).0 ≡ shown later (f k))

  get-IsMap : (k : Text) (now : ℕ) (s : TimedStore T) → IsMap s → IsMap (get k now s).1
  unfolding get
  get-IsMap k now s m = ground (arith, delete-IsMap k s m)

  step-Shows :
      (c : Call T) (from now : ℕ) (s : TimedStore T) (f : Spec T)
      → from ≤ now
      → Shows from s f
      → ((store_step c now s).0 ≡ (spec_step c now f).0)
        × Shows now (store_step c now s).1 (spec_step c now f).1
  unfolding store_step spec_step Shows set insert shown remove delete delete_where clean
  step-Shows (sets k v ttl) from now s f h (m, e) = (refl, (insert_map, after_set))
    where
      insert_map : IsMap (set k v ttl now s)
      insert_map = insert-IsMap k (record { value = v; expires_at = now + ttl }) s m

      after_set :
          (j : Text) (later : ℕ)
          → now ≤ later
          → (get j later (set k v ttl now s)).0
            ≡ shown later
                (if str_eq k j then some (record { value = v; expires_at = now + ttl }) else f j)
      after_set j later l = elim (Bool-cases (str_eq k j)) [
        | inl t ↦ rw (get-set k j v ttl now later s, t) refl
        | inr n ↦ rw (get-set k j v ttl now later s, n) (e j later (omega (arith, h, l)))
      ]
  step-Shows (gets k) from now s f h (m, e) = (
    e k now h,
    (get-IsMap k now s m, λ j later l. get-get k j now later s l ∙ e j later (omega (arith, h, l))),
  )
  step-Shows (removes k) from now s f h (m, e) = (refl, (delete-IsMap k s m, after_remove))
    where
      after_remove :
          (j : Text) (later : ℕ)
          → now ≤ later
          → (get j later (remove k s)).0 ≡ shown later (if str_eq k j then none else f j)
      after_remove j later l = elim (Bool-cases (str_eq k j)) [
        | inl t ↦ rw (get-remove k j later s, t) refl
        | inr n ↦ rw (get-remove k j later s, n) (e j later (omega (arith, h, l)))
      ]
  step-Shows cleans from now s f h (m, e) = (
    refl,
    (
      delete_where-IsMap _ s m,
      λ j later l. get-clean j now later s m l ∙ e j later (omega (arith, h, l)),
    ),
  )

  run_shows :
      (cs : List (Call T × ℕ)) (from : ℕ) (s : TimedStore T) (f : Spec T)
      → IsForward from cs
      → Shows from s f
      → store_run cs s ≡ spec_run cs f
  unfolding store_run spec_run
  run_shows [] from s f h r = refl
  run_shows ((c, now) ∷ cs) from s f (h, hs) r =
      let (e, r') = step-Shows c from now s f h r in
      ap (λ o. o ∷ store_run cs (store_step c now s).1) e
      ∙ ap (◌∷◌ (spec_step c now f).0)
          (run_shows cs now (store_step c now s).1 (spec_step c now f).1 hs r')

  -- On any sequence of calls with a clock that does not go back, an expiring store that is
  -- empty at first answers as its specification does, a function from keys to values with their
  -- last time, from which only `Delete` takes a value away.
  pub store_refines :
      (cs : List (Call T × ℕ)) (from : ℕ)
      → IsForward from cs
      → store_run cs [] ≡ spec_run cs (λ k. none)
  unfolding Shows get shown lookup
  store_refines cs from h = run_shows cs from [] (λ k. none) h (tt, λ k later l. refl)
