-- ===== src/Model/File/Parent.antt =====
-- The parent directory of a path: `memParentOf` of internal/model/mem_repos.go.
use mathlib.Core.List.{append-nil, append_assoc}
use native.Mathlib.Nat.{suc-add}
use domus.Prelude.{
  sym, ◌∙◌, take_one, ==_refl, ℕ, ◌+◌, Text, codes, trim_suffix, last_index, last_index-append, ◌≡◌,
  ◌≢◌, ◌⊎◌, inl, inr, refl, ap, none, some, [], ◌∷◌, ◌++◌, length, take, All, arith,
}

-- `p[:idx+1]` for the last slash, or nothing.
abbrev up_to_slash : Text → Text
up_to_slash p = elim (last_index p b'/') [ none ↦ [] | some i ↦ take (i + 1) p ]

unfoldable pub parent_of : Text → Text
parent_of path = up_to_slash (trim_suffix path b'/')

-- A name is not empty and holds no slash.
pub record IsName (n : Text) : Type 0 where
  pub nonempty : n ≢ []
  pub no_slash : All (λ c. c ≢ b'/') n

trim_suffix-append :
    (d : Text) (y : ℕ) (s : Text) (c : ℕ)
    → trim_suffix (d ++ (y ∷ s)) c ≡ d ++ trim_suffix (y ∷ s) c
unfolding trim_suffix
trim_suffix-append [] y s c = refl
trim_suffix-append (x ∷ []) y s c = refl
trim_suffix-append (x ∷ x' ∷ d) y s c = ap (◌∷◌ x) (trim_suffix-append (x' ∷ d) y s c)

trim_suffix_absent : (s : Text) (c : ℕ) → All (λ x. x ≢ c) s → trim_suffix s c ≡ s
unfolding trim_suffix
trim_suffix_absent [] c h = refl
trim_suffix_absent (x ∷ []) c h = ground arith
trim_suffix_absent (x ∷ y ∷ s) c h = ap (◌∷◌ x) (trim_suffix_absent (y ∷ s) c h.1)

pub trim_suffix_once : (s : Text) (c : ℕ) → trim_suffix (s ++ (c ∷ [])) c ≡ s
trim_suffix_once s c = trim_suffix-append s c [] c ∙ last s c
  where
    last : (s : Text) (c : ℕ) → s ++ trim_suffix (c ∷ []) c ≡ s
    last s c = unfold trim_suffix in rw (==_refl c) (append-nil s)

trim_suffix_name : (d n : Text) → IsName n → trim_suffix (d ++ (b'/' ∷ n)) b'/' ≡ d ++ (b'/' ∷ n)
unfolding trim_suffix
trim_suffix_name d [] h = absurd (h.nonempty refl)
trim_suffix_name d (y ∷ s) h =
    trim_suffix-append d b'/' (y ∷ s) b'/'
    ∙ ap (λ t. d ++ (b'/' ∷ t)) (trim_suffix_absent (y ∷ s) b'/' h.no_slash)

take-parent : (d : Text) (c : ℕ) (n : Text) → take (length d + 1) (d ++ (c ∷ n)) ≡ d ++ (c ∷ [])
unfolding take
take-parent [] c n = take_one c n
take-parent (x ∷ d) c n = rw (suc-add) (ap (◌∷◌ x) (take-parent d c n))

-- A path is that of the file or the directory of a name in a directory, whose slash is not in `d`.
abbrev pub IsChild : Text → Text → Text → Type 0
IsChild path d n =
    IsName n × ((path ≡ d ++ (codes "/" ++ n)) ⊎ (path ≡ d ++ (codes "/" ++ (n ++ codes "/"))))

-- The parent of the file `d/n` and of the directory `d/n/` is `d/`.
parent_of_child :
    (d n : Text)
    → IsName n
    → (parent_of (d ++ (codes "/" ++ n)) ≡ d ++ codes "/")
      × (parent_of (d ++ (codes "/" ++ (n ++ codes "/"))) ≡ d ++ codes "/")
unfolding parent_of
parent_of_child d n h = (
  cut (trim_suffix_name d n h),
  cut (
      ap (λ t. trim_suffix t b'/') (sym (append_assoc d (b'/' ∷ n) (b'/' ∷ [])))
      ∙ trim_suffix_once (d ++ (b'/' ∷ n)) b'/'),
)
  where
    cut : {p : Text} → p ≡ d ++ (b'/' ∷ n) → up_to_slash p ≡ d ++ (b'/' ∷ [])
    cut e = rw e (rw (last_index-append d n b'/' h.no_slash, up_to_slash) (take-parent d b'/' n))

pub parent_of-IsChild : (path d n : Text) → IsChild path d n → parent_of path ≡ d ++ codes "/"
parent_of-IsChild path d n (name, inl e) = ap parent_of e ∙ (parent_of_child d n name).0
parent_of-IsChild path d n (name, inr e) = ap parent_of e ∙ (parent_of_child d n name).1
