-- ===== src/Handler/Clean.antt =====
-- `normalizeAppPath` of internal/handler/pathspace.go, over `Clean` of package path for rooted paths.
use mathlib.Core.List.{append_assoc}
use domus.Prelude.{
  ℕ, ◌==◌, Text, codes, str_eq, is_empty, has_prefix, Bool, true, false, not, ◌&&◌, ◌||◌, ◌≡◌, ◌≢◌,
  ◌⊎◌, inl, inr, sym, ◌∙◌, ap, Bool-cases, ==_iff, refl, List, [], ◌∷◌, ◌++◌, All, arith,
  if◌then◌else◌,
}

-- The first byte goes to the first segment.
abbrev pub cons_first : ℕ → List Text → List Text
cons_first c [] = (c ∷ []) ∷ []
cons_first c (s ∷ ss) = (c ∷ s) ∷ ss

-- strings.Split at slashes.
unfoldable pub split : Text → List Text
split [] = [] ∷ []
split (c ∷ s) = let rest = split s in if c == b'/' then [] ∷ rest else cons_first c rest

abbrev pub tail : List Text → List Text
tail [] = []
tail (s ∷ ss) = ss

-- The segments that stay, last first: empty ones and `.` are skipped, `..` takes one away.
unfoldable pub clean_segments : List Text → List Text → List Text
clean_segments kept [] = kept
clean_segments kept (s ∷ ss) =
    clean_segments
      (if is_empty s || str_eq s (codes ".")
        then kept
        else (if str_eq s (codes "..") then tail kept else s ∷ kept))
      ss

-- Each segment after a slash, from the last to the first.
unfoldable pub join : List Text → Text → Text
join [] rest = rest
join (s ∷ ss) rest = join ss (b'/' ∷ (s ++ rest))

-- path.Clean of a path that begins with a slash.
unfoldable pub clean : Text → Text
unfolding split clean_segments join
clean path = elim (join (clean_segments [] (split path)) []) [ [] ↦ codes "/" | c ∷ s ↦ c ∷ s ]

-- strings.HasSuffix(s, "/")
unfoldable pub ends_with_slash : Text → Bool
ends_with_slash [] = false
ends_with_slash (c ∷ []) = c == b'/'
ends_with_slash (c ∷ d ∷ s) = ends_with_slash (d ∷ s)

pub ends_with_slash-append :
    (d : Text) (y : ℕ) (t : Text) → ends_with_slash (d ++ (y ∷ t)) ≡ ends_with_slash (y ∷ t)
unfolding ends_with_slash
ends_with_slash-append [] y t = refl
ends_with_slash-append (x ∷ []) y t = refl
ends_with_slash-append (x ∷ z ∷ d) y t = ends_with_slash-append (z ∷ d) y t

unfoldable pub rooted : Text → Text
rooted s = if has_prefix s (codes "/") then s else b'/' ∷ s

-- A slash at the end of a directory's path.
unfoldable pub with_slash : Bool → Text → Text
with_slash directory s = if directory && not (str_eq s (codes "/")) then s ++ codes "/" else s

unfoldable pub normalize_app_path : Text → Text
unfolding clean ends_with_slash rooted with_slash
normalize_app_path raw_path =
    if is_empty raw_path
    then codes "/"
    else with_slash (ends_with_slash (rooted raw_path)) (clean (rooted raw_path))

-- A name: not empty, neither `.` nor `..`, and without a slash.
abbrev pub IsSegment : Text → Type 0
IsSegment s =
    (is_empty s ≡ false)
    × (str_eq s (codes ".") ≡ false)
    × (str_eq s (codes "..") ≡ false)
    × All (λ c. c ≢ b'/') s

-- The root, or one or more names each after a slash, with or without one at the end.
abbrev pub IsCanonical : Text → Type 0
IsCanonical p =
    (p ≡ codes "/")
    ⊎ ((ss : List Text) × (ss ≢ [])
        × All IsSegment ss
        × ((p ≡ join ss []) ⊎ (p ≡ join ss (codes "/"))))

abbrev pub NoSlash : Text → Type 0
NoSlash s = All (λ c. c ≢ b'/') s

NoSlash-cons_first :
    (c : ℕ) (ss : List Text) → c ≢ b'/' → All NoSlash ss → All NoSlash (cons_first c ss)
NoSlash-cons_first c [] n h = ((n, tt), tt)
NoSlash-cons_first c (s ∷ ss) n h = ((n, h.0), h.1)

pub NoSlash-split : (s : Text) → All NoSlash (split s)
unfolding split
NoSlash-split [] = (tt, tt)
NoSlash-split (c ∷ s) = elim (Bool-cases (c == b'/')) [
  | inl t ↦ rw t (tt, NoSlash-split s)
  | inr f ↦
      rw f (NoSlash-cons_first c (split s) (ground (arith, f, ==_iff c b'/')) (NoSlash-split s))
]

All-tail : (kept : List Text) → All IsSegment kept → All IsSegment (tail kept)
All-tail [] h = tt
All-tail (s ∷ kept) h = h.1

pub IsSegment-clean_segments :
    (kept ss : List Text)
    → All IsSegment kept
    → All NoSlash ss
    → All IsSegment (clean_segments kept ss)
unfolding clean_segments
IsSegment-clean_segments kept [] h n = h
IsSegment-clean_segments kept (s ∷ ss) h n =
    elim (Bool-cases (is_empty s || str_eq s (codes "."))) [
      | inl t ↦ rw t (IsSegment-clean_segments kept ss h n.1)
      | inr f ↦ elim (Bool-cases (str_eq s (codes ".."))) [
        | inl t ↦ rw (f, t) (IsSegment-clean_segments (tail kept) ss (All-tail kept h) n.1)
        | inr g ↦
            rw (f, g)
              (IsSegment-clean_segments (s ∷ kept) ss
                ((ground (arith, f), ground (arith, f), g, n.0), h) n.1)
      ]
    ]

pub join-append : (ss : List Text) (x y : Text) → join ss (x ++ y) ≡ join ss x ++ y
unfolding join
join-append [] x y = refl
join-append (s ∷ ss) x y =
    ap (λ t. join ss (b'/' ∷ t)) (sym (append_assoc s x y)) ∙ join-append ss (b'/' ∷ (s ++ x)) y

clean-IsCanonical :
    (p : Text)
    → (clean p ≡ codes "/")
      ⊎ ((ss : List Text) × (ss ≢ []) × All IsSegment ss × (clean p ≡ join ss []))
unfolding clean
clean-IsCanonical p = go (join kept []) refl
  where
    kept : List Text
    kept = clean_segments [] (split p)

    go :
        (t : Text)
        → join kept [] ≡ t
        → (clean p ≡ codes "/")
          ⊎ ((ss : List Text) × (ss ≢ []) × All IsSegment ss × (clean p ≡ join ss []))
    go [] e = inl (rw (e, clean))
    go (c ∷ t) e = inr (
      kept,
      unfold join in (λ n. absurd (ground (arith, sym e ∙ ap (λ x. join x []) n))),
      IsSegment-clean_segments [] (split p) tt (NoSlash-split p),
      rw (e, clean),
    )

pub with_slash_root : (b : Bool) → with_slash b (codes "/") ≡ codes "/"
unfolding with_slash str_eq
with_slash_root true = refl
with_slash_root false = refl

pub with_slash_cases :
    (b : Bool) (s : Text) → (with_slash b s ≡ s) ⊎ (with_slash b s ≡ s ++ codes "/")
unfolding with_slash
with_slash_cases b s = elim (Bool-cases (b && not (str_eq s (codes "/")))) [
  | inl t ↦ inr (rw t)
  | inr f ↦ inl (rw f)
]

pub with_slash-IsCanonical : (b : Bool) (p : Text) → IsCanonical (with_slash b (clean p))
with_slash-IsCanonical b p = elim (clean-IsCanonical p) [
  | inl e ↦ inl (ap (with_slash b) e ∙ with_slash_root b)
  | inr (ss, n, h, e) ↦ inr (
    ss,
    n,
    h,
    elim (with_slash_cases b (clean p)) [
      | inl s ↦ inl (s ∙ e)
      | inr s ↦ inr (s ∙ (ap (λ t. t ++ codes "/") e ∙ sym (join-append ss [] (codes "/"))))
    ],
  )
]

-- A normalised path is the root, or one or more names each after a slash, with or without one at
-- the end; no name is empty, `.` or `..`, or holds a slash.
pub normalize_app_path-IsCanonical : (raw : Text) → IsCanonical (normalize_app_path raw)
unfolding normalize_app_path
normalize_app_path-IsCanonical raw = elim (Bool-cases (is_empty raw)) [
  | inl t ↦ inl (rw t)
  | inr f ↦ rw f (with_slash-IsCanonical (ends_with_slash (rooted raw)) (rooted raw))
]
