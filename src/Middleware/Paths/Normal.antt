-- ===== src/Middleware/Paths/Normal.antt =====
-- `normalizePath` of internal/middleware/middleware.go is `normalizeAppPath` of
-- internal/handler/pathspace.go on paths without a zero byte.
use domus.Prelude.{
  ℕ, ◌==◌, Text, codes, str_eq, eq_iff, is_empty, has_prefix, Bool, true, false, not, ◌&&◌, ◌||◌,
  ◌≡◌, ◌∙◌, ap, sym, subst, refl, inl, inr, Bool-cases, List, [], ◌∷◌, ◌++◌, All, arith,
}
use domus.Handler.Clean.{
  clean, clean_segments, split, join, tail, cons_first, ends_with_slash, rooted, with_slash,
  normalize_app_path, with_slash_root, with_slash-IsCanonical, IsCanonical,
}
use domus.Handler.Idempotent.{path_starts, normal_of_rooted}
use domus.Handler.TrashPath.{has_nul}
use domus.Middleware.Paths.{resolved, normalize_path}

NoNul : Text → Type 0
NoNul s = has_nul s ≡ false

has_nul-append : (s t : Text) → has_nul (s ++ t) ≡ (has_nul s || has_nul t)
unfolding has_nul
has_nul-append [] t = refl
has_nul-append (c ∷ s) t = ground (arith, has_nul-append s t)

NoNul-cons_first :
    (c : ℕ) (ss : List Text) → (c == 0) ≡ false → All NoNul ss → All NoNul (cons_first c ss)
unfolding NoNul has_nul
NoNul-cons_first c [] n h = (ground (arith, n), tt)
NoNul-cons_first c (s ∷ ss) n h = (ground (arith, n, h.0), h.1)

NoNul-split : (s : Text) → has_nul s ≡ false → All NoNul (split s)
unfolding split NoNul has_nul
NoNul-split [] h = (refl, tt)
NoNul-split (c ∷ s) h = elim (Bool-cases (c == b'/')) [
  | inl t ↦ rw t (refl, NoNul-split s (ground (arith, h)))
  | inr f ↦
      rw f (NoNul-cons_first c (split s) (ground (arith, h)) (NoNul-split s (ground (arith, h))))
]

NoNul-tail : (kept : List Text) → All NoNul kept → All NoNul (tail kept)
NoNul-tail [] h = tt
NoNul-tail (s ∷ kept) h = h.1

NoNul-clean_segments :
    (kept ss : List Text) → All NoNul kept → All NoNul ss → All NoNul (clean_segments kept ss)
unfolding clean_segments
NoNul-clean_segments kept [] h n = h
NoNul-clean_segments kept (s ∷ ss) h n = elim (Bool-cases (is_empty s || str_eq s (codes "."))) [
  | inl t ↦ rw t (NoNul-clean_segments kept ss h n.1)
  | inr f ↦ elim (Bool-cases (str_eq s (codes ".."))) [
    | inl t ↦ rw (f, t) (NoNul-clean_segments (tail kept) ss (NoNul-tail kept h) n.1)
    | inr g ↦ rw (f, g) (NoNul-clean_segments (s ∷ kept) ss (n.0, h) n.1)
  ]
]

NoNul-join : (ss : List Text) (rest : Text) → All NoNul ss → NoNul rest → NoNul (join ss rest)
unfolding join NoNul has_nul
NoNul-join [] rest h n = n
NoNul-join (s ∷ ss) rest h n =
    NoNul-join ss (b'/' ∷ (s ++ rest)) h.1 (ground (arith, has_nul-append s rest, h.0, n))

NoNul-clean : (p : Text) → has_nul p ≡ false → has_nul (clean p) ≡ false
unfolding clean NoNul has_nul
NoNul-clean p h = go (join (clean_segments [] (split p)) []) (
    NoNul-join (clean_segments [] (split p)) []
      (NoNul-clean_segments [] (split p) tt (NoNul-split p h)) refl)
  where
    go :
        (t : Text) → has_nul t ≡ false → has_nul (elim t [ [] ↦ codes "/" | c ∷ s ↦ c ∷ s ]) ≡ false
    go [] n = refl
    go (c ∷ s) n = n

has_nul-rooted : (p : Text) → has_nul p ≡ false → has_nul (rooted p) ≡ false
unfolding rooted has_nul
has_nul-rooted p h = ground (arith, h)

has_nul-with_slash : (b : Bool) (p : Text) → has_nul p ≡ false → has_nul (with_slash b p) ≡ false
unfolding with_slash has_nul
has_nul-with_slash b p h = elim (Bool-cases (b && not (str_eq p (codes "/")))) [
  | inl t ↦ rw t (has_nul-append p (codes "/") ∙ ap (λ x. x || false) h)
  | inr f ↦ rw f h
]

pub has_nul-normalize_app_path :
    (p : Text) → has_nul p ≡ false → has_nul (normalize_app_path p) ≡ false
unfolding normalize_app_path has_nul
has_nul-normalize_app_path p h = elim (Bool-cases (is_empty p)) [
  | inl t ↦ rw t refl
  | inr f ↦ rw f (
      has_nul-with_slash (ends_with_slash (rooted p)) (clean (rooted p))
        (NoNul-clean (rooted p) (has_nul-rooted p h)))
]

pub starts_of_canonical : (p : Text) → IsCanonical p → (x : Text) × (p ≡ b'/' ∷ x)
starts_of_canonical p (inl e) = ([], e)
starts_of_canonical p (inr ([], n, h, e)) = absurd (n refl)
starts_of_canonical p (inr (s ∷ ss, n, h, inl e)) = let (x, f) = path_starts s ss [] in (x, e ∙ f)
starts_of_canonical p (inr (s ∷ ss, n, h, inr e)) =
    let (x, f) = path_starts s ss (codes "/") in (x, e ∙ f)

has_prefix_root : (p : Text) → IsCanonical p → has_prefix p (codes "/") ≡ true
unfolding has_prefix
has_prefix_root p h = let (x, e) = starts_of_canonical p h in ap (λ t. has_prefix t (codes "/")) e

clean_root : clean (codes "/") ≡ codes "/"
unfolding clean split clean_segments join is_empty
clean_root = refl

and_true : (b : Bool) → (b && true) ≡ b
and_true true = refl
and_true false = refl

-- The root's own slash is not one that is put back.
trailing_slash :
    (p : Text)
    → with_slash (ends_with_slash p && not (str_eq p (codes "/"))) (clean p)
      ≡ with_slash (ends_with_slash p) (clean p)
trailing_slash p = elim (Bool-cases (str_eq p (codes "/"))) [
  | inl t ↦
      subst
        (λ x.
          with_slash (ends_with_slash x && not (str_eq x (codes "/"))) (clean x)
          ≡ with_slash (ends_with_slash x) (clean x))
        (sym ((eq_iff p (codes "/")).0 t))
        (rw clean_root (
          with_slash_root (ends_with_slash (codes "/") && not (str_eq (codes "/") (codes "/")))
          ∙ sym (with_slash_root (ends_with_slash (codes "/")))))
  | inr f ↦ rw f (ap (λ b. with_slash b (clean p)) (and_true (ends_with_slash p)))
]

pub normalize_path_eq :
    (p : Text) → has_nul p ≡ false → normalize_path p ≡ resolved (normalize_app_path p)
unfolding normalize_path
normalize_path_eq p h =
    rw (h, has_prefix_root (clean (rooted p)) (with_slash-IsCanonical false (rooted p)))
      (ap resolved (trailing_slash (rooted p) ∙ sym (normal_of_rooted p)))
