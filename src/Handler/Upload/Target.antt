-- ===== src/Handler/Upload/Target.antt =====
-- Where an upload goes: the name stays in the directory (internal/handler/upload.go, with the paths
-- of internal/middleware/middleware.go).
use mathlib.Core.List.{append-nil}
use domus.Prelude.{
  ℕ, ◌==◌, ==_iff, Text, codes, is_empty, has_prefix, Bool, true, false, List, [], ◌∷◌, ◌++◌, ◌≡◌,
  ◌≢◌, inl, inr, refl, sym, ap, ◌∙◌, All, arith, Bool-cases, if◌then◌else◌,
}
use domus.Handler.Clean.{
  clean, clean_segments, split, join, join-append, cons_first, ends_with_slash,
  ends_with_slash-append, rooted, with_slash, normalize_app_path, IsSegment,
  IsSegment-clean_segments, NoSlash-split, with_slash_root,
}
use domus.Handler.Idempotent.{
  split_name, push_segment, normal_of_rooted, clean_of_names, ends_of_path, not_root, ends_of_name,
  ends_of_directory,
}
use domus.Handler.Upload.Requests.{has_separator, valid_upload_name}

NoSlash-has_separator : (s : Text) → has_separator s ≡ false → All (λ c. c ≢ b'/') s
unfolding has_separator
NoSlash-has_separator [] h = tt
NoSlash-has_separator (c ∷ s) h =
    (ground (arith, h, ==_iff c b'/'), NoSlash-has_separator s (ground (arith, h)))

-- A name that is accepted is one segment of a path.
valid_upload_name-IsSegment : (name : Text) → valid_upload_name name ≡ true → IsSegment name
unfolding valid_upload_name
valid_upload_name-IsSegment name h = (
  ground (arith, h),
  ground (arith, h),
  ground (arith, h),
  NoSlash-has_separator name (ground (arith, h)),
)

cons_first-append :
    (c : ℕ) (xs ys : List Text) → xs ≢ [] → cons_first c (xs ++ ys) ≡ cons_first c xs ++ ys
cons_first-append c [] ys n = absurd (n refl)
cons_first-append c (x ∷ xs) ys n = refl

is_cons : List Text → Bool
is_cons [] = false
is_cons (x ∷ xs) = true

is_cons-cons_first : (c : ℕ) (xs : List Text) → is_cons (cons_first c xs) ≡ true
unfolding is_cons
is_cons-cons_first c [] = refl
is_cons-cons_first c (x ∷ xs) = refl

is_cons-split : (a : Text) → is_cons (split a) ≡ true
unfolding split is_cons
is_cons-split [] = refl
is_cons-split (c ∷ a) = elim (Bool-cases (c == b'/')) [
  | inl t ↦ rw t refl
  | inr f ↦ rw f (is_cons-cons_first c (split a))
]

split-nonempty : (a : Text) → split a ≢ []
unfolding is_cons
split-nonempty a h = absurd (clash (sym (is_cons-split a) ∙ ap is_cons h))
  where
    clash : true ≡ false → ⊥
    clash c = cc

split-append : (a b : Text) → split (a ++ (b'/' ∷ b)) ≡ split a ++ split b
unfolding split
split-append [] b = refl
split-append (c ∷ a) b = elim (Bool-cases (c == b'/')) [
  | inl t ↦ rw (t, split-append a b) refl
  | inr f ↦ rw (f, split-append a b) (cons_first-append c (split a) (split b) (split-nonempty a))
]

clean_segments-append :
    (xs ys kept : List Text)
    → clean_segments kept (xs ++ ys) ≡ clean_segments (clean_segments kept xs) ys
unfolding clean_segments
clean_segments-append [] ys kept = refl
clean_segments-append (x ∷ xs) ys kept = clean_segments-append xs ys _

-- The names of a directory's path.
names_of : Text → List Text
names_of p = clean_segments [] (split p)

names_of_file : (p name : Text) → IsSegment name → names_of (p ++ (b'/' ∷ name)) ≡ name ∷ names_of p
unfolding names_of clean_segments
names_of_file p name s =
    ap (clean_segments []) (split-append p name)
    ∙ (ap (λ x. clean_segments [] (split p ++ x)) (split_name name s.3)
        ∙ (clean_segments-append (split p) (name ∷ []) []
            ∙ push_segment (clean_segments [] (split p)) [] name s))

names_of_directory : (p : Text) → names_of (p ++ codes "/") ≡ names_of p
unfolding names_of clean_segments split is_empty
names_of_directory p =
    ap (clean_segments []) (split-append p []) ∙ clean_segments-append (split p) ([] ∷ []) []

-- A file's path, cleaned.
clean_of_file :
    (p name : Text) → IsSegment name → clean (p ++ (b'/' ∷ name)) ≡ join (name ∷ names_of p) []
clean_of_file p name s =
    clean_of_names (p ++ (b'/' ∷ name)) name (names_of p)
      (unfold names_of in names_of_file p name s)

with_slash_path :
    (s : Text) (ss : List Text)
    → IsSegment s
    → with_slash true (join (s ∷ ss) []) ≡ join (s ∷ ss) (codes "/")
unfolding with_slash
with_slash_path s ss h =
    rw (not_root (join (s ∷ ss) []) (ends_of_path s ss h))
      (sym (join-append (s ∷ ss) [] (codes "/")))

names-IsSegment : (p : Text) → All IsSegment (names_of p)
unfolding names_of
names-IsSegment p = IsSegment-clean_segments [] (split p) tt (NoSlash-split p)

-- A directory's path, cleaned, with the slash behind it.
clean_of_directory :
    (p : Text) → with_slash true (clean (p ++ codes "/")) ≡ join (names_of p) (codes "/")
unfolding names_of join clean
clean_of_directory p = go (names_of p) (names_of_directory p) (names-IsSegment p)
  where
    go :
        (ss : List Text)
        → names_of (p ++ codes "/") ≡ ss
        → All IsSegment ss
        → with_slash true (clean (p ++ codes "/")) ≡ join ss (codes "/")
    go [] e h = ap (with_slash true) (rw (e, clean) refl) ∙ with_slash_root true
    go (s ∷ ss) e h =
        ap (with_slash true) (clean_of_names (p ++ codes "/") s ss e) ∙ with_slash_path s ss h.0

rooted_at : Text → Text
rooted_at [] = []
rooted_at (c ∷ d) = if c == b'/' then c ∷ d else b'/' ∷ c ∷ d

rooted-append : (d x : Text) → rooted (d ++ (b'/' ∷ x)) ≡ rooted_at d ++ (b'/' ∷ x)
unfolding rooted rooted_at has_prefix
rooted-append [] x = refl
rooted-append (c ∷ d) x = ground arith

ends_of_file : (p name : Text) → IsSegment name → ends_with_slash (p ++ (b'/' ∷ name)) ≡ false
unfolding ends_with_slash is_empty
ends_of_file p [] (a, b, c, n) = absurd (ground (arith, a))
ends_of_file p (y ∷ t) (a, b, c, n) = ends_with_slash-append p b'/' (y ∷ t) ∙ ends_of_name (y ∷ t) n

with_no_slash : (p : Text) → with_slash false p ≡ p
unfolding with_slash
with_no_slash p = refl

-- A file name that an upload may have stays one name in its directory when the joined path is
-- normalised, whatever the directory.
pub upload_target :
    (directory name : Text)
    → valid_upload_name name ≡ true
    → normalize_app_path (directory ++ (b'/' ∷ name))
      ≡ normalize_app_path (directory ++ codes "/") ++ name
unfolding join
upload_target directory name h =
    normal_of_rooted (directory ++ (b'/' ∷ name))
    ∙ (ap normal (rooted-append directory name)
        ∙ (ap (λ b. with_slash b (clean (p ++ (b'/' ∷ name)))) (ends_of_file p name s)
            ∙ (with_no_slash (clean (p ++ (b'/' ∷ name)))
                ∙ (clean_of_file p name s
                    ∙ (ap (λ x. join (names_of p) (b'/' ∷ x)) (append-nil name)
                        ∙ (join-append (names_of p) (codes "/") name
                            ∙ ap (λ x. x ++ name)
                                (sym (clean_of_directory p)
                                  ∙ (ap (λ b. with_slash b (clean (p ++ codes "/")))
                                        (sym (ends_of_directory p))
                                      ∙ (ap normal (sym (rooted-append directory []))
                                          ∙ sym (normal_of_rooted (directory ++ codes "/")))))))))))
  where
    normal : Text → Text
    normal x = with_slash (ends_with_slash x) (clean x)

    p : Text
    p = rooted_at directory

    s : IsSegment name
    s = valid_upload_name-IsSegment name h
