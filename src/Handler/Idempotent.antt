-- ===== src/Handler/Idempotent.antt =====
-- A path that is normalised is left as it is by normalising again (internal/handler/pathspace.go).
use mathlib.Core.List.{append-nil, append_assoc}
use domus.Prelude.{
  ==_iff, Text, codes, str_eq, eq_iff, is_empty, has_prefix, true, false, ◌≡◌, ◌≢◌, inl, inr, sym,
  ◌∙◌, ap, Bool-cases, refl, List, [], ◌∷◌, ◌++◌, All, arith,
}
use domus.Handler.Clean.{
  split, clean_segments, join, clean, ends_with_slash, ends_with_slash-append, join-append, rooted,
  with_slash, normalize_app_path, IsSegment, IsCanonical, normalize_app_path-IsCanonical,
}

-- The root is the normal path of the empty text too.
pub normal_of_rooted :
    (p : Text) → normalize_app_path p ≡ with_slash (ends_with_slash (rooted p)) (clean (rooted p))
unfolding normalize_app_path is_empty has_prefix clean split clean_segments join str_eq
normal_of_rooted [] = refl
normal_of_rooted (c ∷ p) = refl

pub split_name : (s : Text) → All (λ c. c ≢ b'/') s → split s ≡ s ∷ []
unfolding split
split_name [] n = refl
split_name (c ∷ s) n = ground (arith, split_name s n.1, ==_iff c b'/')

split_first : (s t : Text) → All (λ c. c ≢ b'/') s → split (s ++ (b'/' ∷ t)) ≡ s ∷ split t
unfolding split
split_first [] t n = refl
split_first (c ∷ s) t n = ground (arith, split_first s t n.1, ==_iff c b'/')

pub push_segment :
    (kept ss : List Text) (s : Text)
    → IsSegment s
    → clean_segments kept (s ∷ ss) ≡ clean_segments (s ∷ kept) ss
unfolding clean_segments
push_segment kept ss s (a, b, c, n) = rw (a, b) (rw c)

-- The names of a path are read back.
names_of_join :
    (ss : List Text) (t : Text)
    → All IsSegment ss
    → clean_segments [] (split (join ss (b'/' ∷ t))) ≡ clean_segments ss (split t)
unfolding join
names_of_join [] t h = unfold split clean_segments is_empty in refl
names_of_join (s ∷ ss) t h =
    names_of_join ss (s ++ (b'/' ∷ t)) h.1
    ∙ (ap (clean_segments ss) (split_first s t h.0.3) ∙ push_segment ss (split t) s h.0)

names_of_path :
    (s : Text) (ss : List Text)
    → IsSegment s
    → All IsSegment ss
    → clean_segments [] (split (join (s ∷ ss) [])) ≡ s ∷ ss
unfolding join
names_of_path s ss a h =
    names_of_join ss (s ++ []) h
    ∙ (ap (λ x. clean_segments ss (split x)) (append-nil s)
        ∙ (ap (clean_segments ss) (split_name s a.3)
            ∙ (push_segment ss [] s a ∙ (unfold clean_segments in refl))))

names_of_directory :
    (s : Text) (ss : List Text)
    → All IsSegment (s ∷ ss)
    → clean_segments [] (split (join (s ∷ ss) (codes "/"))) ≡ s ∷ ss
names_of_directory s ss h =
    names_of_join (s ∷ ss) [] h ∙ (unfold split clean_segments is_empty in refl)

join_starts : (ss : List Text) (t : Text) → (x : Text) × (join ss (b'/' ∷ t) ≡ b'/' ∷ x)
unfolding join
join_starts [] t = (t, refl)
join_starts (s ∷ ss) t = join_starts ss (s ++ (b'/' ∷ t))

pub clean_of_names :
    (p : Text) (s : Text) (ss : List Text)
    → clean_segments [] (split p) ≡ s ∷ ss
    → clean p ≡ join (s ∷ ss) []
unfolding clean join
clean_of_names p s ss e = let (x, starts) = join_starts ss (s ++ []) in rw (e, clean) (rw starts)

pub ends_of_name : (s : Text) → All (λ c. c ≢ b'/') s → ends_with_slash s ≡ false
unfolding ends_with_slash
ends_of_name [] n = refl
ends_of_name (c ∷ []) n = ground (arith, ==_iff c b'/')
ends_of_name (c ∷ d ∷ s) n = ends_of_name (d ∷ s) n.1

join_prefix : (ss : List Text) (t : Text) → (d : Text) × (join ss t ≡ d ++ t)
unfolding join
join_prefix [] t = ([], refl)
join_prefix (s ∷ ss) t =
    let (d, e) = join_prefix ss (b'/' ∷ (s ++ t)) in
    (d ++ (b'/' ∷ s), e ∙ sym (append_assoc d (b'/' ∷ s) t))

-- The last byte of a path is the last of its last name.
pub ends_of_path :
    (s : Text) (ss : List Text) → IsSegment s → ends_with_slash (join (s ∷ ss) []) ≡ false
unfolding join
ends_of_path [] ss (a, b, c, n) = absurd (unfold is_empty in ground (arith, a))
ends_of_path (y ∷ t) ss (a, b, c, n) =
    let (d, e) = join_prefix ss (b'/' ∷ ((y ∷ t) ++ [])) in
    ap ends_with_slash (
      e ∙ ap (λ x. d ++ (b'/' ∷ x)) (append-nil (y ∷ t)) ∙ sym (append_assoc d (b'/' ∷ []) (y ∷ t)))
    ∙ (ends_with_slash-append (d ++ (b'/' ∷ [])) y t ∙ ends_of_name (y ∷ t) n)

pub ends_of_directory : (p : Text) → ends_with_slash (p ++ codes "/") ≡ true
ends_of_directory p = ends_with_slash-append p b'/' [] ∙ (unfold ends_with_slash in refl)

rooted_slash : (p x : Text) → p ≡ b'/' ∷ x → (rooted p ≡ p) × (is_empty p ≡ false)
unfolding rooted has_prefix is_empty
rooted_slash [] x e = absurd (ground (arith, e))
rooted_slash (c ∷ p) x e = (ground (arith, e), refl)

pub not_root : (p : Text) → ends_with_slash p ≡ false → str_eq p (codes "/") ≡ false
not_root p e = elim (Bool-cases (str_eq p (codes "/"))) [
  | inr f ↦ f
  | inl t ↦
      let slash : ends_with_slash (codes "/") ≡ true = ends_of_directory [] in
      absurd (ground (arith, e, slash, ap ends_with_slash ((eq_iff p (codes "/")).0 t)))
]

-- A path without a slash at its end.
kept_path :
    (p x : Text) → p ≡ b'/' ∷ x → clean p ≡ p → ends_with_slash p ≡ false → normalize_app_path p ≡ p
unfolding normalize_app_path with_slash
kept_path p x e c n = let (r, some_text) = rooted_slash p x e in rw some_text (rw r (rw n c))

-- A path with a slash at its end, after `q`.
kept_directory :
    (p q x : Text)
    → p ≡ b'/' ∷ x
    → p ≡ q ++ codes "/"
    → clean p ≡ q
    → ends_with_slash q ≡ false
    → normalize_app_path p ≡ p
unfolding normalize_app_path with_slash
kept_directory p q x e d c n =
    let (r, some_text) = rooted_slash p x e in
    let ends : ends_with_slash p ≡ true = ap ends_with_slash d ∙ ends_of_directory q in
    rw some_text (rw r (rw (ends, c) (rw (not_root q n) (sym d))))

pub path_starts : (s : Text) (ss : List Text) (t : Text) → (x : Text) × (join (s ∷ ss) t ≡ b'/' ∷ x)
unfolding join
path_starts s ss t = join_starts ss (s ++ t)

root_stays : normalize_app_path (codes "/") ≡ codes "/"
unfolding normalize_app_path is_empty has_prefix str_eq
root_stays = refl

kept_canonical : (p : Text) → IsCanonical p → normalize_app_path p ≡ p
kept_canonical p (inl e) = ap normalize_app_path e ∙ (root_stays ∙ sym e)
kept_canonical p (inr ([], n, h, k)) = absurd (n refl)
kept_canonical p (inr (s ∷ ss, n, h, inl k)) =
    let (x, starts) = path_starts s ss [] in
    let cleaned = clean_of_names (join (s ∷ ss) []) s ss (names_of_path s ss h.0 h.1) in
    ap normalize_app_path k
    ∙ (kept_path (join (s ∷ ss) []) x starts cleaned (ends_of_path s ss h.0) ∙ sym k)
kept_canonical p (inr (s ∷ ss, n, h, inr k)) =
    let path = join (s ∷ ss) (codes "/") in
    let (x, starts) = path_starts s ss (codes "/") in
    let cleaned = clean_of_names path s ss (names_of_directory s ss h) in
    ap normalize_app_path k
    ∙ (kept_directory path (join (s ∷ ss) []) x starts (join-append (s ∷ ss) [] (codes "/")) cleaned
          (ends_of_path s ss h.0)
        ∙ sym k)

-- A path that was normalised is left as it is by normalising it again.
pub normalize_app_path_idem :
    (raw : Text) → normalize_app_path (normalize_app_path raw) ≡ normalize_app_path raw
normalize_app_path_idem raw =
    kept_canonical (normalize_app_path raw) (normalize_app_path-IsCanonical raw)
