-- ===== src/Middleware/Paths/Below.antt =====
-- Moving what lies in one directory of a canonical path to another (internal/middleware/middleware.go).
use domus.Prelude.{
  Text, codes, ◌≡◌, ◌≢◌, ◌∙◌, ap, sym, subst, refl, ◌⊎◌, inl, inr, List, [], ◌∷◌, ◌++◌, All,
}
use mathlib.Core.List.{append-nil}
use domus.Model.Keys.{separated}
use domus.Handler.Clean.{join, IsSegment, IsCanonical}

-- Names, the first one first, each after a slash.
below : List Text → Text → Text
below [] x = x
below (n ∷ ns) x = b'/' ∷ (n ++ below ns x)

from_join :
    (ss ns : List Text) (x : Text)
    → All IsSegment ss
    → All IsSegment ns
    → (ms : List Text) × All IsSegment ms × (join ss (below ns x) ≡ below ms x)
unfolding join below
from_join [] ns x h k = (ns, k, refl)
from_join (s ∷ ss) ns x h k = from_join ss (s ∷ ns) x h.1 (h.0, k)

to_join :
    (ns : List Text) (s : Text) (ss : List Text) (x : Text)
    → All IsSegment ns
    → All IsSegment (s ∷ ss)
    → (m : Text) × (ms : List Text) × All IsSegment (m ∷ ms)
      × (join (s ∷ ss) (below ns x) ≡ join (m ∷ ms) x)
unfolding join below
to_join [] s ss x h k = (s, ss, k, refl)
to_join (n ∷ ns) s ss x h k = to_join ns n (s ∷ ss) x h.1 (h.0, k)

-- What may stand behind the last name.
abbrev End : Text → Type 0
End x = (x ≡ []) ⊎ (x ≡ codes "/")

below-IsCanonical :
    (n : Text) (ns : List Text) (x : Text)
    → All IsSegment (n ∷ ns)
    → End x
    → IsCanonical (below (n ∷ ns) x)
unfolding join below
below-IsCanonical n ns x h e =
    let (m, ms, k, same) = to_join ns n [] x h.1 (h.0, tt) in
    inr (m ∷ ms, (λ z. absurd cc), k, ends m ms same e)
  where
    ends :
        (m : Text) (ms : List Text)
        → join (n ∷ []) (below ns x) ≡ join (m ∷ ms) x
        → End x
        → (below (n ∷ ns) x ≡ join (m ∷ ms) []) ⊎ (below (n ∷ ns) x ≡ join (m ∷ ms) (codes "/"))
    ends m ms same (inl f) = inl (same ∙ ap (join (m ∷ ms)) f)
    ends m ms same (inr f) = inr (same ∙ ap (join (m ∷ ms)) f)

no_slash_inside : (n a t : Text) → All (λ c. c ≢ b'/') n → n ≡ a ++ (b'/' ∷ t) → ⊥
no_slash_inside n a t h e = inside a (subst (All (λ c. c ≢ b'/')) e h)
  where
    inside : (a : Text) → All (λ c. c ≢ b'/') (a ++ (b'/' ∷ t)) → ⊥
    inside [] k = k.0 refl
    inside (c ∷ a) k = inside a k.1

-- What lies in the directory `d`, and what follows its name.
pub Inner : Text → Type 0
Inner r = (ns : List Text) × (x : Text) × All IsSegment ns × End x × (b'/' ∷ r ≡ below ns x)

tail_eq : (s t : Text) → (b'/' ∷ s) ≡ (b'/' ∷ t) → s ≡ t
tail_eq s t e = cc

after_name :
    (n d r : Text) (ns : List Text) (x : Text)
    → All (λ c. c ≢ b'/') n
    → All (λ c. c ≢ b'/') d
    → All IsSegment ns
    → End x
    → n ++ below ns x ≡ d ++ (b'/' ∷ r)
    → Inner r
unfolding below Inner
after_name n d r [] x h k a (inl e) eq =
    absurd (no_slash_inside n d r h (sym (append-nil n) ∙ (ap (λ z. n ++ z) (sym e) ∙ eq)))
after_name n d r [] x h k a (inr e) eq =
    let (f, g) = separated b'/' n d [] r h k (ap (λ z. n ++ z) (sym e) ∙ eq) in
    ([], x, tt, inr e, ap (λ z. b'/' ∷ z) (sym g) ∙ sym e)
after_name n d r (m ∷ ns) x h k a e eq =
    let (f, g) = separated b'/' n d (m ++ below ns x) r h k eq in
    (m ∷ ns, x, a, e, ap (λ z. b'/' ∷ z) (sym g))

named :
    (d r : Text) (ms : List Text) (x : Text)
    → d ≢ []
    → All (λ c. c ≢ b'/') d
    → All IsSegment ms
    → End x
    → below ms x ≡ b'/' ∷ (d ++ (b'/' ∷ r))
    → Inner r
unfolding below Inner
named d r [] x z k h (inl e) eq = absurd (clash (sym e ∙ eq))
  where
    clash : [] ≡ b'/' ∷ (d ++ (b'/' ∷ r)) → ⊥
    clash c = cc
named [] r [] x z k h (inr e) eq = absurd (z refl)
named (c ∷ d) r [] x z k h (inr e) eq = absurd (clash (sym e ∙ eq))
  where
    clash : codes "/" ≡ b'/' ∷ ((c ∷ d) ++ (b'/' ∷ r)) → ⊥
    clash p = cc
named d r (n ∷ ms) x z k h e eq = after_name n d r ms x h.0.3 k h.1 e (tail_eq _ _ eq)

pub canonical-Inner :
    (d r p : Text)
    → d ≢ []
    → All (λ c. c ≢ b'/') d
    → IsCanonical p
    → p ≡ b'/' ∷ (d ++ (b'/' ∷ r))
    → Inner r
unfolding below Inner
canonical-Inner d r p z k (inl e) eq = named d r [] (codes "/") z k tt (inr refl) (sym e ∙ eq)
canonical-Inner d r p z k (inr (ss, n, h, inl e)) eq =
    let (ms, a, same) = from_join ss [] [] h tt in
    named d r ms [] z k a (inl refl) (sym same ∙ (sym e ∙ eq))
canonical-Inner d r p z k (inr (ss, n, h, inr e)) eq =
    let (ms, a, same) = from_join ss [] (codes "/") h tt in
    named d r ms (codes "/") z k a (inr refl) (sym same ∙ (sym e ∙ eq))

-- Put behind one name, or two.
pub behind-IsCanonical :
    (a r : Text) → IsSegment a → Inner r → IsCanonical (b'/' ∷ (a ++ (b'/' ∷ r)))
unfolding below Inner
behind-IsCanonical a r h (ns, x, k, e, eq) =
    subst (λ z. IsCanonical (b'/' ∷ (a ++ z))) (sym eq) (below-IsCanonical a ns x (h, k) e)

pub behind_two-IsCanonical :
    (a b r : Text)
    → IsSegment a
    → IsSegment b
    → Inner r
    → IsCanonical (b'/' ∷ (a ++ (b'/' ∷ (b ++ (b'/' ∷ r)))))
unfolding below Inner
behind_two-IsCanonical a b r h l (ns, x, k, e, eq) =
    subst (λ z. IsCanonical (b'/' ∷ (a ++ (b'/' ∷ (b ++ z))))) (sym eq)
      (below-IsCanonical a (b ∷ ns) x (h, (l, k)) e)

-- A directory itself.
pub nothing_inside : Inner []
unfolding below Inner
nothing_inside = ([], codes "/", tt, inr refl, refl)
