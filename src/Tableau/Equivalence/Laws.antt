-- ===== src/Tableau/Equivalence/Laws.antt =====
-- The relations on circuits: under a prefix and under a suffix.
use qsyn.Prelude.{ℕ, ◌≡◌, subst, List, [], ◌∷◌, ◌++◌}
use mathlib.Core.List.{append-nil}
use qsyn.Tableau.Equivalence.{Item, Equal, Same}
use qsyn.Tableau.Stabilizer.{StabilizerTableau}

pub suffix :
    (n : ℕ) {xs ys : List Item} (vs : List Item) → Equal n xs ys → Equal n (xs ++ vs) (ys ++ vs)
suffix n vs e = Equal.inside [] vs e

pub prefix :
    (n : ℕ) {xs ys : List Item} (us : List Item) → Equal n xs ys → Equal n (us ++ xs) (us ++ ys)
prefix n {xs} {ys} us e =
    subst (λ zs. Equal n (us ++ zs) (us ++ ys)) (append-nil xs)
      (subst (λ zs. Equal n (us ++ (xs ++ [])) (us ++ zs)) (append-nil ys) (Equal.inside us [] e))

pub cons : (n : ℕ) {xs ys : List Item} (x : Item) → Equal n xs ys → Equal n (x ∷ xs) (x ∷ ys)
cons n x e = prefix n (x ∷ []) e

pub equal_of : (n : ℕ) {xs ys : List Item} → xs ≡ ys → Equal n xs ys
equal_of n {xs} e = subst (Equal n xs) e (Equal.same xs)

pub Same-suffix :
    (n : ℕ) {c d : StabilizerTableau} {xs ys : List Item} (vs : List Item)
    → Same n c xs d ys
    → Same n c (xs ++ vs) d (ys ++ vs)
Same-suffix n vs (Same.on_items c e) = Same.on_items c (suffix n vs e)
Same-suffix n vs (Same.back h) = Same.back (Same-suffix n vs h)
Same-suffix n vs (Same.next h k) = Same.next (Same-suffix n vs h) (Same-suffix n vs k)
Same-suffix n vs (Same.take_h c q xs) = Same.take_h c q (xs ++ vs)
Same-suffix n vs (Same.take_s c q xs) = Same.take_s c q (xs ++ vs)
Same-suffix n vs (Same.take_cx c i j xs) = Same.take_cx c i j (xs ++ vs)
