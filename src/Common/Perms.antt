-- ===== src/Common/Perms.antt =====
-- Lists in another order.
use mathlib.Core.List.Perm
use mathlib.Core.List.{List, Perm, ◌++◌, append_assoc, perm_append_comm}
use mathlib.Core.Path.{◌≡◌, subst, sym}

pub perm_of_eq {ℓ} : {A : Type ℓ} {xs ys : List A} → xs ≡ ys → Perm xs ys
perm_of_eq {xs = xs} e = subst (Perm xs) e (Perm.refl xs)

pub perm-swap_append {ℓ} :
    {A : Type ℓ} (xs ys zs : List A) → Perm (xs ++ (ys ++ zs)) (ys ++ (xs ++ zs))
perm-swap_append xs ys zs = Perm.trans (perm_of_eq (sym (append_assoc xs ys zs))) (
    Perm.trans (Perm.append_right zs (perm_append_comm xs ys)) (perm_of_eq (append_assoc ys xs zs)))
