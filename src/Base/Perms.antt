-- ===== src/Base/Perms.antt =====
-- A fold whose steps may change places does not depend on the order of a list.
use mathlib.Core.List.{List, Perm, Permᴰ, ◌∷◌}
use mathlib.Core.Logic.{∥∥₁_elim}
use mathlib.Core.Path.{ap, refl, sym, ◌∙◌, ◌≡◌}

module _ {ℓ κ} {A : Type ℓ} {C : Type κ} (f : List A → C) (step : A → C → C)
    (unfolded : (a : A) (l : List A) → f (a ∷ l) ≡ step a (f l))
    (swaps : (a b : A) (c : C) → step a (step b c) ≡ step b (step a c)) where
  fold_perm : {l m : List A} → Permᴰ l m → f l ≡ f m
  fold_perm Permᴰ.nil = refl
  fold_perm (Permᴰ.cons {a = a} {b = b} {l₁ = l} {l₂ = m} e d) =
      rw e (unfolded b l ∙ ap (step b) (fold_perm d) ∙ sym (unfolded b m))
  fold_perm (Permᴰ.swap {a = a} {b = b} {a' = a'} {b' = b'} {l = l} e d) =
      rw (e, d)
        (unfolded b' (a' ∷ l)
          ∙ ap (step b') (unfolded a' l)
          ∙ swaps b' a' (f l)
          ∙ sym (ap (step a') (unfolded b' l))
          ∙ sym (unfolded a' (b' ∷ l)))
  fold_perm (Permᴰ.trans d d') = fold_perm d ∙ fold_perm d'

  pub fold_of_Perm : IsSet C → {l m : List A} → Perm l m → f l ≡ f m
  fold_of_Perm set {l} {m} p = ∥∥₁_elim p (set (f l) (f m)) fold_perm
