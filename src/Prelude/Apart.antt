-- ===== src/Prelude/Apart.antt =====
-- Searches that do not see the rows that a statement writes.
use mathlib.Core.Path.{◌≡◌, refl}
use mathlib.Core.Bool.{Bool, true, false}
use mathlib.Core.List.{List, [], ◌∷◌, ◌++◌}
use native.Mathlib.Omega.{arith}
use router_billing.Prelude.Lists.{keep}
use router_billing.Prelude.Table.{find, update_where, delete_where}

module _ {ℓ} {A : Type ℓ} where
  pub find-delete_apart :
      (p q : A → Bool) (xs : List A)
      → ((x : A) → p x ≡ true → q x ≡ false)
      → find p (delete_where q xs) ≡ find p xs
  unfolding find delete_where
  find-delete_apart p q [] h = refl
  find-delete_apart p q (x ∷ xs) h = ground (arith, h x, find-delete_apart p q xs h)

  pub find-update_apart :
      (p q : A → Bool) (f : A → A) (xs : List A)
      → ((x : A) → p x ≡ true → q x ≡ false)
      → ((x : A) → p (f x) ≡ p x)
      → find p (update_where q f xs) ≡ find p xs
  unfolding find update_where
  find-update_apart p q f [] h k = refl
  find-update_apart p q f (x ∷ xs) h k = ground (arith, h x, k x, find-update_apart p q f xs h k)

  pub keep-delete_apart :
      (p q : A → Bool) (xs : List A)
      → ((x : A) → p x ≡ true → q x ≡ false)
      → keep p (delete_where q xs) ≡ keep p xs
  unfolding keep delete_where
  keep-delete_apart p q [] h = refl
  keep-delete_apart p q (x ∷ xs) h = ground (arith, h x, keep-delete_apart p q xs h)

  pub keep-update_apart :
      (p q : A → Bool) (f : A → A) (xs : List A)
      → ((x : A) → p x ≡ true → q x ≡ false)
      → ((x : A) → p (f x) ≡ p x)
      → keep p (update_where q f xs) ≡ keep p xs
  unfolding keep update_where
  keep-update_apart p q f [] h k = refl
  keep-update_apart p q f (x ∷ xs) h k = ground (arith, h x, k x, keep-update_apart p q f xs h k)

  pub keep-append : (p : A → Bool) (xs ys : List A) → keep p (xs ++ ys) ≡ keep p xs ++ keep p ys
  unfolding keep
  keep-append p [] ys = refl
  keep-append p (x ∷ xs) ys = ground (arith, keep-append p xs ys)

  -- A statement that writes these rows as they were.
  pub keep-update_same :
      (p q : A → Bool) (f : A → A) (xs : List A)
      → ((x : A) → p x ≡ true → f x ≡ x)
      → ((x : A) → p (f x) ≡ p x)
      → keep p (update_where q f xs) ≡ keep p xs
  unfolding keep update_where
  keep-update_same p q f [] h k = refl
  keep-update_same p q f (x ∷ xs) h k = ground (arith, h x, k x, keep-update_same p q f xs h k)
