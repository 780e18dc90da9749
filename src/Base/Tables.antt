-- ===== src/Base/Tables.antt =====
-- Tables as lists of rows: what a query, an `UPDATE` and a `DELETE` with a condition do.
use mathlib.Core.Path.{◌≡◌, refl}
use mathlib.Core.Bool.{Bool, true, false, ◌||◌}
use mathlib.Core.Option.{Option, none, some}
use mathlib.Core.List.{List, [], ◌∷◌, ◌++◌}
use native.Mathlib.Omega.{arith}
use convomeow.Base.Lists.{All}
use convomeow.Base.Tests.{if◌then◌else◌}

module _ {ℓ} {A : Type ℓ} where
  -- `SELECT … WHERE p LIMIT 1`
  abbrev pub find_where : (A → Bool) → List A → Option A
  find_where p [] = none
  find_where p (x ∷ xs) = if p x then some x else find_where p xs

  -- `SELECT EXISTS(…)`
  abbrev pub any : (A → Bool) → List A → Bool
  any p [] = false
  any p (x ∷ xs) = p x || any p xs

  abbrev pub select_where : (A → Bool) → List A → List A
  select_where p [] = []
  select_where p (x ∷ xs) = let rest = select_where p xs in if p x then x ∷ rest else rest

  abbrev pub update_where : (A → Bool) → (A → A) → List A → List A
  update_where p f [] = []
  update_where p f (x ∷ xs) = (if p x then f x else x) ∷ update_where p f xs

  abbrev pub delete_where : (A → Bool) → List A → List A
  delete_where p [] = []
  delete_where p (x ∷ xs) = let rest = delete_where p xs in if p x then rest else x ∷ rest

  -- Reading back by a condition that an update does not change.
  pub find_where-update_where :
      (p q : A → Bool) (f : A → A) (xs : List A)
      → ((x : A) → p x ≡ true → q (f x) ≡ q x)
      → find_where q (update_where p f xs)
        ≡ elim (find_where q xs) [ none ↦ none | some x ↦ some (if p x then f x else x) ]
  find_where-update_where p q f [] h = refl
  find_where-update_where p q f (x ∷ xs) h = ground (arith, h x, find_where-update_where p q f xs h)

  pub find_where_holds :
      (p : A → Bool) (xs : List A) (x : A) → find_where p xs ≡ some x → p x ≡ true
  find_where_holds p [] x e = cc
  find_where_holds p (y ∷ xs) x e = ground (arith, find_where_holds p xs x)

  pub find_where-delete_where :
      (p : A → Bool) (xs : List A) → find_where p (delete_where p xs) ≡ none
  find_where-delete_where p [] = refl
  find_where-delete_where p (x ∷ xs) = ground (arith, find_where-delete_where p xs)

  -- A deletion does not touch what it does not select.
  pub find_where-delete_other :
      (p q : A → Bool) (xs : List A)
      → ((x : A) → q x ≡ true → p x ≡ false)
      → find_where q (delete_where p xs) ≡ find_where q xs
  find_where-delete_other p q [] h = refl
  find_where-delete_other p q (x ∷ xs) h = ground (arith, h x, find_where-delete_other p q xs h)

  pub find_where-append :
      (p : A → Bool) (xs ys : List A)
      → find_where p (xs ++ ys)
        ≡ elim (find_where p xs) [ none ↦ find_where p ys | some x ↦ some x ]
  find_where-append p [] ys = refl
  find_where-append p (x ∷ xs) ys = ground (arith, find_where-append p xs ys)

  pub any-update_where :
      (p q : A → Bool) (f : A → A) (xs : List A)
      → ((x : A) → q (f x) ≡ q x)
      → any q (update_where p f xs) ≡ any q xs
  any-update_where p q f [] h = refl
  any-update_where p q f (x ∷ xs) h = ground (arith, h x, any-update_where p q f xs h)

  pub any-append : (p : A → Bool) (xs ys : List A) → any p (xs ++ ys) ≡ (any p xs || any p ys)
  any-append p [] ys = refl
  any-append p (x ∷ xs) ys = ground (arith, any-append p xs ys)

  pub find_where-any : (p : A → Bool) (xs : List A) → any p xs ≡ false → find_where p xs ≡ none
  find_where-any p [] h = refl
  find_where-any p (x ∷ xs) h = ground (arith, find_where-any p xs)

if_all {ℓ κ} :
    {A : Type ℓ} (P Q : A → Type κ) (b : Bool) (x y : A)
    → (b ≡ true → P x → Q y)
    → (P x → Q x)
    → P x
    → Q (if b then y else x)
if_all P Q true x y h k a = h refl a
if_all P Q false x y h k a = k a

-- What an update keeps of the rows that it selects, it keeps of every row.
pub All-update_where {ℓ κ} :
    {A : Type ℓ} (P Q : A → Type κ) (p : A → Bool) (f : A → A) (xs : List A)
    → ((x : A) → p x ≡ true → P x → Q (f x))
    → ((x : A) → P x → Q x)
    → All P xs
    → All Q (update_where p f xs)
All-update_where P Q p f [] h k a = tt
All-update_where P Q p f (x ∷ xs) h k a =
    (if_all P Q (p x) x (f x) (h x) (k x) a.0, All-update_where P Q p f xs h k a.1)

pub All-mono {ℓ κ} :
    {A : Type ℓ} (P Q : A → Type κ) (xs : List A) → ((x : A) → P x → Q x) → All P xs → All Q xs
All-mono P Q [] h a = tt
All-mono P Q (x ∷ xs) h a = (h x a.0, All-mono P Q xs h a.1)
