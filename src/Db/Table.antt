-- ===== src/Db/Table.antt =====
-- Tables: what SQL does to the rows of one of them.
use remindo.Prelude.{ℕ, ◌≡◌, Bool, Option, none, some, List, [], ◌∷◌, arith, ◌==◌, if◌then◌else◌}
use mathlib.Core.Option

module _ {ℓ} {A : Type ℓ} where
  -- UPDATE ... SET f WHERE p
  unfoldable pub update_where : (A → Bool) → (A → A) → List A → List A
  update_where p f [] = []
  update_where p f (r ∷ t) = (if p r then f r else r) ∷ update_where p f t

  -- ORDER BY
  unfoldable pub order_insert : (A → A → Bool) → A → List A → List A
  order_insert before r [] = r ∷ []
  order_insert before r (x ∷ t) =
      let rest = order_insert before r t in if before x r then x ∷ rest else r ∷ x ∷ t

  unfoldable pub order_by : (A → A → Bool) → List A → List A
  unfolding order_insert
  order_by before [] = []
  order_by before (r ∷ t) = order_insert before r (order_by before t)

module _ {ℓ} {A : Type ℓ} (id_of : A → ℕ) where
  -- The row under a primary key.
  unfoldable pub get : ℕ → List A → Option A
  get i [] = none
  get i (r ∷ t) = let rest = get i t in if id_of r == i then some r else rest

  -- UPDATE ... SET f WHERE id = i
  abbrev pub update : ℕ → (A → A) → List A → List A
  update i f = update_where (λ r. id_of r == i) f

  pub get-update :
      (i j : ℕ) (f : A → A) (t : List A)
      → ((r : A) → id_of (f r) ≡ id_of r)
      → get j (update i f t) ≡ (if i == j then Option.map f (get j t) else get j t)
  unfolding get update_where
  get-update i j f [] keep = ground arith
  get-update i j f (r ∷ t) keep = ground (arith, get-update i j f t keep, keep r)

  -- A row is found under its own key.
  pub get-id : (i : ℕ) (t : List A) {r : A} → get i t ≡ some r → id_of r ≡ i
  unfolding get
  get-id i [] h = cc
  get-id i (x ∷ t) {r} h = ground (arith, get-id i t {r = r})
