-- ===== src/JsObject/Keys.antt =====
-- The order in which JavaScript lists the keys of an object: no key is lost and none is added.
use baresync.Prelude.{
  String, ◌||◌, List, [], ◌∷◌, map, ◌≡◌, refl, arith, ◌==◌, inl, inr, Bool-cases, has,
}
use baresync.JsObject.{array_index, precedes, insert_key, in_key_order}

module _ {ℓ} {A : Type ℓ} (key : A → String) where
  pub has-insert_key :
      (k : String) (a : A) (others : List A)
      → has k (map key (insert_key key a others)) ≡ (key a == k || has k (map key others))
  unfolding insert_key has
  has-insert_key k a [] = refl
  has-insert_key k a (first ∷ others) =
      elim (Bool-cases (precedes (array_index (key a)) (array_index (key first)))) [
        | inl here ↦ rw here refl
        | inr other ↦ rw other (ground (arith, has-insert_key k a others))
      ]

  pub has-in_key_order :
      (k : String) (values : List A)
      → has k (map key (in_key_order key values)) ≡ has k (map key values)
  unfolding in_key_order has
  has-in_key_order k [] = refl
  has-in_key_order k (a ∷ others) =
      rw (has-insert_key k a (in_key_order key others), has-in_key_order k others) refl
