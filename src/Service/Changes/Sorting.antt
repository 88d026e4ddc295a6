-- ===== src/Service/Changes/Sorting.antt =====
-- The stable sort of the numbered changes, and the loop that numbers them.
use mathlib.Core.List.{append_assoc, append-nil, Perm, perm_middle}
use mathlib.Core.List.Perm
use baresync.Prelude.{
  ℕ, String, none, some, List, [], ◌∷◌, ◌++◌, map, ◌≡◌, refl, ◌∙◌, ◌≤◌, arith, inl, inr, leb,
  leb→le, ◌=?◌, Bool-cases, Option-cases, All, keep,
}
use baresync.Service.Changes.{SyncPushChange, position, sort_out, insert, sort_by_order}

module _ {ℓ} {Row : Type ℓ} where
  -- The changes of ordered tables with their places, and the changes of the other tables.
  abbrev pub known_changes : List String → List (SyncPushChange Row) → List (ℕ × SyncPushChange Row)
  known_changes order [] = []
  known_changes order (c ∷ cs) = elim (position order c.table) [
    | none ↦ known_changes order cs
    | some i ↦ (i, c) ∷ known_changes order cs
  ]

  abbrev pub unknown_changes : List String → List (SyncPushChange Row) → List (SyncPushChange Row)
  unknown_changes order [] = []
  unknown_changes order (c ∷ cs) = elim (position order c.table) [
    | none ↦ c ∷ unknown_changes order cs
    | some i ↦ unknown_changes order cs
  ]

  pub sort_out_lem :
      (order : List String) (changes : List (SyncPushChange Row))
      (known : List (ℕ × SyncPushChange Row)) (unknown : List (SyncPushChange Row))
      → sort_out order changes known unknown
        ≡ (known ++ known_changes order changes, unknown ++ unknown_changes order changes)
  unfolding sort_out
  sort_out_lem order [] known unknown = simp append-nil
  sort_out_lem order (c ∷ cs) known unknown = elim (Option-cases (position order c.table)) [
    | inl absent ↦
        rw (absent, sort_out, known_changes, unknown_changes)
          (sort_out_lem order cs known (unknown ++ c ∷ []) ∙ simp append_assoc)
    | inr (i, found) ↦
        rw (found, sort_out, known_changes, unknown_changes)
          (sort_out_lem order cs (known ++ (i, c) ∷ []) unknown ∙ simp append_assoc)
  ]

  pub known-append-unknown-perm :
      (order : List String) (changes : List (SyncPushChange Row))
      → Perm (map (λ x. x.1) (known_changes order changes) ++ unknown_changes order changes) changes
  known-append-unknown-perm order [] = Perm.refl []
  known-append-unknown-perm order (c ∷ cs) = elim (Option-cases (position order c.table)) [
    | inl absent ↦
        rw (absent, known_changes, unknown_changes)
          (Perm.trans
            (perm_middle (map (λ x. x.1) (known_changes order cs)) (unknown_changes order cs))
            (Perm.cons c (known-append-unknown-perm order cs)))
    | inr (i, found) ↦
        rw (found, known_changes, unknown_changes)
          (Perm.cons c (known-append-unknown-perm order cs))
  ]

  insert-perm :
      (x : ℕ × SyncPushChange Row) (ys : List (ℕ × SyncPushChange Row))
      → Perm (insert x ys) (x ∷ ys)
  unfolding insert
  insert-perm x [] = Perm.refl (x ∷ [])
  insert-perm x (y ∷ ys) = elim (Bool-cases (leb x.0 y.0)) [
    | inl le ↦ rw le (Perm.refl (x ∷ y ∷ ys))
    | inr gt ↦ rw gt (Perm.trans (Perm.cons y (insert-perm x ys)) (Perm.swap x y ys))
  ]

  pub sort_by_order-perm : (xs : List (ℕ × SyncPushChange Row)) → Perm (sort_by_order xs) xs
  unfolding sort_by_order
  sort_by_order-perm [] = Perm.refl []
  sort_by_order-perm (x ∷ xs) =
      Perm.trans (insert-perm x (sort_by_order xs)) (Perm.cons x (sort_by_order-perm xs))

  abbrev pub IsSorted : List (ℕ × SyncPushChange Row) → Type 0
  IsSorted [] = Unit
  IsSorted (x ∷ xs) = All (λ y. x.0 ≤ y.0) xs × IsSorted xs

  All-insert :
      (n : ℕ) (x : ℕ × SyncPushChange Row) (ys : List (ℕ × SyncPushChange Row))
      → n ≤ x.0
      → All (λ y. n ≤ y.0) ys
      → All (λ y. n ≤ y.0) (insert x ys)
  unfolding insert
  All-insert n x [] h k = (h, tt)
  All-insert n x (y ∷ ys) h k = ground (arith, All-insert n x ys h k.1)

  All-weaken :
      (m n : ℕ) (ys : List (ℕ × SyncPushChange Row))
      → m ≤ n
      → All (λ y. n ≤ y.0) ys
      → All (λ y. m ≤ y.0) ys
  All-weaken m n [] h k = tt
  All-weaken m n (y ∷ ys) h k = (omega arith, All-weaken m n ys h k.1)

  insert-IsSorted :
      (x : ℕ × SyncPushChange Row) (ys : List (ℕ × SyncPushChange Row))
      → IsSorted ys
      → IsSorted (insert x ys)
  unfolding insert
  insert-IsSorted x [] h = (tt, tt)
  insert-IsSorted x (y ∷ ys) h = elim (Bool-cases (leb x.0 y.0)) [
    | inl le ↦ rw le ((leb→le x.0 y.0 le, All-weaken x.0 y.0 ys (leb→le x.0 y.0 le) h.0), h)
    | inr gt ↦ rw gt (All-insert y.0 x ys (ground arith) h.0, insert-IsSorted x ys h.1)
  ]

  pub sort_by_order-IsSorted : (xs : List (ℕ × SyncPushChange Row)) → IsSorted (sort_by_order xs)
  unfolding sort_by_order
  sort_by_order-IsSorted [] = tt
  sort_by_order-IsSorted (x ∷ xs) = insert-IsSorted x (sort_by_order xs) (sort_by_order-IsSorted xs)

  All-inserted {κ} :
      (P : ℕ × SyncPushChange Row → Type κ) (x : ℕ × SyncPushChange Row)
      (ys : List (ℕ × SyncPushChange Row))
      → P x
      → All P ys
      → All P (insert x ys)
  unfolding insert
  All-inserted P x [] p h = (p, tt)
  All-inserted P x (y ∷ ys) p h = elim (Bool-cases (leb x.0 y.0)) [
    | inl le ↦ rw le (p, h)
    | inr gt ↦ rw gt (h.0, All-inserted P x ys p h.1)
  ]

  -- What holds of each numbered change is kept by the sort.
  pub All-sort_by_order {κ} :
      (P : ℕ × SyncPushChange Row → Type κ) (xs : List (ℕ × SyncPushChange Row))
      → All P xs
      → All P (sort_by_order xs)
  unfolding sort_by_order
  All-sort_by_order P [] h = tt
  All-sort_by_order P (x ∷ xs) h =
      All-inserted P x (sort_by_order xs) h.0 (All-sort_by_order P xs h.1)

  -- The changes at one place keep their order.
  insert-stable :
      (n : ℕ) (x : ℕ × SyncPushChange Row) (ys : List (ℕ × SyncPushChange Row))
      → keep (λ y. y.0 =? n) (insert x ys) ≡ keep (λ y. y.0 =? n) (x ∷ ys)
  unfolding insert
  insert-stable n x [] = refl
  insert-stable n x (y ∷ ys) = ground (arith, insert-stable n x ys)

  pub sort_by_order-stable :
      (n : ℕ) (xs : List (ℕ × SyncPushChange Row))
      → keep (λ y. y.0 =? n) (sort_by_order xs) ≡ keep (λ y. y.0 =? n) xs
  unfolding sort_by_order
  sort_by_order-stable n [] = refl
  sort_by_order-stable n (x ∷ xs) =
      insert-stable n x (sort_by_order xs) ∙ ground (arith, sort_by_order-stable n xs)
