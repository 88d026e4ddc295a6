-- ===== src/Generator/Entries.antt =====
-- `Object.fromEntries`, as packages/baresync/src/generator/manifest.ts and outputs.ts use it: with
-- distinct keys no entry is lost.
use mathlib.Core.List.{append-nil, append_assoc}
use baresync.Prelude.{
  String, false, ◌||◌, Option, none, some, List, [], ◌∷◌, ◌++◌, map, ◌≡◌, refl, sym, ap, ◌∙◌, arith,
  ◌==◌, eq_iff, if◌then◌else◌, inl, inr, Bool-cases, has, Distinct, All,
}
use baresync.JsObject.{
  set_entry, set_entries, array_index, precedes, insert_key, in_key_order, from_entries,
}
use baresync.JsObject.Keys.{has-in_key_order}

module _ {ℓ} {A : Type ℓ} where
  abbrev pub entry_keys : List (String × A) → List String
  entry_keys entries = map (λ entry. entry.0) entries

  -- `record[key]`
  unfoldable pub get_entry : String → List (String × A) → Option A
  get_entry key [] = none
  get_entry key ((k, v) ∷ entries) =
      let others = get_entry key entries in if k == key then some v else others

  set_entry-new :
      (key : String) (value : A) (entries : List (String × A))
      → has key (entry_keys entries) ≡ false
      → set_entry key value entries ≡ entries ++ (key, value) ∷ []
  unfolding set_entry has
  set_entry-new key value [] h = refl
  set_entry-new key value ((k, v) ∷ entries) h = ground (arith, set_entry-new key value entries)

  -- Every key of `later` is new for `entries`.
  abbrev AreNew : List (String × A) → List (String × A) → Type 0
  AreNew later entries = All (λ entry. has entry.0 (entry_keys entries) ≡ false) later

  has-entry_keys :
      (k key : String) (value : A) (entries : List (String × A))
      → has k (entry_keys (entries ++ (key, value) ∷ [])) ≡ (has k (entry_keys entries) || key == k)
  unfolding has
  has-entry_keys k key value [] = ground arith
  has-entry_keys k key value ((l, v) ∷ entries) = ground (arith, has-entry_keys k key value entries)

  AreNew-add :
      (key : String) (value : A) (later entries : List (String × A))
      → has key (entry_keys later) ≡ false
      → AreNew later entries
      → AreNew later (entries ++ (key, value) ∷ [])
  unfolding has
  AreNew-add key value [] entries h new = tt
  AreNew-add key value ((k, v) ∷ later) entries h new = (
    ground (arith, has-entry_keys k key value entries, new.0, eq_iff k key, eq_iff key k),
    AreNew-add key value later entries (ground arith) new.1,
  )

  set_entries-new :
      (later entries : List (String × A))
      → Distinct (entry_keys later)
      → AreNew later entries
      → set_entries later entries ≡ entries ++ later
  unfolding set_entries
  set_entries-new [] entries distinct new = sym (append-nil entries)
  set_entries-new ((key, value) ∷ later) entries distinct new =
      ap (set_entries later) (set_entry-new key value entries new.0)
      ∙ set_entries-new later (entries ++ (key, value) ∷ []) distinct.1
          (AreNew-add key value later entries distinct.0 new.1)
      ∙ append_assoc entries ((key, value) ∷ []) later

  none-AreNew : (later : List (String × A)) → AreNew later []
  unfolding has
  none-AreNew [] = tt
  none-AreNew (entry ∷ later) = (refl, none-AreNew later)

  get_entry-insert_key :
      (key k : String) (v : A) (entries : List (String × A))
      → has k (entry_keys entries) ≡ false
      → get_entry key (insert_key (λ entry. entry.0) (k, v) entries)
        ≡ get_entry key ((k, v) ∷ entries)
  unfolding insert_key get_entry has
  get_entry-insert_key key k v [] new = refl
  get_entry-insert_key key k v ((l, w) ∷ entries) new =
      elim (Bool-cases (precedes (array_index k) (array_index l))) [
        | inl here ↦ rw here refl
        | inr other ↦ rw other (
            ground
              (arith, get_entry-insert_key key k v entries, eq_iff k key, eq_iff l key, eq_iff l k))
      ]

  get_entry-in_key_order :
      (key : String) (entries : List (String × A))
      → Distinct (entry_keys entries)
      → get_entry key (in_key_order (λ entry. entry.0) entries) ≡ get_entry key entries
  unfolding in_key_order get_entry
  get_entry-in_key_order key [] distinct = refl
  get_entry-in_key_order key ((k, v) ∷ entries) distinct =
      rw
        (
          get_entry-insert_key key k v (in_key_order (λ entry. entry.0) entries)
              (has-in_key_order (λ entry. entry.0) k entries ∙ distinct.0),
          get_entry-in_key_order key entries distinct.1,
        )
        refl

  -- With distinct keys each key keeps its value, and there is no other.
  pub get_entry-from_entries :
      (key : String) (entries : List (String × A))
      → Distinct (entry_keys entries)
      → get_entry key (from_entries entries) ≡ get_entry key entries
  unfolding from_entries
  get_entry-from_entries key entries distinct =
      rw (set_entries-new entries [] distinct (none-AreNew entries))
        (get_entry-in_key_order key entries distinct)

  pub get_entry-absent :
      (key : String) (entries : List (String × A))
      → has key (entry_keys entries) ≡ false
      → get_entry key entries ≡ none
  unfolding get_entry has
  get_entry-absent key [] h = refl
  get_entry-absent key ((k, v) ∷ entries) h = ground (arith, get_entry-absent key entries)
