-- ===== src/Dict.antt =====
-- Go maps with string keys as association lists: `m[k]`, `m[k] = v`, `delete`, and the idiom
-- `for k, v := range m { if … { delete(m, k) } }`.
use cpa_usage.Base.{
  All, ◌≡◌, refl, subst, Bool, Option, none, some, List, [], ◌∷◌, arith, if◌then◌else◌, Bool-cases,
  inl, inr,
}
use cpa_usage.Text.{Text, text_eq, text_eq_iff}

abbrev pub Dict {ℓ} : Type ℓ → Type ℓ
Dict V = List (Text × V)

module _ {ℓ} {V : Type ℓ} where
  unfoldable pub find : Text → Dict V → Option V
  find k [] = none
  find k ((j, v) ∷ m) = if text_eq j k then some v else find k m

  unfoldable pub put : Text → V → Dict V → Dict V
  put k v [] = (k, v) ∷ []
  put k v ((j, w) ∷ m) = if text_eq j k then (k, v) ∷ m else (j, w) ∷ put k v m

  unfoldable pub remove : Text → Dict V → Dict V
  remove k [] = []
  remove k ((j, v) ∷ m) = let rest = remove k m in if text_eq j k then rest else (j, v) ∷ rest

  unfoldable pub delete_if : (Text → V → Bool) → Dict V → Dict V
  delete_if p [] = []
  delete_if p ((j, v) ∷ m) = let rest = delete_if p m in if p j v then rest else (j, v) ∷ rest

  -- A map has each key once.
  abbrev pub Distinct : Dict V → Type ℓ
  Distinct [] = Unit
  Distinct ((j, v) ∷ m) = (find j m ≡ none) × Distinct m

  pub find-put :
      (k j : Text) (v : V) (m : Dict V)
      → find j (put k v m) ≡ (if text_eq k j then some v else find j m)
  unfolding find put
  find-put k j v [] = refl
  find-put k j v ((i, w) ∷ m) =
      ground (arith, text_eq_iff k j, text_eq_iff i k, text_eq_iff i j, find-put k j v m)

  pub find-remove :
      (k j : Text) (m : Dict V) → find j (remove k m) ≡ (if text_eq k j then none else find j m)
  unfolding find remove
  find-remove k j [] = ground arith
  find-remove k j ((i, w) ∷ m) =
      ground (arith, text_eq_iff k j, text_eq_iff i k, text_eq_iff i j, find-remove k j m)

  -- What `delete_if` leaves of a value.
  abbrev pub kept : (Text → V → Bool) → Text → Option V → Option V
  kept p k none = none
  kept p k (some v) = if p k v then none else some v

  find-delete_if_absent :
      (p : Text → V → Bool) (k : Text) (m : Dict V)
      → find k m ≡ none
      → find k (delete_if p m) ≡ none
  unfolding find delete_if
  find-delete_if_absent p k [] h = refl
  find-delete_if_absent p k ((j, v) ∷ m) h =
      ground (arith, text_eq_iff j k, find-delete_if_absent p k m)

  pub find-delete_if :
      (p : Text → V → Bool) (k : Text) (m : Dict V)
      → Distinct m
      → find k (delete_if p m) ≡ kept p k (find k m)
  unfolding find delete_if
  find-delete_if p k [] d = refl
  find-delete_if p k ((j, v) ∷ m) (fresh, d) = elim (Bool-cases (text_eq j k)) [
    | inl same ↦ here ((text_eq_iff j k).0 same)
    | inr other ↦ rw other (ground (arith, find-delete_if p k m d))
  ]
    where
      here : j ≡ k → find k (delete_if p ((j, v) ∷ m)) ≡ kept p k (find k ((j, v) ∷ m))
      here e = ground (arith, text_eq_iff j k, find-delete_if_absent p k m)

  pub Distinct-delete_if :
      (p : Text → V → Bool) (m : Dict V) → Distinct m → Distinct (delete_if p m)
  unfolding delete_if
  Distinct-delete_if p [] d = tt
  Distinct-delete_if p ((j, v) ∷ m) (fresh, d) = elim (Bool-cases (p j v)) [
    | inl gone ↦ rw gone (Distinct-delete_if p m d)
    | inr stays ↦ rw stays (find-delete_if_absent p j m fresh, Distinct-delete_if p m d)
  ]

  pub Distinct-remove : (k : Text) (m : Dict V) → Distinct m → Distinct (remove k m)
  unfolding remove
  Distinct-remove k [] d = tt
  Distinct-remove k ((j, v) ∷ m) (fresh, d) = elim (Bool-cases (text_eq j k)) [
    | inl same ↦ rw same (Distinct-remove k m d)
    | inr other ↦ rw other (ground (arith, find-remove k j m), Distinct-remove k m d)
  ]

  pub Distinct-put : (k : Text) (v : V) (m : Dict V) → Distinct m → Distinct (put k v m)
  unfolding put
  Distinct-put k v [] d = (unfold find in refl, tt)
  Distinct-put k v ((j, w) ∷ m) (fresh, d) = elim (Bool-cases (text_eq j k)) [
    | inl same ↦ rw same (subst (λ t. find t m ≡ none) ((text_eq_iff j k).0 same) fresh, d)
    | inr other ↦
        rw other
          (ground (arith, find-put k j v m, text_eq_iff j k, text_eq_iff k j), Distinct-put k v m d)
  ]

module _ {ℓ κ} {V : Type ℓ} (P : Text × V → Type κ) where
  pub All-put : (k : Text) (v : V) (m : Dict V) → P (k, v) → All P m → All P (put k v m)
  unfolding put
  All-put k v [] h hs = (h, tt)
  All-put k v ((j, w) ∷ m) h (hw, hs) = elim (Bool-cases (text_eq j k)) [
    | inl same ↦ rw same (h, hs)
    | inr other ↦ rw other (hw, All-put k v m h hs)
  ]

ruleset dict_laws = (find-put, find-remove)
