-- ===== src/Dict.antt =====
-- Python's `dict` in insertion order, as an association list, and the sets that the program keeps.
use async_hyperliquid.Prelude.{
  ◌≡◌, refl, inl, inr, Bool, true, false, Option, none, some, List, [], ◌∷◌, arith, if◌then◌else◌,
  Bool-cases, Eq, string_eq, ◌==◌, nat_eq, contains, int_eq,
}

abbrev pub Dict {ℓ κ} : Type ℓ → Type κ → Type (ℓ ⊔ κ)
Dict K V = List (K × V)

module _ {ℓ κ} {K : Type ℓ} {V : Type κ} ⦃e : Eq K⦄ where
  -- `d.get(k)`
  unfoldable pub get : K → Dict K V → Option V
  get k [] = none
  get k ((j, v) ∷ d) = if j == k then some v else get k d

  -- `k in d`
  abbrev pub has_key : K → Dict K V → Bool
  has_key k d = elim (get k d) [ none ↦ false | some _ ↦ true ]

  -- `d[k] = v`: in place, or behind the others
  unfoldable pub put : K → V → Dict K V → Dict K V
  put k v [] = (k, v) ∷ []
  put k v ((j, w) ∷ d) = if j == k then (j, v) ∷ d else (j, w) ∷ put k v d

  -- `d.setdefault(k, v)`
  unfoldable pub setdefault : K → V → Dict K V → Dict K V
  setdefault k v d = elim (get k d) [ none ↦ put k v d | some _ ↦ d ]

  pub get-put :
      (k j : K) (v : V) (d : Dict K V) → get j (put k v d) ≡ (if k == j then some v else get j d)
  unfolding get put
  get-put k j v [] = refl
  get-put k j v ((i, w) ∷ d) =
      ground (arith, e.is_same_iff k j, e.is_same_iff i k, e.is_same_iff i j, get-put k j v d)

  pub get-setdefault :
      (k j : K) (v : V) (d : Dict K V)
      → get j (setdefault k v d)
        ≡ (if k == j then elim (get j d) [ none ↦ some v | some w ↦ some w ] else get j d)
  unfolding setdefault
  get-setdefault k j v d = ground (arith, get-put k j v d, e.is_same_iff k j)

  -- A key that is there stays there.
  pub get-put-some :
      (k j : K) (v : V) (d : Dict K V) {w : V}
      → get j d ≡ some w
      → (u : V) × (get j (put k v d) ≡ some u)
  get-put-some k j v d {w} h = elim (Bool-cases (k == j)) [
    | inl same ↦ (v, rw (get-put k j v d, same))
    | inr differ ↦ (w, rw (get-put k j v d, differ) h)
  ]

pub ruleset dict_laws = (get-put, get-setdefault)

-- `tuple(dict.fromkeys(xs))`: the first occurrence of each, in order.
module _ {ℓ} {A : Type ℓ} ⦃e : Eq A⦄ where
  unfoldable pub from_keys_onto : List A → List A → List A
  from_keys_onto seen [] = []
  from_keys_onto seen (x ∷ xs) =
      let rest = from_keys_onto seen xs in
      let fresh = x ∷ from_keys_onto (x ∷ seen) xs in if contains x seen then rest else fresh

  unfoldable pub from_keys : List A → List A
  unfolding from_keys_onto
  from_keys xs = from_keys_onto [] xs
