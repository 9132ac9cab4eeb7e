-- ===== src/Metadata/Resolves.antt =====
-- src/async_hyperliquid/_internal/metadata.py: the markets of a built index can be looked up.
use mathlib.Core.Path.{subst}
use async_hyperliquid.Prelude.{
  ℕ, String, ◌≡◌, refl, ◌⊎◌, inl, inr, Bool, true, false, some, arith, Eq, string_eq, beq_refl,
  nat_eq, ℤ, int_eq,
}
use async_hyperliquid.Result.{Error, Result, err, ok, ◌>>=◌, ◌>>◌, raise_if, ok_injective}
use async_hyperliquid.Dict.{Dict, get, put, setdefault, get-put, get-setdefault, get-put-some}
use async_hyperliquid.Metadata.{SpotToken, MetadataIndex}
use async_hyperliquid.Metadata.Perps.{put_perp}
use async_hyperliquid.Metadata.Spot.{slash, put_pair}

-- What returns satisfies `P`.
pub record Returns {ℓ κ} {A : Type ℓ} (P : A → Type κ) (r : Result A) : Type (ℓ ⊔ κ) where
  pub at : (a : A) → r ≡ ok a → P a

pub Returns-bind {ℓ μ κ} :
    {A : Type ℓ} {B : Type μ} {P : B → Type κ} (m : Result A) (f : A → Result B)
    → ((a : A) → m ≡ ok a → Returns P (f a))
    → Returns P (m >>= f)
Returns-bind (ok a) f k = k a refl
Returns-bind (err e) f k = record { at = λ b h. cc }

pub Returns-raise_if {κ} :
    {B : Type 0} {P : B → Type κ} (b : Bool) (x : Error) (k : Result B)
    → Returns P k
    → Returns P (raise_if b x >> k)
Returns-raise_if true x k h = record { at = λ c e. cc }
Returns-raise_if false x k h = h

pub Returns-ok {ℓ κ} : {A : Type ℓ} {P : A → Type κ} {a : A} → P a → Returns P (ok a)
Returns-ok {P = P} p = record { at = λ b h. subst P (ok_injective h) p }

module _ {ℓ} {K V : Type ℓ} ⦃e : Eq K⦄ where
  put-cases :
      (k j : K) (v : V) (d : Dict K V) {w : V}
      → get j (put k v d) ≡ some w
      → ((k ≡ j) × (v ≡ w)) ⊎ (get j d ≡ some w)
  put-cases k j v d h = ground (arith, get-put k j v d, e.is_same_iff k j)

  put-same : (k : K) (v : V) (d : Dict K V) → get k (put k v d) ≡ some v
  put-same k v d = rw (get-put k k v d, beq_refl k)

  put-kept :
      (k j : K) (v : V) (d : Dict K V) {w : V}
      → get j d ≡ some w
      → (k ≡ j → v ≡ w)
      → get j (put k v d) ≡ some w
  put-kept k j v d h s = ground (arith, get-put k j v d, e.is_same_iff k j)

  setdefault-kept :
      (k j : K) (v : V) (d : Dict K V) {w : V}
      → get j d ≡ some w
      → get j (setdefault k v d) ≡ some w
  setdefault-kept k j v d h = ground (arith, get-setdefault k j v d)

-- A coin with an asset is an alias of itself, and the asset has size decimals.
pub record Resolves (index : MetadataIndex) : Type 0 where
  pub at :
      (coin : String) (asset : ℤ)
      → get coin index.asset_by_coin ≡ some asset
      → (get coin index.coin_by_alias ≡ some coin)
        × ((decimals : ℤ) × (get asset index.size_decimals_by_asset ≡ some decimals))

pub put_perp-Resolves :
    (name : String) (id decimals : ℤ) (context : String × ℕ) (index : MetadataIndex)
    → Resolves index
    → Resolves (put_perp name id decimals context index)
put_perp-Resolves name id decimals context index h = record {
  at = λ coin asset found. elim (put-cases name coin id index.asset_by_coin found) [
    | inl (same, id_same) ↦ (
      subst (λ c. get c (put name name index.coin_by_alias) ≡ some c) same
          (put-same name name index.coin_by_alias),
      subst (λ a. (d : ℤ) × (get a (put id decimals index.size_decimals_by_asset) ≡ some d)) id_same
          (decimals, put-same id decimals index.size_decimals_by_asset),
    )
    | inr old ↦ (
      put-kept name coin name index.coin_by_alias (h.at coin asset old).0 (λ s. s),
      get-put-some id asset decimals index.size_decimals_by_asset (h.at coin asset old).1.1,
    )
  ];
}

pub put_pair-Resolves :
    (coin : String) (id : ℤ) (base quote : SpotToken) (index : MetadataIndex)
    → Resolves index
    → Resolves (put_pair coin id base quote index)
put_pair-Resolves coin id base quote index h = record {
  at = λ c asset found. elim (put-cases coin c id index.asset_by_coin found) [
    | inl (same, id_same) ↦ (
      defaults c (
          subst (λ k. get k (put coin coin index.coin_by_alias) ≡ some k) same
            (put-same coin coin index.coin_by_alias)),
      subst
          (λ a. (d : ℤ) × (get a (put id base.size_decimals index.size_decimals_by_asset) ≡ some d))
          id_same (base.size_decimals, put-same id base.size_decimals index.size_decimals_by_asset),
    )
    | inr old ↦ (
      defaults c (put-kept coin c coin index.coin_by_alias (h.at c asset old).0 (λ s. s)),
      get-put-some id asset base.size_decimals index.size_decimals_by_asset (h.at c asset old).1.1,
    )
  ];
}
  where
    defaults :
        (c : String)
        → get c (put coin coin index.coin_by_alias) ≡ some c
        → get c (put_pair coin id base quote index).coin_by_alias ≡ some c
    defaults c e =
        setdefault-kept quote.name c quote.name _
          (setdefault-kept (slash base.name quote.name) c coin _ e)
