-- ===== src/Signing/Preimage.antt =====
-- src/async_hyperliquid/_internal/signing.py: what the bytes that are hashed determine.
use native.Mathlib.Nat.{div-add-mod, div-div-eq-div-mul, mod-eq_of_lt}
use async_hyperliquid.Prelude.{
  ℕ, zero, suc, ◌+◌, ◌*◌, ◌/◌, ◌%◌, ◌^◌, ◌<◌, String, ◌≡◌, refl, sym, ap, ◌∙◌, inl, inr, Option,
  none, some, List, [], ◌∷◌, ◌++◌, arith, ltb, ltb→lt, Bool-cases, Option-cases, length, ℤ, pos,
  negsuc,
}
use async_hyperliquid.Result.{other, ok, or_raise, >>=-eq-ok, ok_injective}
use async_hyperliquid.Json.{JsonObject}
use async_hyperliquid.Text.{chars, of_chars}
use async_hyperliquid.World.{Externals}
use async_hyperliquid.Signing.{
  big_endian, to_bytes8, without_0x, vault_bytes, expiry_bytes, action_data,
}

-- The number that big-endian bytes write.
unfoldable read_bytes : List ℕ → ℕ
read_bytes [] = 0
read_bytes (b ∷ bs) = b * 256 ^ length bs + read_bytes bs

length-big_endian : (size n : ℕ) → length (big_endian size n) ≡ size
unfolding big_endian
length-big_endian zero n = refl
length-big_endian (suc size) n = ap suc (length-big_endian size n)

digit_step : (n c : ℕ) → n / c % 256 * c + n % c ≡ n % (c * 256)
digit_step n c =
    let q = n / (c * 256) in
    let outer = div-add-mod n (c * 256) in
    let inner = div-add-mod (n / c) 256 in
    let same : n / c / 256 ≡ q = div-div-eq-div-mul n c 256 in
    let whole : c * (256 * (n / c / 256) + n / c % 256) + n % c ≡ n =
      ap (λ k. c * k + n % c) inner ∙ div-add-mod n c in
    let whole' : c * (256 * q + n / c % 256) + n % c ≡ n =
      ap (λ k. c * (256 * k + n / c % 256) + n % c) (sym same) ∙ whole in
    omega (arith, whole', outer)

read_bytes-big_endian : (size n : ℕ) → read_bytes (big_endian size n) ≡ n % 256 ^ size
unfolding big_endian read_bytes
read_bytes-big_endian zero n = omega arith
read_bytes-big_endian (suc size) n =
    rw (length-big_endian size n, read_bytes-big_endian size n)
      (digit_step n (256 ^ size) ∙ ap (λ k. n % k) (omega arith))

to_bytes8-fits :
    (n : ℕ) {b : List ℕ} → to_bytes8 (pos n) ≡ ok b → (n < 256 ^ 8) × (big_endian 8 n ≡ b)
unfolding to_bytes8
to_bytes8-fits n p = elim (Bool-cases (ltb n (2 ^ 64))) [
  | inl small ↦ (omega (arith, ltb→lt n (2 ^ 64) small), ok_injective (rw small at p))
  | inr big ↦ cc (rw big at p)
]

to_bytes8-injective : (n m : ℤ) {b : List ℕ} → to_bytes8 n ≡ ok b → to_bytes8 m ≡ ok b → n ≡ m
unfolding to_bytes8
to_bytes8-injective (pos n) (pos m) p q =
    let (below, first) = to_bytes8-fits n p in
    let (below', second) = to_bytes8-fits m q in
    ap pos (
      sym (mod-eq_of_lt below)
      ∙ sym (read_bytes-big_endian 8 n)
      ∙ ap read_bytes (first ∙ sym second)
      ∙ read_bytes-big_endian 8 m
      ∙ mod-eq_of_lt below')
to_bytes8-injective (pos n) (negsuc m) p q = cc q
to_bytes8-injective (negsuc n) m p q = cc p

to_bytes8-length : (n : ℤ) {b : List ℕ} → to_bytes8 n ≡ ok b → length b ≡ 8
unfolding to_bytes8
to_bytes8-length (pos n) p = ap length (sym (to_bytes8-fits n p).1) ∙ length-big_endian 8 n
to_bytes8-length (negsuc n) p = cc p

-- Equal lists cut at one length are equal in both parts.
append_injective {ℓ} :
    {A : Type ℓ} (a b : List A) {c d : List A}
    → length a ≡ length b
    → a ++ c ≡ b ++ d
    → (a ≡ b) × (c ≡ d)
append_injective [] [] h e = (refl, e)
append_injective [] (y ∷ b) h e = cc h
append_injective (z ∷ a) [] h e = cc h
append_injective (z ∷ a) (y ∷ b) {c} {d} h e =
    let tails : a ++ c ≡ b ++ d = cc e in
    let both : (a ≡ b) × (c ≡ d) = append_injective a b (omega (arith, h)) tails in
    let heads : z ≡ y = cc e in (cc (heads, both.0), both.1)

module _ (x : Externals) where
  -- The vault of an action: none, or an address that decodes to 20 bytes.
  pub data IsVault : Option String → Type 0 where
    no_vault : IsVault none
    vault_at :
        (address : String) (bytes : List ℕ)
        → x.from_hex (of_chars (without_0x (chars address))) ≡ some bytes
        → length bytes ≡ 20
        → IsVault (some address)

  packed_as :
      (action : JsonObject) (pb : List ℕ)
      → or_raise (x.packb action) other ≡ ok pb
      → x.packb action ≡ some pb
  packed_as action pb h = elim (Option-cases (x.packb action)) [
    | inl e ↦ let bad = rw e at h in cc
    | inr (b, e) ↦
        let same = rw e at h in e ∙ ap (λ (bytes : List ℕ). some bytes) (ok_injective same)
  ]

  -- The parts of the hashed bytes.
  action_data-parts :
      (action : JsonObject) (v : Option String) (n : ℤ) (e : Option ℤ) {d : List ℕ}
      → action_data x action v n e ≡ ok d
      → (pb nb vb eb : List ℕ) × (x.packb action ≡ some pb)
        × (to_bytes8 n ≡ ok nb)
        × (vault_bytes x v ≡ ok vb)
        × (expiry_bytes x e ≡ ok eb)
        × (pb ++ (nb ++ (vb ++ eb)) ≡ d)
  unfolding action_data
  action_data-parts action v n e h =
      let (pb, packed, h0) = >>=-eq-ok (or_raise (x.packb action) other) _ h in
      let (nb, nonce, h1) = >>=-eq-ok (to_bytes8 n) _ h0 in
      let (vb, vault, h2) = >>=-eq-ok (vault_bytes x v) _ h1 in
      let (eb, expiry, h3) = >>=-eq-ok (expiry_bytes x e) _ h2 in
      (pb, nb, vb, eb, packed_as action pb packed, nonce, vault, expiry, ok_injective h3)

  same_packed : (b c : List ℕ) → ◌≡◌ {A = Option (List ℕ)} (some b) (some c) → b ≡ c
  same_packed b c h = cc

  some_expiry :
      (n : ℤ) {b : List ℕ}
      → expiry_bytes x (some n) ≡ ok b
      → (c : List ℕ) × (to_bytes8 n ≡ ok c) × (0 ∷ c ≡ b)
  unfolding expiry_bytes
  some_expiry n p = let (c, got, h) = >>=-eq-ok (to_bytes8 n) _ p in (c, got, ok_injective h)

  expiry_bytes-injective :
      (e f : Option ℤ) {b : List ℕ} → expiry_bytes x e ≡ ok b → expiry_bytes x f ≡ ok b → e ≡ f
  unfolding expiry_bytes
  expiry_bytes-injective none none p q = refl
  expiry_bytes-injective none (some m) p q = let (c, got, h) = some_expiry m q in cc (h, p)
  expiry_bytes-injective (some n) none p q = let (c, got, h) = some_expiry n p in cc (h, q)
  expiry_bytes-injective (some n) (some m) p q =
      let (c, got, h) = some_expiry n p in
      let (d, got', h') = some_expiry m q in
      let same : c ≡ d = cc (h, h') in
      ap (λ (k : ℤ). some k) (to_bytes8-injective n m got (got' ∙ ap (λ k. ok k) (sym same)))

  address_bytes :
      (address : String) {bytes vb : List ℕ}
      → x.from_hex (of_chars (without_0x (chars address))) ≡ some bytes
      → vault_bytes x (some address) ≡ ok vb
      → 1 ∷ bytes ≡ vb
  unfolding vault_bytes
  address_bytes address h p = ok_injective (rw h at p)

  vault_bytes-cut :
      (v u : Option String) {vb ub eb fb : List ℕ}
      → IsVault v
      → IsVault u
      → vault_bytes x v ≡ ok vb
      → vault_bytes x u ≡ ok ub
      → vb ++ eb ≡ ub ++ fb
      → (vb ≡ ub) × (eb ≡ fb)
  unfolding vault_bytes
  vault_bytes-cut v u no_vault no_vault p q e =
      append_injective _ _ (ap length (ok_injective (sym p ∙ q))) e
  vault_bytes-cut v u no_vault (vault_at a bs h l) p q e =
      let none_ = ok_injective p in let some_ = address_bytes a h q in cc (e, none_, some_)
  vault_bytes-cut v u (vault_at a bs h l) no_vault p q e =
      let none_ = ok_injective q in let some_ = address_bytes a h p in cc (e, none_, some_)
  vault_bytes-cut v u (vault_at a bs h l) (vault_at b cs i j) p q e =
      append_injective _ _
        (sym (ap length (address_bytes a h p))
          ∙ ap suc (l ∙ sym j)
          ∙ ap length (address_bytes b i q))
        e

  -- What is hashed for an action determines the rest of the call: with vaults that decode to 20
  -- bytes, two calls for one action that hash the same bytes have the same nonce, the same bytes of
  -- the vault and the same expiry.
  pub action_data-determines :
      (action : JsonObject) (v u : Option String) (n m : ℤ) (e f : Option ℤ) (d : List ℕ)
      → IsVault v
      → IsVault u
      → action_data x action v n e ≡ ok d
      → action_data x action u m f ≡ ok d
      → (n ≡ m) × (vault_bytes x v ≡ vault_bytes x u) × (e ≡ f)
  action_data-determines action v u n m e f d is_v is_u p q =
      let (pb, nb, vb, eb, packed, nonce, vault, expiry, made) = action_data-parts action v n e p in
      let (qb, mb, ub, fb, packed', nonce', vault', expiry', made') =
        action_data-parts action u m f q in
      let (packed, tail) =
        append_injective pb qb (ap length (same_packed pb qb (sym packed ∙ packed')))
          (made ∙ sym made') in
      let (same_nonce, tail') =
        append_injective nb mb (to_bytes8-length n nonce ∙ sym (to_bytes8-length m nonce')) tail in
      let (same_vault, same_expiry) = vault_bytes-cut v u is_v is_u vault vault' tail' in
      (
        to_bytes8-injective n m (nonce ∙ ap (λ k. ok k) same_nonce) nonce',
        vault ∙ ap (λ k. ok k) same_vault ∙ sym vault',
        expiry_bytes-injective e f (expiry ∙ ap (λ k. ok k) same_expiry) expiry',
      )
