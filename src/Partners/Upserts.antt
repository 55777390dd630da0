-- ===== src/Partners/Upserts.antt =====
-- What the upsert of a merchant keeps unique (src/database.ts).
use perk_os_nayori_platform.Prelude.{
  String, ◌≡◌, refl, sym, inl, inr, false, List, [], ◌∷◌, arith, ◌==◌, eq_iff, Bool-cases, ≡→eq,
  eq-cases, any,
}
use perk_os_nayori_platform.Prelude.Table.{update}
use perk_os_nayori_platform.Prelude.Table.Keys.{IsUnique}
use perk_os_nayori_platform.Partners.{MerchantRow, merchant_key, takes_hash, is_merchant, upsert}

abbrev pub hash_key : MerchantRow → String
hash_key m = m.api_key_hash

module _ (new : MerchantRow) where
  abbrev replaced : List MerchantRow → List MerchantRow
  replaced t = update (is_merchant new.merchant.merchant_id) (λ old. new) t

  any_id :
      (k : String) (t : List MerchantRow)
      → any (λ x. merchant_key x == k) (replaced t) ≡ any (λ x. merchant_key x == k) t
  unfolding update
  any_id k [] = refl
  any_id k (r ∷ t) = ground (
    arith,
    any_id k t,
    eq_iff r.merchant.merchant_id new.merchant.merchant_id,
    eq_iff r.merchant.merchant_id k,
    eq_iff new.merchant.merchant_id k,
  )

  ids : (t : List MerchantRow) → IsUnique merchant_key t → IsUnique merchant_key (replaced t)
  unfolding update
  ids [] u = tt
  ids (r ∷ t) (fresh, u) = (
    ground (
      arith,
      any_id r.merchant.merchant_id t,
      any_id new.merchant.merchant_id t,
      eq_iff r.merchant.merchant_id new.merchant.merchant_id,
    ),
    ids t u,
  )

  -- A hash that no other merchant takes is taken by no row of another id.
  any_hash :
      (h : String) (t : List MerchantRow)
      → any (λ x. hash_key x == h) t ≡ false
      → (new.api_key_hash == h) ≡ false
      → any (λ x. hash_key x == h) (replaced t) ≡ false
  unfolding update
  any_hash h [] old other = refl
  any_hash h (r ∷ t) old other = ground (arith, any_hash h t)

  unchanged :
      (t : List MerchantRow)
      → any (λ x. merchant_key x == new.merchant.merchant_id) t ≡ false
      → replaced t ≡ t
  unfolding update
  unchanged [] h = refl
  unchanged (r ∷ t) h = ground (arith, unchanged t)

  not_taken :
      (t : List MerchantRow)
      → any (takes_hash new.merchant.merchant_id new.api_key_hash) t ≡ false
      → any (λ x. merchant_key x == new.merchant.merchant_id) t ≡ false
      → any (λ x. hash_key x == new.api_key_hash) t ≡ false
  not_taken [] free other = refl
  not_taken (r ∷ t) free other = ground (arith, not_taken t)

  hashes :
      (t : List MerchantRow)
      → any (takes_hash new.merchant.merchant_id new.api_key_hash) t ≡ false
      → IsUnique merchant_key t
      → IsUnique hash_key t
      → IsUnique hash_key (replaced t)
  unfolding update
  hashes [] free u v = tt
  hashes (r ∷ t) free (fresh, u) (single, v) =
      elim (eq-cases r.merchant.merchant_id new.merchant.merchant_id) [
        | inl same ↦
            let gone : any (λ x. merchant_key x == new.merchant.merchant_id) t ≡ false =
              rw (sym same) fresh in
            let e = unchanged t gone in
            (
              rw (≡→eq r.merchant.merchant_id new.merchant.merchant_id same, e)
                  (not_taken t (ground arith) gone),
              rw e v,
            )
        | inr other ↦ (
          rw other (
              any_hash r.api_key_hash t single (
                ground (
                  arith,
                  eq_iff new.api_key_hash r.api_key_hash,
                  eq_iff r.api_key_hash new.api_key_hash,
                ))),
          hashes t (ground arith) u v,
        )
      ]

  pub upsert-IsUnique :
      (t : List MerchantRow)
      → any (takes_hash new.merchant.merchant_id new.api_key_hash) t ≡ false
      → IsUnique merchant_key t
      → IsUnique hash_key t
      → IsUnique merchant_key (upsert new t) × IsUnique hash_key (upsert new t)
  upsert-IsUnique t free u v = elim (Bool-cases (any (is_merchant new.merchant.merchant_id) t)) [
    | inl old ↦ rw old (ids t u, hashes t free u v)
    | inr fresh ↦ rw fresh ((fresh, u), (not_taken t free fresh, v))
  ]
