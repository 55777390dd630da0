-- ===== src/Chain/Laws.antt =====
-- When an observation counts as a confirmation (src/reconciliation.ts).
use perk_os_nayori_platform.Prelude.{
  ℕ, ◌+◌, ◌-◌, ◌≤◌, String, ◌≡◌, refl, sym, ap, ◌∙◌, ◌↔◌, inl, inr, true, Option, none, some, List,
  arith, eq_iff, eq_refl, Option-cases,
}
use perk_os_nayori_platform.Prelude.Text.{strip_prefix}
use perk_os_nayori_platform.Prelude.Json.{
  Value, Fields, as_record, property, as_text, safe_integer, find_field,
}
use perk_os_nayori_platform.Broadcast.{is_ok, is_txid}
use perk_os_nayori_platform.Chain.{
  confirmed, Response, is_block_hash, bounded_json, lower_text, observe, observe_response,
  observe_record, observe_status, observe_block, observe_info, observe_tip,
}

module _ (decode : List ℕ → Option String) (parse_json : String → Option Value)
    (lower : String → String) (cut : ℕ → String → String) (decimal : ℕ → String) where
  -- The chain's word for a confirmation: two 2xx answers, of which one names the transaction as
  -- successful in a block and the other the tip of the chain.
  pub record IsMined (txid : String) (tx info : Option Response) (height : ℕ) (hash : String)
      (tip : ℕ) : Type 0 where
    pub response : Response
    pub answered : tx ≡ some response
    pub answered_ok : is_ok response.status ≡ true
    pub fields : Fields
    pub parsed : as_record (bounded_json decode parse_json response) ≡ some fields
    pub same_id : as_text (find_field "tx_id" fields) ≡ some txid
    pub success : lower_text lower (as_text (find_field "status" fields)) ≡ "success"
    pub block_height :
        safe_integer (property "height" (as_record (find_field "block" fields))) ≡ some height
    pub block_hash :
        lower_text lower (as_text (property "hash" (as_record (find_field "block" fields)))) ≡ hash
    pub hash_ok : is_block_hash hash ≡ true
    pub info_response : Response
    pub informed : info ≡ some info_response
    pub informed_ok : is_ok info_response.status ≡ true
    pub chain_tip :
        safe_integer
          (property "stacks_tip_height" (as_record (bounded_json decode parse_json info_response)))
        ≡ some tip

  tip_sound :
      (min : ℕ) (h : ℕ) (hash : String) (o : Option ℕ) {h' : ℕ} {hash' : String} {n : ℕ}
      → observe_tip decode parse_json lower cut decimal min h hash o ≡ confirmed h' hash' n
      → (tip : ℕ) × (o ≡ some tip)
        × (h ≡ h')
        × (hash ≡ hash')
        × (h' ≤ tip)
        × (n ≡ tip - h' + 1)
        × (min ≤ n)
  unfolding observe_tip
  tip_sound min h hash none e = cc
  tip_sound min h hash (some tip) e =
      (tip, refl, ground arith, ground arith, ground arith, ground arith, ground arith)

  info_sound :
      (min : ℕ) (h : ℕ) (hash : String) (o : Option Response) {h' : ℕ} {hash' : String} {n : ℕ}
      → observe_info decode parse_json lower cut decimal min h hash o ≡ confirmed h' hash' n
      → (r : Response) × (o ≡ some r)
        × (is_ok r.status ≡ true)
        × (observe_tip decode parse_json lower cut decimal min h hash (
              safe_integer
                (property "stacks_tip_height" (as_record (bounded_json decode parse_json r))))
            ≡ confirmed h' hash' n)
  unfolding observe_info
  info_sound min h hash none e = cc
  info_sound min h hash (some r) e = (r, refl, ground arith, ground arith)

  block_sound :
      (min : ℕ) (block : Option Fields) (o : Option Response) {h' : ℕ} {hash' : String} {n : ℕ}
      → observe_block decode parse_json lower cut decimal min block o ≡ confirmed h' hash' n
      → (h : ℕ) × (safe_integer (property "height" block) ≡ some h)
        × (is_block_hash (lower_text lower (as_text (property "hash" block))) ≡ true)
        × (observe_info decode parse_json lower cut decimal min h
              (lower_text lower (as_text (property "hash" block)))
              o
            ≡ confirmed h' hash' n)
  unfolding observe_block
  block_sound min block o e = elim (Option-cases (safe_integer (property "height" block))) [
    | inl absent ↦ ground arith
    | inr (h, found) ↦ (h, found, ground arith, ground arith)
  ]

  status_sound :
      (min : ℕ) (status : String) (fs : Fields) (o : Option Response) {h' : ℕ} {hash' : String}
      {n : ℕ}
      → observe_status decode parse_json lower cut decimal min status fs o ≡ confirmed h' hash' n
      → (status ≡ "success")
        × (observe_block decode parse_json lower cut decimal min
              (as_record (find_field "block" fs))
              o
            ≡ confirmed h' hash' n)
  unfolding observe_status
  status_sound min status fs o e = (ground (arith, eq_iff status "success"), ground arith)

  record_sound :
      (min : ℕ) (txid : String) (fs : Option Fields) (o : Option Response) {h' : ℕ} {hash' : String}
      {n : ℕ}
      → observe_record decode parse_json lower cut decimal min txid fs o ≡ confirmed h' hash' n
      → (f : Fields) × (fs ≡ some f)
        × (as_text (find_field "tx_id" f) ≡ some txid)
        × (observe_status decode parse_json lower cut decimal min
              (lower_text lower (as_text (find_field "status" f)))
              f
              o
            ≡ confirmed h' hash' n)
  unfolding observe_record
  record_sound min txid none o e = cc
  record_sound min txid (some f) o e = elim (Option-cases (as_text (find_field "tx_id" f))) [
    | inl absent ↦ ground arith
    | inr (t, found) ↦ (f, refl, ground (arith, eq_iff t txid), ground arith)
  ]

  response_sound :
      (min : ℕ) (txid : String) (tx o : Option Response) {h' : ℕ} {hash' : String} {n : ℕ}
      → observe_response decode parse_json lower cut decimal min txid tx o ≡ confirmed h' hash' n
      → (r : Response) × (tx ≡ some r)
        × (is_ok r.status ≡ true)
        × (observe_record decode parse_json lower cut decimal min txid
              (as_record (bounded_json decode parse_json r))
              o
            ≡ confirmed h' hash' n)
  unfolding observe_response
  response_sound min txid none o e = cc
  response_sound min txid (some r) o e = (r, refl, ground arith, ground arith)

  confirmed_sound :
      (min : ℕ) (txid : String) (tx info : Option Response) (height : ℕ) (hash : String) (n : ℕ)
      → observe decode parse_json lower cut decimal min txid tx info ≡ confirmed height hash n
      → (is_txid txid ≡ true)
        × (tip : ℕ) × IsMined txid tx info height hash tip
        × (height ≤ tip)
        × (n ≡ tip - height + 1)
        × (min ≤ n)
  unfolding observe
  confirmed_sound min txid tx info height hash n e =
      let valid : is_txid txid ≡ true = ground arith in
      let (r, answered, good, e1) =
        response_sound min txid tx info {h' = height} {hash' = hash} {n = n} (ground arith) in
      let (f, parsed, same, e2) = record_sound min txid _ info e1 in
      let (success, e3) = status_sound min _ f info e2 in
      let (h, block_height, hash_ok, e4) = block_sound min _ info e3 in
      let (i, informed, informed_ok, e5) = info_sound min h _ info e4 in
      let (tip, chain_tip, eh, ehash, le, en, deep) = tip_sound min h _ _ e5 in
      (
        valid,
        tip,
        record {
          response = r;
          answered = answered;
          answered_ok = good;
          fields = f;
          parsed = parsed;
          same_id = same;
          success = success;
          block_height = block_height ∙ ap some eh;
          block_hash = ehash;
          hash_ok = sym (ap is_block_hash ehash) ∙ hash_ok;
          info_response = i;
          informed = informed;
          informed_ok = informed_ok;
          chain_tip = chain_tip;
        },
        le,
        en,
        deep,
      )

  mined_observed :
      (min : ℕ) (txid : String) (tx info : Option Response) (height : ℕ) (hash : String) (tip : ℕ)
      → is_txid txid ≡ true
      → IsMined txid tx info height hash tip
      → height ≤ tip
      → min ≤ tip - height + 1
      → observe decode parse_json lower cut decimal min txid tx info
        ≡ confirmed height hash (tip - height + 1)
  unfolding observe observe_response observe_record observe_status observe_block observe_info
      observe_tip strip_prefix
  mined_observed min txid tx info height hash tip valid m le deep =
      rw (m.answered, m.informed, m.parsed, m.success) (ground (arith, m, eq_refl txid))

  -- A settlement is observed as confirmed exactly if its transaction id is well-formed and the chain
  -- names that transaction as successful in a block, with the tip not below that block and at least
  -- the configured number of blocks deep, the block itself counted.
  pub confirmed_iff :
      (min : ℕ) (txid : String) (tx info : Option Response) (height : ℕ) (hash : String) (n : ℕ)
      → (observe decode parse_json lower cut decimal min txid tx info ≡ confirmed height hash n) ↔ (
          (is_txid txid ≡ true)
          × (tip : ℕ) × IsMined txid tx info height hash tip
          × (height ≤ tip)
          × (n ≡ tip - height + 1)
          × (min ≤ n))
  confirmed_iff min txid tx info height hash n = (
    confirmed_sound min txid tx info height hash n,
    λ (valid, tip, m, le, en, deep).
        mined_observed min txid tx info height hash tip valid m le (rw (← en) deep)
        ∙ ap (confirmed height hash) (sym en),
  )
