-- ===== src/Partners/Laws.antt =====
-- A partner invitation makes one OAuth client (src/database.ts).
use mathlib.Core.Option
use perk_os_nayori_platform.Prelude.{
  ℕ, String, ◌≡◌, refl, sym, ap, ◌∙◌, inl, inr, Bool, true, false, Option, none, some, List, arith,
  ◌==◌, eq_iff, eq_refl, Option-cases, any, ok,
}
use perk_os_nayori_platform.Prelude.Table.{lookup, update, lookup-update, lookup_key, lookup_of_any}
use perk_os_nayori_platform.Ledger.{is_found}
use perk_os_nayori_platform.Partners.{
  MerchantRow, PartnerInvitationRecord, InvitationRow, ChallengeRow, ClientRow, OauthClientRecord,
  PartnerTables, merchant_key, invitation_key, challenge_key, is_active, is_usable,
  invitation_clash, provision_merchant, insert_partner_invitation, insert_wallet_auth_challenge,
  record_oauth_token_issued, find_active_oauth_client,
}
use perk_os_nayori_platform.Partners.Consuming.{
  Joined, Consumption, new_client, used_invitation, consumed, consume_joined, usable_challenge,
  consume_challenge_and_create_oauth_client,
}
use perk_os_nayori_platform.Partners.Reach.{
  Step, provision, invite, challenge, consume, token, Reach, here, then,
}

-- The challenge, its invitation and its merchant are in the tables and can be used.
pub record IsUsable (id : String) (now : ℕ) (t : PartnerTables) (j : Joined) : Type 0 where
  pub found : lookup challenge_key id t.challenges ≡ some j.challenge
  pub invited : lookup invitation_key j.challenge.invitation_id t.invitations ≡ some j.invitation
  pub merchant : MerchantRow
  pub known : lookup merchant_key j.challenge.merchant_id t.merchants ≡ some merchant
  pub merchant_active : is_active merchant.status ≡ true
  pub challenge_usable : is_usable j.challenge.used_at j.challenge.expires_at now ≡ true
  pub invitation_usable : is_usable j.invitation.used_at j.invitation.expires_at now ≡ true

pub usable_challenge-IsUsable :
    (id : String) (now : ℕ) (t : PartnerTables) (j : Joined)
    → usable_challenge id now t ≡ some j
    → IsUsable id now t j
unfolding usable_challenge
usable_challenge-IsUsable id now t j h =
    elim (Option-cases (lookup challenge_key id t.challenges)) [
      | inl absent ↦ ground arith
      | inr (c, found) ↦ elim (Option-cases (lookup invitation_key c.invitation_id t.invitations)) [
        | inl absent ↦ ground arith
        | inr (i, invited) ↦ elim (Option-cases (lookup merchant_key c.merchant_id t.merchants)) [
          | inl absent ↦ ground arith
          | inr (m, known) ↦
              let joined : record { challenge = c; invitation = i } ≡ j = ground arith in
              let of_c : j.challenge ≡ c = ap (λ (x : Joined). x.challenge) (sym joined) in
              let of_i : j.invitation ≡ i = ap (λ (x : Joined). x.invitation) (sym joined) in
              record {
                found = found ∙ ap some (sym of_c);
                invited = rw (of_c, of_i) invited;
                merchant = m;
                known = rw of_c known;
                merchant_active = ground arith;
                challenge_usable = rw of_c (ground arith);
                invitation_usable = rw of_i (ground arith);
              }
        ]
      ]
    ]

abbrev spent_row : Option InvitationRow → Bool
spent_row none = false
spent_row (some i) = is_found i.used_at

-- The invitation is there and has been used.
abbrev pub spent : String → PartnerTables → Bool
spent id t = spent_row (lookup invitation_key id t.invitations)

spent-invite :
    (i : String) (new : PartnerInvitationRecord) (token_digest : String) (t t' : PartnerTables)
    → insert_partner_invitation new token_digest t ≡ ok (tt, t')
    → spent i t ≡ true
    → spent i t' ≡ true
unfolding insert_partner_invitation lookup
spent-invite i new token_digest t t' h s =
    elim (Option-cases (lookup invitation_key i t.invitations)) [
      | inl absent ↦ ground arith
      | inr (r, found) ↦
          let key : r.invitation_id ≡ i = lookup_key invitation_key i t.invitations r found in
          let fresh : any (invitation_clash new.invitation_id token_digest) t.invitations ≡ false =
            ground arith in
          let other : invitation_clash new.invitation_id token_digest r ≡ false =
            lookup_of_any invitation_key (invitation_clash new.invitation_id token_digest) i
              t.invitations r fresh found in
          ground (arith, eq_iff new.invitation_id i, eq_iff r.invitation_id new.invitation_id)
    ]

spent-used :
    (i k : String) (at : ℕ) (t : List InvitationRow)
    → spent_row (lookup invitation_key i t) ≡ true
    → spent_row
        (lookup invitation_key i (update (λ x. x.invitation_id == k) (used_invitation at) t))
      ≡ true
spent-used i k at t s =
    let moved =
      lookup-update invitation_key (λ x. x.invitation_id == k) (used_invitation at) i t
        (λ r. refl) in
    rw moved (elim (Option-cases (lookup invitation_key i t)) [
      | inl absent ↦ ground arith
      | inr (r, found) ↦ rw found (ground arith)
    ])

-- A used invitation stays used.
spent-Step : (i : String) (t t' : PartnerTables) → Step t t' → spent i t ≡ true → spent i t' ≡ true
unfolding provision_merchant insert_wallet_auth_challenge record_oauth_token_issued
    consume_challenge_and_create_oauth_client
spent-Step i t t' (provision new h) s = ground arith
spent-Step i t t' (invite new token_digest h) s = spent-invite i new token_digest t t' h s
spent-Step i t t' (challenge new h) s = ground arith
spent-Step i t t' (token id issued_at h) s = ground arith
spent-Step i t t' (consume input result h) s =
    elim (Option-cases (usable_challenge input.challenge_id input.used_at t)) [
      | inl absent ↦ ground arith
      | inr (j, usable) ↦
          let e : consumed input j t ≡ t' = ground arith in
          rw (sym e) (spent-used i j.challenge.invitation_id input.used_at t.invitations s)
    ]

spent-Reach :
    (i : String) (t t' : PartnerTables) → Reach t t' → spent i t ≡ true → spent i t' ≡ true
spent-Reach i t t' here s = s
spent-Reach i t t' (then {t' = u} r step) s = spent-Step i u t' step (spent-Reach i t u r s)

-- A successful consumption found the challenge usable.
consume-usable :
    (input : Consumption) (client : OauthClientRecord) (t t' : PartnerTables)
    → consume_challenge_and_create_oauth_client input t ≡ ok (some client, t')
    → (j : Joined) × (usable_challenge input.challenge_id input.used_at t ≡ some j)
      × (client ≡ new_client input j)
      × (t' ≡ consumed input j t)
      × (any (λ (c : ClientRow). c.client_id == input.client_id) t.clients ≡ false)
unfolding consume_challenge_and_create_oauth_client
consume-usable input client t t' h =
    elim (Option-cases (usable_challenge input.challenge_id input.used_at t)) [
      | inl absent ↦ ground arith
      | inr (j, usable) ↦ (j, usable, ground arith, ground arith, ground arith)
    ]

consumed-spent :
    (input : Consumption) (j : Joined) (t : PartnerTables)
    → IsUsable input.challenge_id input.used_at t j
    → spent j.challenge.invitation_id (consumed input j t) ≡ true
consumed-spent input j t u =
    let i = j.challenge.invitation_id in
    let moved =
      lookup-update invitation_key (λ x. x.invitation_id == i) (used_invitation input.used_at) i
        t.invitations (λ r. refl) in
    let key = lookup_key invitation_key i t.invitations j.invitation u.invited in
    rw (moved, u.invited) (ground (arith, eq_iff j.invitation.invitation_id i))

-- The invitation that a challenge was made for.
abbrev pub invitation_of : String → PartnerTables → Option String
invitation_of id t =
    Option.map (λ (c : ChallengeRow). c.invitation_id) (lookup challenge_key id t.challenges)

spent_unusable :
    (i : String) (input : Consumption) (t : PartnerTables)
    → invitation_of input.challenge_id t ≡ some i
    → spent i t ≡ true
    → usable_challenge input.challenge_id input.used_at t ≡ none
spent_unusable i input t of_i s =
    elim (Option-cases (usable_challenge input.challenge_id input.used_at t)) [
      | inl absent ↦ absent
      | inr (j, usable) ↦
          let u = usable_challenge-IsUsable input.challenge_id input.used_at t j usable in
          let found = u.found in
          let invited = u.invited in
          let open_ = u.invitation_usable in
          let same : j.challenge.invitation_id ≡ i = ground arith in
          let there : lookup invitation_key i t.invitations ≡ some j.invitation =
            rw (sym same) invited in
          ground arith
    ]

-- Once a challenge of an invitation has made an OAuth client, then after any further statements and
-- transactions of the store no challenge of that invitation, the same or another, makes a client:
-- the call answers `null` and changes nothing.
pub invitation_used_once :
    (i : String) (first second : Consumption) (client : OauthClientRecord)
    (t t' t'' : PartnerTables)
    → consume_challenge_and_create_oauth_client first t ≡ ok (some client, t')
    → invitation_of first.challenge_id t ≡ some i
    → Reach t' t''
    → invitation_of second.challenge_id t'' ≡ some i
    → consume_challenge_and_create_oauth_client second t'' ≡ ok (none, t'')
unfolding consume_challenge_and_create_oauth_client
invitation_used_once i first second client t t' t'' h of_first r of_second =
    let (j, usable, made, moved, fresh) = consume-usable first client t t' h in
    let u = usable_challenge-IsUsable first.challenge_id first.used_at t j usable in
    let found = u.found in
    let same : j.challenge.invitation_id ≡ i = ground arith in
    let spent_now : spent i t' ≡ true = rw (moved, sym same) (consumed-spent first j t u) in
    rw (spent_unusable i second t'' of_second (spent-Reach i t' t'' r spent_now), consume_joined)
      refl

-- A client is made only from a challenge that is neither used nor expired, of an invitation that is
-- neither used nor expired, for a merchant that is active; it has the challenge's merchant and
-- wallet, the given secret digest and the invitation's scopes, and is found as an active client
-- from then on.
pub consume_sound :
    (input : Consumption) (client : OauthClientRecord) (t t' : PartnerTables)
    → consume_challenge_and_create_oauth_client input t ≡ ok (some client, t')
    → (j : Joined) × IsUsable input.challenge_id input.used_at t j
      × (client ≡ new_client input j)
      × (find_active_oauth_client input.client_id t' ≡ some client)
unfolding find_active_oauth_client lookup
consume_sound input client t t' h =
    let (j, usable, made, moved, fresh) = consume-usable input client t t' h in
    (
      j,
      usable_challenge-IsUsable input.challenge_id input.used_at t j usable,
      made,
      rw moved (rw (sym made) (ground (arith, eq_refl input.client_id))),
    )
