-- ===== src/Partners/Refinement.antt =====
-- What the partner tables promise of invitations, whatever else they hold (src/database.ts): a machine
-- that knows of each invitation only whether it is absent, open or spent, and how many clients there
-- are.
use perk_os_nayori_platform.Prelude.{
  ℕ, suc, ◌+◌, String, ◌≡◌, refl, sym, ap, inl, inr, Bool, false, ◌&&◌, Option, none, some, List,
  [], ◌∷◌, arith, ◌==◌, eq_iff, if◌then◌else◌, Option-cases, length, any, ok,
}
use perk_os_nayori_platform.Prelude.Table.{lookup, update, lookup-update, lookup_key, lookup_of_any}
use perk_os_nayori_platform.Ledger.{is_found}
use perk_os_nayori_platform.Partners.{
  InvitationRow, OauthClientRecord, ClientRow, PartnerTables, invitation_key, invitation_clash,
  provision_merchant, insert_partner_invitation, insert_wallet_auth_challenge,
  record_oauth_token_issued, is_active,
}
use perk_os_nayori_platform.Partners.Consuming.{
  Consumption, used_invitation, consumed, usable_challenge,
  consume_challenge_and_create_oauth_client,
}
use perk_os_nayori_platform.Partners.Reach.{Step, provision, invite, challenge, consume, token}
use perk_os_nayori_platform.Partners.Laws.{usable_challenge-IsUsable}

pub data Phase : Type 0 where
  absent open_ spent : Phase

-- The abstract state.
pub record Invitations : Type 0 where
  pub phase : String → Phase
  pub clients : ℕ

-- An abstract step does nothing, opens an invitation that was absent, or spends one that was open for
-- one more client.
pub data Move (a a' : Invitations) : Type 0 where
  idle : ((j : String) → a'.phase j ≡ a.phase j) → a'.clients ≡ a.clients → Move a a'
  opens :
      (i : String)
      → a.phase i ≡ absent
      → ((j : String) → a'.phase j ≡ (if i == j then open_ else a.phase j))
      → a'.clients ≡ a.clients
      → Move a a'
  spends :
      (i : String)
      → a.phase i ≡ open_
      → ((j : String) → a'.phase j ≡ (if i == j then spent else a.phase j))
      → a'.clients ≡ a.clients + 1
      → Move a a'

abbrev phase_of_row : Option InvitationRow → Phase
phase_of_row none = absent
phase_of_row (some i) = if is_found i.used_at then spent else open_

abbrev pub phase_of : List InvitationRow → String → Phase
phase_of t i = phase_of_row (lookup invitation_key i t)

-- What the tables say of the invitations.
unfoldable pub view : PartnerTables → Invitations
view t = record { phase = phase_of t.invitations; clients = length t.clients }

length-update :
    {Row : Type 0} (p : Row → Bool) (f : Row → Row) (t : List Row)
    → length (update p f t) ≡ length t
unfolding update
length-update p f [] = refl
length-update p f (r ∷ t) = ap suc (length-update p f t)

fresh_absent :
    (id token_digest : String) (t : List InvitationRow)
    → any (invitation_clash id token_digest) t ≡ false
    → phase_of t id ≡ absent
fresh_absent id token_digest t h = elim (Option-cases (lookup invitation_key id t)) [
  | inl none_ ↦ ground arith
  | inr (r, found) ↦
      let key = lookup_key invitation_key id t r found in
      let other = lookup_of_any invitation_key (invitation_clash id token_digest) id t r h found in
      ground (arith, eq_iff r.invitation_id id)
]

phase-used :
    (i j : String) (at : ℕ) (t : List InvitationRow) (r : InvitationRow)
    → lookup invitation_key i t ≡ some r
    → phase_of (update (λ x. x.invitation_id == i) (used_invitation at) t) j
      ≡ (if i == j then spent else phase_of t j)
phase-used i j at t r held =
    let moved =
      lookup-update invitation_key (λ x. x.invitation_id == i) (used_invitation at) j t
        (λ x. refl) in
    rw moved (elim (Option-cases (lookup invitation_key j t)) [
      | inl none_ ↦ ground (arith, eq_iff i j)
      | inr (x, found) ↦
          let key = lookup_key invitation_key j t x found in
          ground (arith, eq_iff i j, eq_iff x.invitation_id i)
    ])

consume-Move :
    (input : Consumption) (result : Option OauthClientRecord) (t t' : PartnerTables)
    → consume_challenge_and_create_oauth_client input t ≡ ok (result, t')
    → Move (view t) (view t')
unfolding consume_challenge_and_create_oauth_client view
consume-Move input result t t' h =
    elim (Option-cases (usable_challenge input.challenge_id input.used_at t)) [
      | inl none_ ↦ let e : t ≡ t' = ground arith in rw (sym e) (idle (λ j. refl) refl)
      | inr (j, usable) ↦
          let e : consumed input j t ≡ t' = ground arith in
          let u = usable_challenge-IsUsable input.challenge_id input.used_at t j usable in
          let i = j.challenge.invitation_id in
          let there = u.invited in
          let fit = u.invitation_usable in
          rw (sym e) (
            spends i (ground arith)
              (λ k. phase-used i k input.used_at t.invitations j.invitation there) (omega arith))
    ]

-- Every statement and transaction of the partner store is a step of the abstract machine: it leaves
-- the invitations as they are, opens one that was absent, or spends exactly one that was open and
-- makes exactly one client; no other step makes a client, and none opens a spent invitation again.
pub Step-Move : (t t' : PartnerTables) → Step t t' → Move (view t) (view t')
unfolding view provision_merchant insert_partner_invitation insert_wallet_auth_challenge
    record_oauth_token_issued lookup
Step-Move t t' (provision new h) = ground arith
Step-Move t t' (challenge new h) = ground arith
Step-Move t t' (consume input result h) = consume-Move input result t t' h
Step-Move t t' (token id issued_at h) =
    let n =
      length-update (λ (c : ClientRow). c.client_id == id && is_active c.status)
        (λ (c : ClientRow). record c { last_token_at = some issued_at }) t.clients in
    rw (sym h) (idle (λ j. refl) n)
Step-Move t t' (invite new token_digest h) =
    let fresh : any (invitation_clash new.invitation_id token_digest) t.invitations ≡ false =
      ground arith in
    let row : InvitationRow = record {
      invitation = new;
      token_digest = token_digest;
      used_at = none;
    } in
    let e : record t { invitations = row ∷ t.invitations } ≡ t' = ground arith in
    rw (sym e) (
      opens new.invitation_id (fresh_absent new.invitation_id token_digest t.invitations fresh)
        (λ j. ground (arith, eq_iff new.invitation_id j)) refl)
