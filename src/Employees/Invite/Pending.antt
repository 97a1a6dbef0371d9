-- ===== src/Employees/Invite/Pending.antt =====
-- The invitations of an address after `create_invitation` (services/team.py).
use watesly.Base.{
  ℕ, String, ◌≡◌, refl, Bool, true, false, ◌&&◌, none, List, [], ◌∷◌, ◌++◌, count_where, map, ok,
  Returns, ok-Returns, ensure-Returns, bind-Returns, ◌==◌, leb, if◌then◌else◌, same_text,
}
use watesly.Models.{
  Membership, Staff, Invitation, InvitationStatus, InvitationOrganization, InvitationChannelAccess,
}
use watesly.Access.{list_membership_organization_ids}
use watesly.Employees.{assert_actor_can_manage_target}
use watesly.Employees.Capacity.{Office}
use watesly.Employees.Invite.{
  InviteEmployeeRequest, is_pending, retire_invitations, new_invitation, create_invitation,
}

abbrev pub is_pending_for : ℕ → String → Invitation → Bool
is_pending_for account_id email i =
    i.account_id == account_id && same_text i.email email && is_pending i.status

-- What becomes of an invitation when its address is invited anew: one that is pending is expired or
-- revoked, by its date, and any other one stays as it is.
abbrev pub Retired : ℕ → ℕ → String → Invitation → Invitation → Type 0
Retired now account_id email before after =
    (is_pending_for account_id email before ≡ false → after ≡ before)
    × (is_pending_for account_id email before ≡ true
        → (after.id ≡ before.id)
          × (leb before.expires_at now ≡ true → after.status ≡ InvitationStatus.expired)
          × (leb before.expires_at now ≡ false → after.status ≡ InvitationStatus.revoked))

abbrev retired : ℕ → ℕ → String → Invitation → Invitation
retired now account_id email i =
    if is_pending_for account_id email i
    then record i {
      status = if leb i.expires_at now then InvitationStatus.expired else InvitationStatus.revoked;
    }
    else i

-- The invitations of a table after an address was invited anew.
pub record Renewed (now account_id : ℕ) (email : String) (new : Invitation)
    (before after : List Invitation) : Type 0 where
  pub change : Invitation → Invitation
  pub each : (i : Invitation) → Retired now account_id email i (change i)
  pub rows : after ≡ map change before ++ (new ∷ [])
  pub pending : is_pending_for account_id email new ≡ true
  pub only : count_where (is_pending_for account_id email) after ≡ 1

-- What a created invitation is, and the invitations afterwards.
pub record IsInvited (office : Office) (account_id invited_by new_id : ℕ) (actor : Membership)
    (payload : InviteEmployeeRequest) (s : Staff) (out : Invitation × Staff) : Type 0 where
  pub allowed :
      assert_actor_can_manage_target actor.role
        (list_membership_organization_ids s.db actor.id)
        payload.role
        payload.organization_ids
        none
      ≡ ok tt
  pub invitation : out.0 ≡ new_invitation office account_id invited_by new_id payload
  pub invitations :
      out.1.invitations
      ≡ retire_invitations office.now account_id payload.email s.invitations ++ (out.0 ∷ [])
  pub same_members : out.1.db ≡ s.db

module _ (office : Office) (account_id invited_by new_id : ℕ) (actor : Membership)
    (payload : InviteEmployeeRequest) (s : Staff) where
  invited :
      (u : Unit {0}) (branches : List InvitationOrganization)
      (channels : List InvitationChannelAccess)
      → assert_actor_can_manage_target actor.role
          (list_membership_organization_ids s.db actor.id)
          payload.role
          payload.organization_ids
          none
        ≡ ok u
      → IsInvited office account_id invited_by new_id actor payload s (
        new_invitation office account_id invited_by new_id payload,
        record s {
          invitations =
              retire_invitations office.now account_id payload.email s.invitations
              ++ (new_invitation office account_id invited_by new_id payload ∷ []);
          invitation_organizations = branches;
          invitation_channels = channels;
        },
      )
  invited u branches channels allowed = record {
    allowed = allowed;
    invitation = refl;
    invitations = refl;
    same_members = refl;
  }

  pub create_invitation-IsInvited :
      Returns
        (IsInvited office account_id invited_by new_id actor payload s)
        (create_invitation office account_id invited_by new_id actor payload s)
  unfolding create_invitation
  create_invitation-IsInvited = search (bind-Returns, ensure-Returns, ok-Returns, invited) depth 20
