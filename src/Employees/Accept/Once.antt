-- ===== src/Employees/Accept/Once.antt =====
-- What accepting an invitation does, and that it does so once (services/team.py).
use watesly.Base.{
  ℕ, ◌≡◌, refl, sym, ap, ◌∙◌, true, false, some, List, [], ◌∷◌, get, get-put_self, key-get, ok, err,
  invalid_invitation, Returns, ok-Returns, ensure-Returns, bind-Returns, found-Returns,
}
use watesly.Models.{Database, Membership, Staff, Invitation, invitation_row, is_active_membership}
use watesly.Employees.Capacity.{Office, validate_new_member_capacity}
use watesly.Employees.Invite.{NewIds, new_membership, add_member}
use watesly.Employees.Invite.Created.{
  HasRoom, IsAdded, add_member-IsAdded, channels-IsAdded, validate_new_member_capacity-HasRoom,
}
use watesly.Employees.Accept.{
  AcceptInvitationRequest, is_open_invitation, branches_of_invitation, give_channels,
  accepted_at_time, enter, accept_invitation,
}

give_channels-IsAdded :
    (m : Membership) (ids channels : List ℕ) (db : Database)
    → IsAdded m ids db (give_channels m.id channels (add_member m ids db))
give_channels-IsAdded m ids [] db = add_member-IsAdded m ids db
give_channels-IsAdded m ids (c ∷ cs) db = channels-IsAdded m ids (c ∷ cs) db

-- A member that has come by an invitation, and the invitation afterwards.
pub record HasEntered (office : Office) (payload : AcceptInvitationRequest) (s : Staff)
    (out : Membership × Staff) : Type 0 where
  pub invitation : Invitation
  pub token : office.decode_invitation_token payload.token ≡ ok invitation.id
  pub exists : get invitation.id s.invitations ≡ some invitation
  pub was_open : is_open_invitation office.now invitation ≡ true
  pub room : HasRoom office s invitation.account_id invitation.email
  pub same_account : out.0.account_id ≡ invitation.account_id
  pub invited_role : out.0.role ≡ invitation.role
  pub active : is_active_membership out.0.status ≡ true
  pub added :
      IsAdded out.0 (branches_of_invitation invitation.id s.invitation_organizations) s.db out.1.db
  pub now_accepted :
      get invitation.id out.1.invitations ≡ some (accepted_at_time office.now invitation)

module _ (office : Office) (ids : NewIds) (payload : AcceptInvitationRequest) (s : Staff) where
  entered :
      (i : ℕ) (invitation : Invitation) (u : Unit {0})
      → office.decode_invitation_token payload.token ≡ ok i
      → get i s.invitations ≡ some invitation
      → is_open_invitation office.now invitation ≡ true
      → validate_new_member_capacity office s invitation.account_id invitation.email
          (branches_of_invitation invitation.id s.invitation_organizations)
        ≡ ok u
      → HasEntered office payload s (enter office ids payload invitation s)
  unfolding enter new_membership
  entered i invitation u token exists was_open capacity =
      let id : invitation.id ≡ i = key-get i invitation s.invitations exists in
      let here : get invitation.id s.invitations ≡ some invitation =
        ap (λ j. get j s.invitations) id ∙ exists in
      record {
        invitation = invitation;
        token = token ∙ ap (λ j. ok j) (sym id);
        exists = here;
        was_open = was_open;
        room =
            (validate_new_member_capacity-HasRoom office s invitation.account_id invitation.email
                (branches_of_invitation invitation.id s.invitation_organizations)).returned
              u capacity;
        same_account = refl;
        invited_role = refl;
        active = refl;
        added = give_channels-IsAdded _ _ _ s.db;
        now_accepted =
            get-put_self (accepted_at_time office.now invitation) invitation s.invitations here;
      }

  enter-Returns :
      (i : ℕ) (invitation : Invitation) (u : Unit {0})
      → office.decode_invitation_token payload.token ≡ ok i
      → get i s.invitations ≡ some invitation
      → is_open_invitation office.now invitation ≡ true
      → validate_new_member_capacity office s invitation.account_id invitation.email
          (branches_of_invitation invitation.id s.invitation_organizations)
        ≡ ok u
      → Returns (HasEntered office payload s) (ok (enter office ids payload invitation s))
  enter-Returns i invitation u token exists was_open capacity =
      ok-Returns _ _ (entered i invitation u token exists was_open capacity)

  pub accept_invitation-HasEntered :
      Returns (HasEntered office payload s) (accept_invitation office ids payload s)
  unfolding accept_invitation
  accept_invitation-HasEntered =
      search (bind-Returns, found-Returns, ensure-Returns, enter-Returns) depth 20

closed :
    (office : Office) (ids : NewIds) (payload : AcceptInvitationRequest) (s : Staff) (i : ℕ)
    (invitation : Invitation)
    → office.decode_invitation_token payload.token ≡ ok i
    → get i s.invitations ≡ some invitation
    → is_open_invitation office.now invitation ≡ false
    → accept_invitation office ids payload s ≡ err invalid_invitation
unfolding accept_invitation
closed office ids payload s i invitation token exists not_open = rw (token, exists, not_open) refl

-- An invitation lets one person in: once it has been accepted, accepting it again is refused as
-- invalid, at any time and by any request whose token names the same invitation.
pub accept_invitation-once :
    (office later : Office) (ids next_ids : NewIds) (payload again : AcceptInvitationRequest)
    (s : Staff) (i : ℕ) (out : Membership × Staff)
    → accept_invitation office ids payload s ≡ ok out
    → office.decode_invitation_token payload.token ≡ ok i
    → later.decode_invitation_token again.token ≡ ok i
    → accept_invitation later next_ids again out.1 ≡ err invalid_invitation
accept_invitation-once office later ids next_ids payload again s i out h token token_again =
    let k = (accept_invitation-HasEntered office ids payload s).returned out h in
    closed later next_ids again out.1 k.invitation.id (accepted_at_time office.now k.invitation)
      (token_again ∙ sym token ∙ k.token) k.now_accepted refl
