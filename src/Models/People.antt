-- ===== src/Models/People.antt =====
-- Users, invitations and sessions: models/user.py, invitation.py, invitation_organization.py,
-- invitation_channel_access.py and refresh_session.py. An instant is a number of microseconds.
use watesly.Base.{ℕ, String, Option, List, Row}
use watesly.Models.Tenancy.{MembershipRole}
use watesly.Models.Tables.{Database}

pub data UserStatus : Type 0 where
  invited active suspended : UserStatus

pub record User : Type 0 where
  pub id : ℕ
  pub email : String
  pub full_name : String
  pub password_hash : String
  pub preferred_language : String
  pub failed_login_attempts : ℕ
  pub locked_until : Option ℕ
  pub password_changed_at : Option ℕ
  pub status : UserStatus

pub data InvitationStatus : Type 0 where
  pending accepted revoked expired : InvitationStatus

pub record Invitation : Type 0 where
  pub id : ℕ
  pub account_id : ℕ
  pub email : String
  pub role : MembershipRole
  pub invited_by_user_id : ℕ
  pub expires_at : ℕ
  pub status : InvitationStatus
  pub accepted_at : Option ℕ

pub record InvitationOrganization : Type 0 where
  pub invitation_id : ℕ
  pub organization_id : ℕ

pub record InvitationChannelAccess : Type 0 where
  pub invitation_id : ℕ
  pub channel_id : ℕ

pub record RefreshSession : Type 0 where
  pub id : ℕ
  pub user_id : ℕ
  pub revoked_at : Option ℕ

-- The tables of team administration.
pub record Staff : Type 0 where
  pub db : Database
  pub users : List User
  pub invitations : List Invitation
  pub invitation_organizations : List InvitationOrganization
  pub invitation_channels : List InvitationChannelAccess
  pub sessions : List RefreshSession

instance abbrev pub user_row : Row User
user_row = record { key = λ x. x.id }

instance abbrev pub invitation_row : Row Invitation
invitation_row = record { key = λ x. x.id }
