-- ===== src/Models/Assignment.antt =====
-- Teams and assignment rules: models/team.py, team_member.py and assignment_rule.py.
use watesly.Base.{ℕ, String, Bool, Option}

pub record Team : Type 0 where
  pub id : ℕ
  pub account_id : ℕ
  pub organization_id : ℕ
  pub name : String
  pub description : Option String

pub record TeamMember : Type 0 where
  pub team_id : ℕ
  pub membership_id : ℕ

pub data AssignmentStrategy : Type 0 where
  round_robin least_open : AssignmentStrategy

pub record AssignmentRule : Type 0 where
  pub id : ℕ
  pub account_id : ℕ
  pub organization_id : ℕ
  pub channel_id : Option ℕ
  pub team_id : ℕ
  pub name : String
  pub strategy : AssignmentStrategy
  pub priority : ℕ
  pub is_active : Bool
  pub created_at : ℕ
  pub last_assigned_membership_id : Option ℕ
