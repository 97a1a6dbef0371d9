-- ===== src/Base/Session.antt =====
-- What a service function returns, and how it acts on a state. `ValueError(code)` is `err`; since
-- the request's session is closed without a commit when an error leaves the function, an error
-- carries no state.
use mathlib.Core.Path.{◌≡◌, refl}
use mathlib.Core.Logic.{◌⊎◌, inl, inr}
use mathlib.Core.Bool.{Bool, true, false}
use mathlib.Core.Option.{Option, none, some}
use native.Mathlib.Omega.{arith}
use watesly.Base.Tests.{if◌then◌else◌}

-- The codes of the `ValueError`s that the modelled services raise.
pub data Error : Type 0 where
  invalid_permission permission_exceeds_role permission_not_assignable : Error
  access_forbidden organization_suspended conversation_forbidden : Error
  invalid_whatsapp_account organization_mismatch : Error
  invalid_template template_account_mismatch template_not_approved : Error
  duplicate_recipient invalid_recipient recipient_channel_mismatch : Error
  all_recipients_opted_out all_recipients_unreachable all_recipients_previously_sent : Error
  campaign_not_found campaign_cannot_be_approved recipient_limit_exceeded : Error
  campaign_cannot_start campaign_approval_required quality_red tier_limit_exceeded : Error
  campaign_cannot_pause campaign_cannot_cancel campaign_cannot_archive : Error
  campaign_not_archived campaign_cannot_delete campaign_has_follow_ups : Error
  campaign_cannot_retry no_failed_recipients : Error
  invalid_membership member_out_of_branch invalid_organization : Error
  team_not_found invalid_team rule_not_found invalid_channel : Error
  handler_already_registered no_handler_registered db_session_required : Error
  idempotency_key_reused idempotent_command_in_progress : Error
  handler_failed : Error
  forbidden out_of_scope organization_required employee_not_found : Error
  no_active_subscription user_limit_reached org_user_limit_reached : Error
  already_member email_already_registered invalid_invitation : Error
  cannot_suspend_self last_owner : Error
  invalid_sender integrity_conflict : Error

pub data Result {ℓ} (A : Type ℓ) : Type ℓ where
  ok : A → Result A
  err : Error → Result A

-- A service function over a state.
abbrev pub Action : Type 0 → Type 0 → Type 0
Action S A = S → Result (A × S)

infixl 5 ◌>>=◌ ◌>>◌
abbrev pub ◌>>=◌ : {S A B : Type 0} → Action S A → (A → Action S B) → Action S B
◌>>=◌ m f s = elim (m s) [ ok (a, s') ↦ f a s' | err e ↦ err e ]

abbrev pub ◌>>◌ : {S B : Type 0} → Action S (Unit {0}) → Action S B → Action S B
m >> k = m >>= λ _. k

module _ {S A : Type 0} where
  abbrev pub pure : A → Action S A
  pure a s = ok (a, s)

  abbrev pub reads : (S → A) → Action S A
  reads f s = ok (f s, s)

  -- A read-only check.
  abbrev pub query : (S → Result A) → Action S A
  query f s = elim (f s) [ ok a ↦ ok (a, s) | err e ↦ err e ]

  -- The row that a query finds, or an error.
  abbrev pub or_raise : Option A → Error → Action S A
  or_raise none e s = err e
  or_raise (some a) e s = ok (a, s)

abbrev pub raise_if : {S : Type 0} → Bool → Error → Action S (Unit {0})
raise_if c e s = if c then err e else ok (tt, s)

abbrev pub modify : {S : Type 0} → (S → S) → Action S (Unit {0})
modify f s = ok (tt, f s)

-- The same chain with no state: checks that only read.
abbrev pub ensure : {A : Type 0} → Bool → Error → Result A → Result A
ensure c e k = if c then k else err e

abbrev pub bind {ℓ κ} : {A : Type ℓ} {B : Type κ} → Result A → (A → Result B) → Result B
bind (ok a) f = f a
bind (err e) f = err e

abbrev pub found {ℓ κ} : {A : Type ℓ} {B : Type κ} → Option A → Error → (A → Result B) → Result B
found none e f = err e
found (some a) e f = f a

pub Result-cases {ℓ} :
    {A : Type ℓ} (r : Result A) → ((a : A) × (r ≡ ok a)) ⊎ ((e : Error) × (r ≡ err e))
Result-cases (ok a) = inl (a, refl)
Result-cases (err e) = inr (e, refl)

-- A chain that returns has passed its first step.
pub bind-ok {ℓ κ} :
    {A : Type ℓ} {B : Type κ} (r : Result A) (f : A → Result B) (b : B)
    → bind r f ≡ ok b
    → (a : A) × (r ≡ ok a) × (f a ≡ ok b)
bind-ok (ok a) f b h = (a, refl, h)
bind-ok (err e) f b h = cc

pub found-ok {ℓ κ} :
    {A : Type ℓ} {B : Type κ} (o : Option A) (e : Error) (f : A → Result B) (b : B)
    → found o e f ≡ ok b
    → (a : A) × (o ≡ some a) × (f a ≡ ok b)
found-ok none e f b h = cc
found-ok (some a) e f b h = (a, refl, h)

pub ensure-ok :
    {A : Type 0} (c : Bool) (e : Error) (k : Result A) (a : A)
    → ensure c e k ≡ ok a
    → (c ≡ true) × (k ≡ ok a)
ensure-ok true e k a h = (refl, h)
ensure-ok false e k a h = cc

-- An action that reads through a check and returns has passed the check.
pub query-ok :
    {S A B : Type 0} (f : S → Result A) (k : A → Action S B) (s s' : S) (b : B)
    → (query f >>= k) s ≡ ok (b, s')
    → (a : A) × (f s ≡ ok a) × (k a s ≡ ok (b, s'))
query-ok f k s s' b h = elim (Result-cases (f s)) [
  | inl (a, e) ↦ (a, e, ground (arith, e))
  | inr (x, e) ↦ absurd (ground (arith, e))
]
