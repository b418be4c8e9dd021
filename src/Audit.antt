-- ===== src/Audit.antt =====
-- utils/build-audit-accounts.js and the audit events that the other parts send.
use Prim.Native.Char.{code}
use fcp_sfd_object_processor.Common.{
  ◌≡◌, refl, Bool-cases, inl, inr, ℕ, ◌+◌, ◌-◌, ◌*◌, String, Bool, true, false, ◌&&◌, ◌||◌, Option,
  none, some, leb, if◌then◌else◌, decimal, is_empty_text,
}
use fcp_sfd_object_processor.Json.{undefined, Json, num, str, nat, is_nullish, is_the_text, text_of}

abbrev pub crn_min : ℕ
crn_min = 1050000000

abbrev pub crn_max : ℕ
crn_max = 9999999999

abbrev is_digit : ℕ → Bool
is_digit c = leb b'0' c && leb c b'9'

abbrev all_digits : String → Bool
all_digits String.[] = true
all_digits (String.◌∷◌ c s) = is_digit (code c) && all_digits s

-- `/^\d+$/`
abbrev is_digits : String → Bool
is_digits s = if is_empty_text s then false else all_digits s

-- `Number(s)` for a string of digits
number_from : ℕ → String → ℕ
number_from acc String.[] = acc
number_from acc (String.◌∷◌ c s) = number_from (acc * 10 + (code c - b'0')) s

abbrev in_crn_range : ℕ → Bool
in_crn_range n = leb crn_min n && leb n crn_max

-- isValidCrn, with the number that a valid one stands for
pub valid_crn : Json → Option ℕ
unfolding number_from
valid_crn (num (nat n)) = if in_crn_range n then some n else none
valid_crn (str s) =
    if is_digits s
    then (if in_crn_range (number_from 0 s) then some (number_from 0 s) else none)
    else none
valid_crn _ = none

pub record Accounts : Type 0 where
  pub sbi : Option String
  pub crn : Option String

abbrev account_sbi : Json → Option String
account_sbi sbi = if is_nullish sbi || is_the_text sbi "" then none else some (text_of sbi)

abbrev account_crn : Option ℕ → Option String
account_crn none = none
account_crn (some n) = some (decimal n)

abbrev present : Option String → Option String → Option Accounts
present none none = none
present sbi crn = some (record { sbi = sbi; crn = crn })

-- buildAuditAccounts; `none` is the empty object
pub build_audit_accounts : Json → Json → Option Accounts
build_audit_accounts sbi crn = present (account_sbi sbi) (account_crn (valid_crn crn))

-- without a CRN, the accounts name the business alone
pub build_audit_accounts-of_sbi :
    (sbi : Json) (x : Accounts)
    → build_audit_accounts sbi undefined ≡ some x
    → (x.sbi ≡ some (text_of sbi)) × (x.crn ≡ none)
unfolding build_audit_accounts valid_crn
build_audit_accounts-of_sbi sbi x h = elim (Bool-cases (is_nullish sbi || is_the_text sbi "")) [
  | inl t ↦ absurd (cc (rw t at h))
  | inr t ↦
      let e : record { sbi = some (text_of sbi); crn = none } ≡ x = cc (rw t at h) in
      rw (← e) (refl, refl)
]

pub data Action : Type 0 where
  created failed : Action

pub data AuditStatus : Type 0 where
  success failure : AuditStatus

-- the event that is handed to sendAuditEvent
pub record AuditEvent : Type 0 where
  pub correlation_id : String
  pub action : Action
  pub entity_id : Json
  pub accounts : Option Accounts
  pub status : AuditStatus
  pub reason : String
  pub code : Option String
  pub attempts : Option ℕ
