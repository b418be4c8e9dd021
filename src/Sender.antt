-- ===== src/Sender.antt =====
-- messaging/outbound/audit/send-audit-event.js: the address that an audit event is sent with, and
-- what becomes of an event that cannot be sent. The audit library is the parameter `publish`, the
-- operating system's list of network interfaces is `interfaces`.
pub mod Laws
use Prim.Native.String.{String}
use fcp_sfd_object_processor.Common.{
  ℕ, suc, Bool, true, false, not, ◌&&◌, ◌||◌, Option, none, some, List, text_length, is_empty_text,
  until, occurrences, trim, leb, ltb, ◌==◌, if◌then◌else◌, str_eq, find, flat_map, Result, ok, err,
}
use fcp_sfd_object_processor.Json.{
  Json, undefined, obj, str, Fields, get, is_text, text_of, remove_field, same,
}
use fcp_sfd_object_processor.Masking.{mask_crn_in_text}

abbrev pub max_ip_length : ℕ
max_ip_length = 20

abbrev pub comma : ℕ
comma = 44

abbrev percent : ℕ
percent = 37

abbrev colon : ℕ
colon = 58

abbrev pub without_port : String → String
without_port ip = if occurrences colon ip == 1 then until colon ip else ip

abbrev pub without_zone : String → String
without_zone raw = until percent (trim (until comma raw))

abbrev pub if_short : String → String
if_short ip = if text_length ip == 0 || ltb max_ip_length (text_length ip) then "" else ip

-- sanitiseIp
unfoldable pub sanitise_ip : Json → String
sanitise_ip (str raw) = if is_empty_text raw then "" else if_short (without_port (without_zone raw))
sanitise_ip raw = ""

-- an entry of `os.networkInterfaces()`
pub record Address : Type 0 where
  pub family : String
  pub internal : Bool
  pub address : String

abbrev pub is_external : Address → Bool
is_external a = str_eq a.family "IPv4" && not a.internal

abbrev pub or_nothing : Option (List Address) → List Address
or_nothing none = List.[]
or_nothing (some addresses) = addresses

-- the address of the interfaces, or the loopback where there is none, or where they cannot be read
abbrev pub resolve_ip : Result (List (Option (List Address))) → String
resolve_ip (err f) = "127.0.0.1"
resolve_ip (ok interfaces) = elim (find is_external (flat_map or_nothing interfaces)) [
  | none ↦ "127.0.0.1"
  | some a ↦ a.address
]

-- getServiceIp: the address, and `cachedServiceIp` afterwards
unfoldable pub get_service_ip :
    Result (List (Option (List Address))) → Option String → String × Option String
get_service_ip interfaces none = (resolve_ip interfaces, some (resolve_ip interfaces))
get_service_ip interfaces (some ip) =
    if is_empty_text ip
    then (resolve_ip interfaces, some (resolve_ip interfaces))
    else (ip, some ip)

-- extractIp
unfoldable pub extract_ip :
    Result (List (Option (List Address))) → Json → Option String → String × Option String
extract_ip interfaces request cache =
    let forwarded = sanitise_ip (get (get request "headers") "x-forwarded-for") in
    let remote = sanitise_ip (get (get request "info") "remoteAddress") in
    if not (is_empty_text forwarded)
    then (forwarded, cache)
    else if not (is_empty_text remote)
    then (remote, cache)
    else get_service_ip interfaces cache

-- the event without the key of an undefined correlation id
abbrev pub sanitised_event : Fields → Fields
sanitised_event event =
    if same (get (obj event) "correlationid") undefined
    then remove_field "correlationid" event
    else event

-- the text of what was thrown
abbrev pub error_message : Json → Json
error_message thrown =
    if is_text (get thrown "message") then get thrown "message" else str (text_of thrown)

pub record SenderEnv : Type 0 where
  pub interfaces : Result (List (Option (List Address)))
  -- what publishing an event from an address throws
  pub publish : Fields → String → Option Json

-- The event and the address that are published, the reason that is logged, and the cached address.
pub record Sent : Type 0 where
  pub event : Fields
  pub ip : String
  pub logged : Option Json
  pub cache : Option String

abbrev pub logged_reason : Fields → Option Json → Option Json
logged_reason event none = none
logged_reason event (some thrown) =
    some (
      mask_crn_in_text (error_message thrown)
        (get (get (get (obj event) "audit") "accounts") "crn"))

-- sendAuditEvent
unfoldable pub send_audit_event : SenderEnv → Fields → Json → Option String → Sent
send_audit_event env event request cache =
    let (ip, cache') = extract_ip env.interfaces request cache in
    record {
      event = sanitised_event event;
      ip = ip;
      logged = logged_reason (sanitised_event event) (env.publish (sanitised_event event) ip);
      cache = cache';
    }
