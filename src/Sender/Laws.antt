-- ===== src/Sender/Laws.antt =====
-- The addresses that audit events are sent with.

use Prim.Native.String.{String, [], ◌∷◌}
use fcp_sfd_object_processor.Common.{
  ◌≤◌, ◌<◌, ◌≡◌, refl, ◌⊎◌, inl, inr, false, ◌||◌, Option, none, some, List, arith, text_length,
  is_empty_text, until, occurrences, occurrences-until, occurrences-until_le, occurrences-trim,
  trim, ltb, ◌==◌, find, flat_map, find-In, All-In, All, Result, ok, err, Bool-cases, Option-cases,
}
use fcp_sfd_object_processor.Json.{
  Json, undefined, str, obj, Fields, get, has_field, remove_field-absent, same,
}
use fcp_sfd_object_processor.Sender.{
  max_ip_length, comma, percent, colon, without_port, without_zone, if_short, sanitise_ip, Address,
  is_external, or_nothing, resolve_ip, get_service_ip, extract_ip, sanitised_event, SenderEnv, Sent,
  send_audit_event,
}

-- What the audit schema asks of an address: it is there, is short, and is no list.
abbrev pub IsIp : String → Type 0
IsIp ip = (0 < text_length ip) × (text_length ip ≤ max_ip_length) × (occurrences comma ip ≡ 0)

-- What is known of the addresses of the operating system: an external one is an IPv4 address.
abbrev pub AreIps : Result (List (Option (List Address))) → Type 0
AreIps (err f) = Unit
AreIps (ok is) = All (λ a. (is_external a ≡ false) ⊎ IsIp a.address) (flat_map or_nothing is)

abbrev pub IsCache : Option String → Type 0
IsCache none = Unit
IsCache (some ip) = IsIp ip

-- an undefined correlation id is no key of a published event
abbrev pub IsKeyed : Fields → Type 0
IsKeyed event =
    (has_field "correlationid" event ≡ false)
    ⊎ (same (get (obj event) "correlationid") undefined ≡ false)

nonempty_length : (s : String) → is_empty_text s ≡ false → 0 < text_length s
nonempty_length [] h = absurd (cc h)
nonempty_length (c ∷ s) h = omega arith

if_short-IsIp :
    (ip : String)
    → occurrences comma ip ≡ 0
    → is_empty_text (if_short ip) ≡ false
    → IsIp (if_short ip)
if_short-IsIp ip n h =
    elim (Bool-cases (text_length ip == 0 || ltb max_ip_length (text_length ip))) [
      | inl t ↦ absurd (cc (rw (if_short, t) at h))
      | inr t ↦ rw (if_short, t) (ground (arith, t), ground (arith, t), n)
    ]

without_port-comma :
    (ip : String) → occurrences comma ip ≡ 0 → occurrences comma (without_port ip) ≡ 0
without_port-comma ip n = elim (Bool-cases (occurrences colon ip == 1)) [
  | inl t ↦ rw (without_port, t) (omega (arith, occurrences-until_le colon comma ip))
  | inr t ↦ rw (without_port, t) n
]

without_zone-comma : (raw : String) → occurrences comma (without_zone raw) ≡ 0
without_zone-comma raw = omega (
  arith,
  occurrences-until_le percent comma (trim (until comma raw)),
  occurrences-trim comma (until comma raw),
  occurrences-until comma raw,
)

sanitise_ip-IsIp : (v : Json) → is_empty_text (sanitise_ip v) ≡ false → IsIp (sanitise_ip v)
unfolding sanitise_ip
sanitise_ip-IsIp (str raw) h = elim (Bool-cases (is_empty_text raw)) [
  | inl t ↦ absurd (cc (rw t at h))
  | inr t ↦ rw t (
      if_short-IsIp (without_port (without_zone raw))
        (without_port-comma (without_zone raw) (without_zone-comma raw)) (rw t at h))
]
sanitise_ip-IsIp v h = absurd (cc h)

resolve_ip-IsIp :
    (interfaces : Result (List (Option (List Address))))
    → AreIps interfaces
    → IsIp (resolve_ip interfaces)
resolve_ip-IsIp (err f) h = (omega arith, omega arith, refl)
resolve_ip-IsIp (ok is) h = elim (Option-cases (find is_external (flat_map or_nothing is))) [
  | inl e ↦ rw (resolve_ip, e) (omega arith, omega arith, refl)
  | inr (a, e) ↦
      let (m, t) = find-In is_external (flat_map or_nothing is) a e in
      rw (resolve_ip, e)
        (elim (All-In _ (flat_map or_nothing is) a h m) [ inl f ↦ absurd (cc (t, f)) | inr p ↦ p ])
]

module _ (interfaces : Result (List (Option (List Address)))) (known : AreIps interfaces) where
  get_service_ip-IsIp :
      (cache : Option String)
      → IsCache cache
      → IsIp (get_service_ip interfaces cache).0 × IsCache (get_service_ip interfaces cache).1
  unfolding get_service_ip
  get_service_ip-IsIp none h = (resolve_ip-IsIp interfaces known, resolve_ip-IsIp interfaces known)
  get_service_ip-IsIp (some ip) h = elim (Bool-cases (is_empty_text ip)) [
    | inl t ↦ rw t (resolve_ip-IsIp interfaces known, resolve_ip-IsIp interfaces known)
    | inr t ↦ rw t (h, h)
  ]

  extract_ip-IsIp :
      (request : Json) (cache : Option String)
      → IsCache cache
      → IsIp (extract_ip interfaces request cache).0
        × IsCache (extract_ip interfaces request cache).1
  unfolding extract_ip
  extract_ip-IsIp request cache h =
      let forwarded = get (get request "headers") "x-forwarded-for" in
      let remote = get (get request "info") "remoteAddress" in
      elim (Bool-cases (is_empty_text (sanitise_ip forwarded))) [
        | inr t ↦ rw t (sanitise_ip-IsIp forwarded t, h)
        | inl t ↦ elim (Bool-cases (is_empty_text (sanitise_ip remote))) [
          | inr u ↦ rw (t, u) (sanitise_ip-IsIp remote u, h)
          | inl u ↦ rw (t, u) (get_service_ip-IsIp cache h)
        ]
      ]

-- one event after another, each with its request
abbrev pub send_all : SenderEnv → List (Fields × Json) → Option String → List Sent
send_all env List.[] cache = List.[]
send_all env (List.◌∷◌ (event, request) sends) cache =
    let sent = send_audit_event env event request cache in
    List.◌∷◌ sent (send_all env sends sent.cache)

sanitised_event-IsKeyed : (event : Fields) → IsKeyed (sanitised_event event)
sanitised_event-IsKeyed event =
    elim (Bool-cases (same (get (obj event) "correlationid") undefined)) [
      | inl t ↦ rw (sanitised_event, t) (inl (remove_field-absent "correlationid" event))
      | inr t ↦ rw (sanitised_event, t) (inr t)
    ]

module _ (env : SenderEnv) (known : AreIps env.interfaces) where
  send_all-from :
      (sends : List (Fields × Json)) (cache : Option String)
      → IsCache cache
      → All (λ s. IsIp s.ip × IsKeyed s.event) (send_all env sends cache)
  unfolding send_audit_event
  send_all-from List.[] cache h = tt
  send_all-from (List.◌∷◌ (event, request) sends) cache h =
      let (ip, next) = extract_ip-IsIp env.interfaces known request cache h in
      (
        (ip, sanitised_event-IsKeyed event),
        send_all-from sends (extract_ip env.interfaces request cache).1 next,
      )

  -- Every audit event of the process is sent with an address that the audit schema takes: it is not
  -- empty, it has twenty characters at most, and it is no list of addresses. This holds of all
  -- headers that a client can send, where the addresses of the operating system have this form. No
  -- event is sent with a correlation id that is undefined.
  pub send_all-IsIp :
      (sends : List (Fields × Json))
      → All (λ s. IsIp s.ip × IsKeyed s.event) (send_all env sends none)
  send_all-IsIp sends = send_all-from sends none tt
