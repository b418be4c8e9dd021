-- ===== src/Tests/Sender.antt =====
-- A host with one external address, and requests with and without addresses.
use fcp_sfd_object_processor.Common.{
  String, ◌≡◌, refl, true, false, inl, inr, some, none, List, [], ◌∷◌, All, ok, arith, trim,
}
use fcp_sfd_object_processor.Json.{Json, undefined, str, obj, Fields, end, field, text_of}
use fcp_sfd_object_processor.Masking.{mask_crn, mask_crn_in_text}
use fcp_sfd_object_processor.Sender.{SenderEnv, sanitise_ip}
use fcp_sfd_object_processor.Sender.Laws.{AreIps, IsIp, IsKeyed, send_all, send_all-IsIp}

abbrev sender_env : SenderEnv
sender_env = record {
  interfaces = ok (
      some (
        record { family = "IPv4"; internal = true; address = "127.0.0.1" }
        ∷ record { family = "IPv4"; internal = false; address = "10.0.0.7" }
        ∷ [])
      ∷ none
      ∷ []);
  publish = λ event ip. some (obj (field "message" (str "refused") end));
}

abbrev forwarded : String → Json
forwarded ips = obj (field "headers" (obj (field "x-forwarded-for" (str ips) end)) end)

abbrev sends : List (Fields × Json)
sends =
    (field "correlationid" undefined end, forwarded "203.0.113.9:4711, 10.0.0.1")
    ∷ (field "correlationid" (str "trace") end, undefined)
    ∷ []

sender_env-AreIps : AreIps sender_env.interfaces
sender_env-AreIps = (inl refl, (inr (omega arith, omega arith, refl), tt))

send_all-IsIp_example : All (λ s. IsIp s.ip × IsKeyed s.event) (send_all sender_env sends none)
send_all-IsIp_example = send_all-IsIp sender_env sender_env-AreIps sends

port_removed : sanitise_ip (str "203.0.113.9:4711, 10.0.0.1") ≡ "203.0.113.9"
unfolding sanitise_ip trim
port_removed = refl

zone_removed : sanitise_ip (str "fe80::1%eth0") ≡ "fe80::1"
unfolding sanitise_ip trim
zone_removed = refl

masked :
    mask_crn_in_text (str "crn 1234567890 is refused") (str "1234567890")
    ≡ str "crn ******7890 is refused"
unfolding mask_crn_in_text mask_crn text_of
masked = refl

-- an occurrence that overlaps the one before it is not masked
overlapping : mask_crn_in_text (str "1234561234561234") (str "1234561234") ≡ str "******1234561234"
unfolding mask_crn_in_text mask_crn text_of
overlapping = refl
