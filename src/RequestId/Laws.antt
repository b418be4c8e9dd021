-- ===== src/RequestId/Laws.antt =====
-- Which requests go on past the guard.
use Prim.Native.String.{String}
use fcp_sfd_object_processor.Common.{
  ℕ, ◌≤◌, ◌≡◌, refl, ◌⊎◌, inl, inr, Bool-cases, false, some, text_length, leb, arith, err, message,
}
use fcp_sfd_object_processor.Json.{
  Json, undefined, null, bool, num, str, oid, arr, obj, get, has_field, remove_field-absent,
}
use fcp_sfd_object_processor.Logs.{build_oversized_request_id_log}
use fcp_sfd_object_processor.RequestId.{
  Request, Guarded, max_request_id_length, let_through, guard_id, reject_oversized_request_id,
}

abbrev pub IsShort : Json → Type 0
IsShort (str id) = text_length id ≤ max_request_id_length
IsShort v = Unit

-- the request goes on as it was, or it has lost the header and the log knows the length alone
abbrev pub IsGuarded : String → Request → Json → Guarded → Type 0
IsGuarded header request id g =
    ((g ≡ let_through request) × IsShort id)
    ⊎ ((n : ℕ) × (m : String) × (g.result ≡ err (message m))
        × (has_field header g.request.headers ≡ false)
        × (g.logged ≡ some (build_oversized_request_id_log request.rest n)))

guard_id-IsGuarded :
    (header : String) (request : Request) (id : Json)
    → IsGuarded header request id (guard_id header request id)
guard_id-IsGuarded header request (str id) =
    elim (Bool-cases (leb (text_length id) max_request_id_length)) [
      | inl t ↦ rw (guard_id, t) (inl (refl, ground arith))
      | inr t ↦
          rw (guard_id, t)
            (inr (text_length id, _, refl, remove_field-absent header request.headers, refl))
    ]
guard_id-IsGuarded header request undefined = inl (refl, tt)
guard_id-IsGuarded header request null = inl (refl, tt)
guard_id-IsGuarded header request (bool b) = inl (refl, tt)
guard_id-IsGuarded header request (num n) = inl (refl, tt)
guard_id-IsGuarded header request (oid n) = inl (refl, tt)
guard_id-IsGuarded header request (arr is) = inl (refl, tt)
guard_id-IsGuarded header request (obj fs) = inl (refl, tt)

-- A request goes on, as it was, only with a tracing header of at most fifty characters, or with
-- none. Every other request is refused, has lost the header, and leaves a log line that depends on
-- the length of the header and not on its text.
pub reject_oversized_request_id-IsGuarded :
    (header : String) (request : Request)
    → IsGuarded header request
        (get (obj request.headers) header)
        (reject_oversized_request_id header request)
unfolding reject_oversized_request_id
reject_oversized_request_id-IsGuarded header request =
    guard_id-IsGuarded header request (get (obj request.headers) header)
