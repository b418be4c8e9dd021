-- ===== src/Database.antt =====
-- data/db.js: the connection of the process and the indexes that it makes on connecting.
-- The driver is not part of the repository: its calls are parameters over a world `W`, and each of
-- them can be refused. The four collections are known by what they hold; the configuration gives
-- them different names. The secure context goes to the driver's `connect` alone.
pub mod Connect
pub mod Server
pub mod Reconcile
pub mod Indexes
use fcp_sfd_object_processor.Common.{
  ℕ, String, Bool, true, false, not, ◌&&◌, Option, none, some, List, [], ◌∷◌, find, ◌==◌, str_eq,
  if◌then◌else◌, Result, ok, err, message, coded, not_found,
}
use fcp_sfd_object_processor.Json.{
  Json, Number, undefined, num, nat, str, obj, end, field, get, same,
}

pub data Coll : Type 0 where
  statuses uploads sessions outbox : Coll

pub record Index : Type 0 where
  pub name : String
  pub key : Json
  pub unique : Bool
  pub sparse : Bool
  pub expire_after_seconds : Json
  pub partial_filter_expression : Json

-- what an awaited call that returns nothing ends with
abbrev pub Outcome : Type 0
Outcome = Result {0} Unit

-- The driver. `namespace_not_found` is the code that it refuses to list the indexes with where the
-- collection does not exist yet.
pub record Driver (W : Type 0) : Type 0 where
  pub connect : W → Result ℕ × W
  pub close : ℕ → W → Outcome × W
  pub create_indexes : Coll → List Index → W → Outcome × W
  pub indexes : Coll → W → Result (List Index) × W
  pub drop_index : Coll → String → W → Outcome × W
  -- `collMod` of an index's retention
  pub coll_mod : Coll → String → ℕ → W → Outcome × W

abbrev namespace_not_found : ℕ
namespace_not_found = 26

abbrev pub outbox_sent_ttl_index_name : String
outbox_sent_ttl_index_name = "outbox_sent_ttl_idx"

abbrev one : Json
one = num (nat 1)

abbrev minus_one : Json
minus_one = num (Number.neg 0)

abbrev key_on : String → Json
key_on path = obj (field path one end)

abbrev key_on_both : String → String → Json → Json
key_on_both path second direction = obj (field path one (field second direction end))

abbrev plain : String → Json → Index
plain name key = record {
  name = name;
  key = key;
  unique = false;
  sparse = false;
  expire_after_seconds = undefined;
  partial_filter_expression = undefined;
}

abbrev pub status_indexes : List Index
status_indexes =
    plain "status_correlationId_timestamp_idx" (key_on_both "correlationId" "timestamp" one)
    ∷ plain "status_sbi_idx" (key_on "sbi")
    ∷ plain "status_timestamp_idx" (obj (field "timestamp" minus_one end))
    ∷ plain "status_sbi_timestamp_idx" (key_on_both "sbi" "timestamp" minus_one)
    ∷ []

abbrev pub metadata_indexes : List Index
metadata_indexes =
    record (plain "metadata_fileId_idx" (key_on "file.fileId")) { unique = true }
    ∷ plain "metadata_sbi_idx" (key_on "metadata.sbi")
    ∷ plain "metadata_sbi_id_idx" (key_on_both "metadata.sbi" "_id" minus_one)
    ∷ []

abbrev pub session_indexes : List Index
session_indexes =
    record (plain "sessions_uploadId_idx" (key_on "uploadId")) { unique = true }
    ∷ record (plain "sessions_journeyId_idx" (key_on "journeyId")) { unique = true; sparse = true }
    ∷ plain "sessions_timestamp_idx" (obj (field "timestamp" minus_one end))
    ∷ []

-- the index that deletes SENT entries, with its retention
abbrev pub sent_ttl_index : Json → Index
sent_ttl_index retention = record (plain outbox_sent_ttl_index_name (key_on "lastAttemptedAt")) {
  expire_after_seconds = retention;
  partial_filter_expression = obj (field "status" (str "SENT") end);
}

abbrev pub outbox_indexes : ℕ → List Index
outbox_indexes ttl =
    plain "outbox_status_createdAt_idx" (key_on_both "status" "createdAt" one)
    ∷ plain "outbox_status_claimedUntil_idx" (key_on_both "status" "claimedUntil" one)
    ∷ plain "outbox_status_attempts_idx" (key_on_both "status" "attempts" one)
    ∷ plain "outbox_payload_fileId_idx" (key_on "payload.file.fileId")
    ∷ sent_ttl_index (num (nat ttl))
    ∷ []

abbrev pub is_sent_ttl_index : Index → Bool
is_sent_ttl_index i = str_eq i.name outbox_sent_ttl_index_name

abbrev is_number : Json → Bool
is_number (num n) = true
is_number _ = false

abbrev pub spec_matches : Index → Bool
spec_matches i =
    same (get i.key "lastAttemptedAt") one
    && (same (get i.partial_filter_expression "status") (str "SENT")
        && is_number i.expire_after_seconds)

-- one awaited call after another: the first that throws ends the function
infixl 5 ◌then◌
unfoldable pub ◌then◌ {ℓ κ} :
    {W : Type 0} {A : Type ℓ} {B : Type κ} → Result A × W → (A → W → Result B × W) → Result B × W
(ok a, w) then f = f a w
(err e, w) then f = (err e, w)

abbrev pub existing_or_none : {W : Type 0} → Result (List Index) × W → Result (List Index) × W
existing_or_none (ok is, w) = (ok is, w)
existing_or_none (err (coded n m), w) =
    if n == namespace_not_found then (ok [], w) else (err (coded n m), w)
existing_or_none (err (message m), w) = (err (message m), w)
existing_or_none (err (not_found m), w) = (err (not_found m), w)

module _ {W : Type 0} (driver : Driver W) where
  -- what is done to the TTL index that is there
  abbrev pub reconcile : ℕ → Option Index → W → Outcome × W
  reconcile ttl none w = (ok tt, w)
  reconcile ttl (some i) w =
      if not (spec_matches i)
      then driver.drop_index outbox outbox_sent_ttl_index_name w
      else if not (same i.expire_after_seconds (num (nat ttl)))
      then driver.coll_mod outbox outbox_sent_ttl_index_name ttl w
      else (ok tt, w)

  unfoldable pub reconcile_outbox : ℕ → W → Outcome × W
  reconcile_outbox ttl w =
      existing_or_none (driver.indexes outbox w)
      then (λ is. reconcile ttl (find is_sent_ttl_index is))
      then (λ done. driver.create_indexes outbox (outbox_indexes ttl))

  -- createIndexes
  unfoldable pub create_indexes : ℕ → W → Outcome × W
  create_indexes ttl w =
      driver.create_indexes statuses status_indexes w
      then (λ done. driver.create_indexes uploads metadata_indexes)
      then (λ done. driver.create_indexes sessions session_indexes)
      then (λ done. reconcile_outbox ttl)

-- `mongo`: the client of the process and its database, each known by the client's number
pub record Mongo : Type 0 where
  pub client : Option ℕ
  pub db : Option ℕ

abbrev pub disconnected : Mongo
disconnected = record { client = none; db = none }

module _ {W : Type 0} (driver : Driver W) where
  abbrev close_client : Option ℕ → W → W
  close_client none w = w
  close_client (some k) w = (driver.close k w).1

  -- closeDb: a refusal to close is only logged
  unfoldable pub close_db : Mongo → W → Mongo × W
  close_db mongo w = (disconnected, close_client mongo.client w)

  abbrev pub keep_or_close : Mongo → Outcome × W → Outcome × Mongo × W
  keep_or_close mongo (ok done, w) = (ok tt, mongo, w)
  keep_or_close mongo (err f, w) = let (closed, w') = close_db mongo w in (err f, closed, w')

  abbrev pub use_client : ℕ → Mongo → Result ℕ × W → Outcome × Mongo × W
  use_client ttl mongo (err f, w) = (err f, mongo, w)
  use_client ttl mongo (ok k, w) =
      keep_or_close record { client = some k; db = some k } (create_indexes driver ttl w)

  -- connectDb
  unfoldable pub connect_db : ℕ → Mongo → W → Outcome × Mongo × W
  connect_db ttl mongo w = elim mongo.client [
    | some k ↦ (ok tt, mongo, w)
    | none ↦ use_client ttl mongo (driver.connect w)
  ]
