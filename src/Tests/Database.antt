-- ===== src/Tests/Database.antt =====
-- A server with one process, whose TTL index has an old retention.
use fcp_sfd_object_processor.Common.{
  ℕ, ◌≡◌, ◌≢◌, refl, ◌⊎◌, inl, not, List, [], ◌∷◌, ◌++◌, All, here, there, map, filter, length,
  drop, ok, err, Failure, some,
}
use fcp_sfd_object_processor.Json.{num, nat}
use fcp_sfd_object_processor.Database.{
  Coll, statuses, uploads, sessions, outbox, Index, Driver, disconnected, create_indexes,
  connect_db, sent_ttl_index,
}
use fcp_sfd_object_processor.Database.Connect.{Tracks, connect_db-cases}
use fcp_sfd_object_processor.Database.Server.{Serves, AreUnique, missing, has_name, with_retention}
use fcp_sfd_object_processor.Database.Indexes.{IsOwn, HasIndexes, create_indexes-HasIndexes}

record World : Type 0 where
  clients : List ℕ
  of_statuses : List Index
  of_uploads : List Index
  of_sessions : List Index
  of_outbox : List Index

abbrev stored : Coll → World → List Index
stored statuses w = w.of_statuses
stored uploads w = w.of_uploads
stored sessions w = w.of_sessions
stored outbox w = w.of_outbox

abbrev store : Coll → List Index → World → World
store statuses is w = record w { of_statuses = is }
store uploads is w = record w { of_uploads = is }
store sessions is w = record w { of_sessions = is }
store outbox is w = record w { of_outbox = is }

abbrev server : Driver World
server = record {
  connect = λ w. (ok (length w.clients), record w { clients = length w.clients ∷ w.clients });
  close = λ k w. (ok tt, record w { clients = drop 1 w.clients });
  create_indexes = λ c is w. (ok tt, store c (stored c w ++ missing (stored c w) is) w);
  indexes = λ c w. (ok (stored c w), w);
  drop_index = λ c n w. (ok tt, store c (filter (λ i. not (has_name n i)) (stored c w)) w);
  coll_mod = λ c n ttl w. (ok tt, store c (map (with_retention n ttl) (stored c w)) w);
}

stored-store : (c : Coll) (is : List Index) (w : World) → stored c (store c is w) ≡ is
stored-store statuses is w = refl
stored-store uploads is w = refl
stored-store sessions is w = refl
stored-store outbox is w = refl

stored-store_other :
    (c d : Coll) (is : List Index) (w : World) → d ≢ c → stored d (store c is w) ≡ stored d w
stored-store_other statuses statuses is w n = absurd (n refl)
stored-store_other statuses uploads is w n = refl
stored-store_other statuses sessions is w n = refl
stored-store_other statuses outbox is w n = refl
stored-store_other uploads statuses is w n = refl
stored-store_other uploads uploads is w n = absurd (n refl)
stored-store_other uploads sessions is w n = refl
stored-store_other uploads outbox is w n = refl
stored-store_other sessions statuses is w n = refl
stored-store_other sessions uploads is w n = refl
stored-store_other sessions sessions is w n = absurd (n refl)
stored-store_other sessions outbox is w n = refl
stored-store_other outbox statuses is w n = refl
stored-store_other outbox uploads is w n = refl
stored-store_other outbox sessions is w n = refl
stored-store_other outbox outbox is w n = absurd (n refl)

clients-store : (c : Coll) (is : List Index) (w : World) → (store c is w).clients ≡ w.clients
clients-store statuses is w = refl
clients-store uploads is w = refl
clients-store sessions is w = refl
clients-store outbox is w = refl

server-Serves : Serves server stored
server-Serves = record {
  create_lem = λ c is w h. (refl, stored-store c _ w);
  create_other = λ c d is w n. stored-store_other c d _ w n;
  indexes_lem = λ c w. (refl, inl refl);
  drop_lem = λ c n w h. (refl, stored-store c _ w);
  mod_lem = λ c n ttl w h. (refl, stored-store c _ w);
}

server-Tracks : Tracks server (λ w. w.clients)
server-Tracks = record {
  connect_ok = λ k w e. ok-clients k w e;
  connect_err = λ f w e. absurd (cc e);
  close_ok = λ k rest w e o. rw e refl;
  create_lem = λ c is w. clients-store c _ w;
  indexes_lem = λ c w. refl;
  drop_lem = λ c n w. clients-store c _ w;
  mod_lem = λ c n ttl w. clients-store c _ w;
}
  where
    ok-clients :
        (k : ℕ) (w : World)
        → (server.connect w).0 ≡ ok k
        → (length w.clients ∷ w.clients) ≡ (k ∷ w.clients)
    ok-clients k w e = cc e

abbrev before : World
before = record {
  clients = [];
  of_statuses = [];
  of_uploads = [];
  of_sessions = [];
  of_outbox = sent_ttl_index (num (nat 60)) ∷ [];
}

before-AreUnique : AreUnique (stored outbox before)
before-AreUnique i j here here e = refl
before-AreUnique _ j here (there m) e = elim m [ ]
before-AreUnique i j (there m) _ e = elim m [ ]

before-IsOwn : All (IsOwn 3600) (stored outbox before)
before-IsOwn = (((λ t q. refl), inl refl), tt)

create_indexes-HasIndexes_example :
    ((create_indexes server 3600 before).0 ≡ ok tt)
    × HasIndexes 3600 (stored outbox before) (stored outbox (create_indexes server 3600 before).1)
create_indexes-HasIndexes_example =
    create_indexes-HasIndexes server stored server-Serves 3600 before tt tt tt before-AreUnique
      before-IsOwn

connect_db-cases_example :
    ((k : ℕ) × ((connect_db server 3600 disconnected before) ≡ (
      ok tt,
      record { client = some k; db = some k },
      (create_indexes server 3600 (server.connect before).1).1,
    ))
      × ((create_indexes server 3600 (server.connect before).1).0 ≡ ok tt)
      × ((create_indexes server 3600 (server.connect before).1).1.clients ≡ (k ∷ before.clients)))
    ⊎ ((f : Failure) × (after : World) × (connect_db server 3600 disconnected before
          ≡ (err f, disconnected, after))
        × (((server.connect before).0 ≡ err f)
            ⊎ ((create_indexes server 3600 (server.connect before).1).0 ≡ err f))
        × ((after.clients ≡ before.clients)
            ⊎ ((k : ℕ) × (v : World) × (g : Failure) × (server.close k v ≡ (err g, after)))))
connect_db-cases_example = connect_db-cases server (λ w. w.clients) server-Tracks 3600 before
