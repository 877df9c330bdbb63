-- ===== src/Ingest/Tests.antt =====
-- A poll of ingest/ingest.go that stores one record.
use frps_gateway.Base.{List, [], ◌∷◌}
use frps_gateway.Store.Schema.{AccessRow, empty_db}
use frps_gateway.Store.Sql.{Env}
use frps_gateway.Ingest.{SequenceRange, store_page}
use frps_gateway.Ingest.Stored.{Stored, store_page-Stored}

abbrev fetched : List AccessRow
fetched =
    record {
      instance_id = "frps-1";
      seq = 4;
      time = 50;
      ip = "203.0.113.7";
      user = "";
      source = "tcp";
      action = "deny";
      reason = "";
    }
    ∷ []

abbrev fresh_store : Env
fresh_store = record { db = empty_db; faults = [] }

abbrev in_place : List SequenceRange → List SequenceRange
in_place gs = gs

stored_example :
    Stored fetched fresh_store.db
      (store_page in_place fetched fresh_store).0
      (store_page in_place fetched fresh_store).1.db
stored_example = store_page-Stored in_place fetched fresh_store
