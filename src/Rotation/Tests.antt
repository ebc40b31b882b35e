-- ===== src/Rotation/Tests.antt =====
-- The rotation states at a concrete input.
use ved_db_server.Prelude.{
  ℕ, ◌≡◌, refl, Bool, true, false, Option, none, some, List, [], ◌∷◌, ◌==◌, if◌then◌else◌, get_or,
}
use Prim.Native.String.{String}
use ved_db_server.Prelude.Maps.{lookup, String-Eq}
use ved_db_server.Rotation.Keys.{Platform, EncryptionKey, get_key}
use ved_db_server.Rotation.Storage.{
  EncryptedDocumentRef, EncryptedStorage, scan_all, scan_collections, is_collection_using_key,
}
use ved_db_server.Rotation.Scheduler.{System, finished, begin_rotation, resume_rotation}
use ved_db_server.Rotation.Recovery.{resume_rotation-forgets}
use ved_db_server.Rotation.Skipped.{nothing_done, rotate_key-skips}
use ved_db_server.Rotation.Scheduler.{rotate_key}
use ved_db_server.Rotation.{KeyRotationState, idle, completed, can_start_rotation}

abbrev done : KeyRotationState
done = completed "k" 9 3

-- A cipher that puts the key's first byte before the text; the key of the n-th draw is n.
abbrev opened : List ℕ → List ℕ → Option (List ℕ)
opened [] key = none
opened (h ∷ text) key = if h == get_or key 0 0 then some text else none

abbrev marking : Platform
marking = record {
  generate_key = λ n. n ∷ [];
  encrypt = λ n plain key. some (get_or key 0 0 ∷ plain);
  decrypt = opened;
  writes_keys = λ n. true;
  reads_state = λ n. true;
  writes_state = λ n. true;
}

-- A storage of one collection, orders, whose documents have the names given to them.
unfoldable of_collection : List (String × List ℕ) → List EncryptedDocumentRef
of_collection [] = []
of_collection ((i, text) ∷ docs) =
    record { collection = "orders"; doc_id = i; encrypted_data = text } ∷ of_collection docs

unfoldable replace : String → List ℕ → List (String × List ℕ) → Bool × List (String × List ℕ)
replace i text [] = (false, [])
replace i text ((j, old) ∷ docs) =
    let rest = replace i text docs in
    if String-Eq.same i j then (true, (j, text) ∷ docs) else (rest.0, (j, old) ∷ rest.1)

abbrev one_collection : EncryptedStorage (List (String × List ℕ))
one_collection = record {
  list_encrypted_collections = λ docs. some ("orders" ∷ []);
  scan_encrypted_collection =
      λ docs c. if String-Eq.same c "orders" then some (of_collection docs) else none;
  update_encrypted_document = λ docs c i text. replace i text docs;
}

abbrev orders_key : EncryptionKey
orders_key = record {
  id = "collection_orders";
  key = 0 ∷ [];
  created_at = 0;
  last_rotated = 0;
  active = true;
  version = 1;
}

abbrev order : EncryptedDocumentRef
order = record { collection = "orders"; doc_id = "1"; encrypted_data = 0 ∷ 42 ∷ [] }

abbrev shop : System (List (String × List ℕ))
shop = record {
  manager = record { keys = ("collection_orders", orders_key) ∷ []; draws = 1; writes = 1 };
  saved = idle;
  file_calls = 0;
  storage = ("1", 0 ∷ 42 ∷ []) ∷ [];
  rotation_statuses = [];
  rotation_interval_days = 90;
  batch_size = 1000;
}

key_there : lookup "collection_orders" shop.manager.keys ≡ some orders_key
unfolding lookup String-Eq
key_there = refl

order_scanned : scan_all one_collection shop.storage "collection_orders" ≡ some (order ∷ [])
unfolding scan_all scan_collections is_collection_using_key of_collection String-Eq
order_scanned = refl

resume_rotation-forgets_example :
    let r =
      resume_rotation marking one_collection 9
        (begin_rotation marking one_collection 5 shop "collection_orders").0 in
    (r.0 ≡ finished)
    × (r.1.saved ≡ completed "collection_orders" 9 0)
    × (r.1.storage ≡ shop.storage)
    × (get_key r.1.manager "collection_orders" ≡ some (marking.generate_key 2))
unfolding can_start_rotation
resume_rotation-forgets_example =
    resume_rotation-forgets marking one_collection (λ n. refl) (λ n. refl) (λ n. refl) 5 9 shop
      "collection_orders" orders_key (order ∷ []) refl key_there refl refl order_scanned (refl, tt)

-- a storage that gives the text itself, which is no ciphertext
abbrev plain_shop : System (List (String × List ℕ))
plain_shop = record shop { storage = ("1", 42 ∷ []) ∷ ("2", 43 ∷ 44 ∷ []) ∷ [] }

abbrev plain_orders : List EncryptedDocumentRef
plain_orders =
    record { collection = "orders"; doc_id = "1"; encrypted_data = 42 ∷ [] }
    ∷ record { collection = "orders"; doc_id = "2"; encrypted_data = 43 ∷ 44 ∷ [] }
    ∷ []

plain_orders_scanned :
    scan_all one_collection plain_shop.storage "collection_orders" ≡ some plain_orders
unfolding scan_all scan_collections is_collection_using_key of_collection String-Eq
plain_orders_scanned = refl

rotate_key-skips_example :
    let r = rotate_key marking one_collection 5 plain_shop "collection_orders" in
    (r.0 ≡ finished)
    × (r.1.saved ≡ completed "collection_orders" 5 0)
    × (lookup "collection_orders" r.1.rotation_statuses
        ≡ some (nothing_done 5 "collection_orders" 2))
    × (r.1.storage ≡ plain_shop.storage)
    × (get_key r.1.manager "collection_orders" ≡ some (marking.generate_key 1))
unfolding can_start_rotation
rotate_key-skips_example =
    rotate_key-skips marking one_collection (λ n. refl) (λ n. refl) (λ n. refl) 5 plain_shop
      "collection_orders" orders_key plain_orders refl key_there refl refl plain_orders_scanned
      (refl, (refl, tt))
