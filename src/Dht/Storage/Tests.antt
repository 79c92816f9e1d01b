-- ===== src/Dht/Storage/Tests.antt =====
-- src/dht/storage.rs at concrete values.
use tiny_adnl.Prelude.{true, false, refl, ◌≡◌, none, some, [], ◌==◌, if◌then◌else◌}
use tiny_adnl.Dht.Storage.{
  Value, signed, Storage, Crypto, StorageOptions, insert, insert_signed_value, put,
}
use tiny_adnl.Dht.Storage.Insert.{Advances, insert-Advances}

abbrev value : Value
value = record {
  key = record { id = 1; name = []; idx = 0 };
  id = 1;
  update_rule = signed;
  key_signature = [];
  value = [];
  ttl = 20;
  signature = [];
}

abbrev one_value : Storage
one_value key = if key == 7 then some value else none

-- Signatures that are never wrong, and no nodes.
abbrev crypto : Crypto
crypto = record {
  hash_id = λ id. id;
  hash_key = λ key. 7;
  is_overlay = λ id. false;
  verify_key = λ v. true;
  verify_value = λ v. true;
  verify_node = λ id node. true;
  read_nodes = λ bytes. none;
  write_nodes = λ nodes. [];
}

abbrev options : StorageOptions
options = record { max_key_name_len = 127; max_key_index = 15 }

abbrev newer_value : Value
newer_value = record value { ttl = 30 }

replaces : (insert crypto options (λ name. true) one_value 10 newer_value).0 7 ≡ some newer_value
unfolding insert insert_signed_value put
replaces = refl

insert-Advances_example :
    Advances one_value (insert crypto options (λ name. true) one_value 10 newer_value).0 10 7 30 7
insert-Advances_example = insert-Advances crypto options (λ name. true) one_value 10 7 newer_value
