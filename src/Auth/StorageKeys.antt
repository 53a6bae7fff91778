-- ===== src/Auth/StorageKeys.antt =====
-- STORAGE_KEYS of frontend/constant/storage-keys.constant.ts: the keys of the session.
use mmn_tx_explorer.Base.{String}

abbrev pub auth_token : String
auth_token = "auth_token"

abbrev pub token : String
token = "token"

abbrev pub user_info : String
user_info = "user_info"

abbrev pub key_pair : String
key_pair = "key_pair"

abbrev pub zk_proof : String
zk_proof = "zkProof"

abbrev pub light_client : String
light_client = "light_client"
