-- ===== src/Contract/Types.antt =====
-- The requests and responses of contract/src/lib.rs.
use key_manager.Base.{ℕ, Bool, Option, List}
use key_manager.Base.Text.{Str}

pub record EncryptItem : Type 0 where
  pub key : Str
  pub plaintext_b64 : Str

pub record DecryptItem : Type 0 where
  pub key : Str
  pub ciphertext_b64 : Str

pub data Request : Type 0 where
  get_key : (group_id account_id : Str) → Request
  get_group_key_id : (group_id account_id : Str) → Request
  wrap_key : (group_id account_id plaintext_key_b64 : Str) → Request
  unwrap_key : (group_id account_id wrapped_key_b64 : Str) → Request
  encrypt : (group_id account_id plaintext_b64 : Str) → Request
  decrypt : (group_id account_id ciphertext_b64 : Str) → Request
  verify_membership : (group_id account_id : Str) → Request
  batch_encrypt : (group_id account_id : Str) (items : List EncryptItem) → Request
  batch_decrypt : (group_id account_id : Str) (items : List DecryptItem) → Request

pub record KeyResponse : Type 0 where
  pub key_b64 : Str
  pub key_id : Str
  pub group_id : Str
  pub attestation_hash : Str

pub record GroupKeyIdResponse : Type 0 where
  pub key_id : Str
  pub group_id : Str
  pub algorithm : Str

pub record WrapKeyResponse : Type 0 where
  pub wrapped_key_b64 : Str
  pub key_id : Str

pub record UnwrapKeyResponse : Type 0 where
  pub plaintext_key_b64 : Str
  pub key_id : Str

pub record EncryptResponse : Type 0 where
  pub ciphertext_b64 : Str
  pub key_id : Str

pub record DecryptResponse : Type 0 where
  pub plaintext_b64 : Str
  pub plaintext_utf8 : Option Str
  pub key_id : Str

pub record MembershipResponse : Type 0 where
  pub is_member : Bool
  pub group_id : Str
  pub account_id : Str

pub record BatchEncryptItemResult : Type 0 where
  pub key : Str
  pub ciphertext_b64 : Str
  pub error : Option Str

pub record BatchEncryptResponse : Type 0 where
  pub key_id : Str
  pub items : List BatchEncryptItemResult

pub record BatchDecryptItemResult : Type 0 where
  pub key : Str
  pub plaintext_b64 : Str
  pub plaintext_utf8 : Option Str
  pub error : Option Str

pub record BatchDecryptResponse : Type 0 where
  pub key_id : Str
  pub items : List BatchDecryptItemResult

pub record ErrorResponse : Type 0 where
  pub error : Str
  pub code : ℕ

-- What is handed to `serde_json::to_string`: any one of the response structs.
pub data Response : Type 0 where
  key : KeyResponse → Response
  group_key_id : GroupKeyIdResponse → Response
  wrapped : WrapKeyResponse → Response
  unwrapped : UnwrapKeyResponse → Response
  encrypted : EncryptResponse → Response
  decrypted : DecryptResponse → Response
  membership : MembershipResponse → Response
  batch_encrypted : BatchEncryptResponse → Response
  batch_decrypted : BatchDecryptResponse → Response
  failed : ErrorResponse → Response
