-- ===== src/HotWallet/Vault.antt =====
-- The state of `HotWalletVault` in backend/app/core/hot_wallet.py: the key pair in memory, the time of
-- the last unlock and the sidecar file, whose JSON object is a record. A method that raises leaves
-- the state as it was.
pub mod Unlocking
use crypto_arc_v.Prelude.{
  ℕ, zero, suc, String, Bool, true, false, not, ◌&&◌, ◌||◌, Option, some, none, List, [], ◌∷◌,
  if◌then◌else◌, is_empty, str_eq,
}
use crypto_arc_v.Prelude.Result.{Result, ok, err, ◌>>=◌, ◌>>◌, raise_if, or_raise}
use crypto_arc_v.Prelude.Text.{append, strip}
use crypto_arc_v.HotWallet.Cipher.{Bytes, Crypto, Sealed, encrypt, decrypt}

pub record Sidecar : Type 0 where
  pub version : ℕ
  pub wallet_public_key : String
  pub label : String
  pub imported_at : String
  pub sealed : Sealed

-- The key pairs and the transactions of `solders`, Base64, and the JSON of the secret that is sealed. A message is the
-- bytes of `to_bytes_versioned`.
pub record Signer (K : Type 0) : Type 0 where
  pub pubkey : K → String
  pub to_bytes : K → Bytes
  pub from_bytes : Bytes → Option K
  pub encode_secret : Bytes → String → Bytes
  pub decode_secret : Bytes → Option (Bytes × String)
  -- `base64.b64decode(text.encode("utf-8"))` and `base64.b64encode(raw).decode("utf-8")`
  pub decode_text : String → Option Bytes
  pub encode_text : Bytes → String
  -- `to_bytes_versioned(VersionedTransaction.from_bytes(raw).message)`
  pub message_of : Bytes → Option Bytes
  -- `keypair.sign_message(message)`, and `str(signature)`
  pub sign_message : K → Bytes → Bytes
  pub signature_text : Bytes → String
  -- `bytes(VersionedTransaction.populate(message, [signature]))`
  pub populate : Bytes → Bytes → Bytes

-- The signature over an unsigned transaction in Base64, and the signed transaction: `sign_transaction` after the key pair was
-- found, and `sign_transaction` of the signer daemon, which has the same lines.
unfoldable pub sign : {K : Type 0} → Signer K → K → String → Result (String × String)
sign s k unsigned = do
  raw ← or_raise (s.decode_text unsigned) "binascii.Error"
  message ← or_raise (s.message_of raw) "transaction is not valid"
  let signature = s.sign_message k message
  ok (s.signature_text signature, s.encode_text (s.populate message signature))

pub record HotWalletVault (K : Type 0) : Type 0 where
  pub keypair : Option K
  pub last_unlock_at : String
  pub file : Option Sidecar

pub record VaultStatus : Type 0 where
  pub imported : Bool
  pub unlocked : Bool
  pub wallet_public_key : String
  pub sidecar_wallet_public_key : String
  pub sidecar_mismatch : Bool
  pub label : String
  pub imported_at : String
  pub last_unlock_at : String
  pub version : ℕ

abbrev pub is_some {ℓ} : {A : Type ℓ} → Option A → Bool
is_some none = false
is_some (some a) = true

abbrev pub current_version : ℕ
current_version = 1

-- `payload.get("wallet_public_key") or ""` if there is a payload
abbrev pub sidecar_key : Option Sidecar → String
sidecar_key none = ""
sidecar_key (some p) = p.wallet_public_key

abbrev pub sidecar_label : Option Sidecar → String
sidecar_label none = ""
sidecar_label (some p) = p.label

abbrev pub sidecar_imported_at : Option Sidecar → String
sidecar_imported_at none = ""
sidecar_imported_at (some p) = p.imported_at

-- `int(payload.get("version") or self.VERSION)`
abbrev pub sidecar_version : Option Sidecar → ℕ
sidecar_version none = current_version
sidecar_version (some p) = elim p.version [ zero ↦ current_version | other ↦ other ]

module _ {K : Type 0} (s : Signer K) where
  abbrev pub keypair_key : Option K → String
  keypair_key none = ""
  keypair_key (some k) = s.pubkey k

  unfoldable pub status : HotWalletVault K → VaultStatus
  status v =
      let sidecar_public_key = sidecar_key v.file in
      let unlocked_public_key = keypair_key v.keypair in
      record {
        imported = is_some v.file;
        unlocked = is_some v.keypair;
        wallet_public_key =
            if is_empty unlocked_public_key then sidecar_public_key else unlocked_public_key;
        sidecar_wallet_public_key = sidecar_public_key;
        sidecar_mismatch = is_some v.keypair && not (str_eq sidecar_public_key unlocked_public_key);
        label = sidecar_label v.file;
        imported_at = sidecar_imported_at v.file;
        last_unlock_at = v.last_unlock_at;
        version = sidecar_version v.file;
      }

  -- `rehearsal_status`, its three computed answers
  unfoldable pub rehearsal_match : String → HotWalletVault K → Bool
  rehearsal_match expected_wallet_public_key v =
      let now = status v in
      let expected = strip expected_wallet_public_key in
      not (is_empty expected) && str_eq now.wallet_public_key expected && not now.sidecar_mismatch

  unfoldable pub can_sign : HotWalletVault K → Bool
  can_sign v = is_some v.keypair && not (status v).sidecar_mismatch

  unfoldable pub wallet_public_key : HotWalletVault K → String
  wallet_public_key v = elim v.keypair [ some k ↦ s.pubkey k | none ↦ sidecar_key v.file ]

  unfoldable pub lock : HotWalletVault K → HotWalletVault K
  lock v = record v { keypair = none }

  unfoldable pub clear : HotWalletVault K → HotWalletVault K
  clear v = record v { keypair = none; last_unlock_at = ""; file = none }

  module _ (c : Crypto) where
    -- `import_private_key`, given what `_parse_private_key` has returned, the bytes drawn for the salt
    -- and the nonce, and the two readings of the clock
    unfoldable pub import_private_key :
        Result K
        → String
        → String
        → Bytes
        → Bytes
        → String
        → String
        → HotWalletVault K
        → Result (HotWalletVault K)
    import_private_key parsed password label salt nonce imported_at unlocked_at v = do
      k ← parsed
      sealed ← encrypt c salt nonce (s.encode_secret (s.to_bytes k) (s.pubkey k)) password
      ok (record v {
        keypair = some k;
        last_unlock_at = unlocked_at;
        file = some (record {
          version = current_version;
          wallet_public_key = s.pubkey k;
          label = strip label;
          imported_at = imported_at;
          sealed = sealed;
        });
      })

    -- `unlock`, given the reading of the clock
    unfoldable pub unlock : String → String → HotWalletVault K → Result (HotWalletVault K)
    unlock password now v = do
      payload ← or_raise v.file "no hot wallet is imported"
      decrypted ← decrypt c payload.sealed password
      (key_bytes, encrypted_public_key) ←
          or_raise (s.decode_secret decrypted) "json.JSONDecodeError"
      k ← or_raise (s.from_bytes key_bytes) "ValueError"
      raise_if
          (not (str_eq (s.pubkey k) encrypted_public_key)
            || not (str_eq (s.pubkey k) payload.wallet_public_key))
          "hot wallet sidecar does not match encrypted signer key"
      ok (record v { keypair = some k; last_unlock_at = now })

  -- `_require_unlocked_keypair`
  unfoldable pub require_unlocked_keypair : String → HotWalletVault K → Result K
  require_unlocked_keypair expected_public_key v = do
    k ← or_raise v.keypair "hot wallet is locked"
    let expected = strip expected_public_key
    raise_if (is_empty expected) "expected source wallet public key is required"
    raise_if (not (str_eq (s.pubkey k) expected))
        "actual unlocked signer does not match expected source wallet"
    raise_if (not (str_eq (sidecar_key v.file) (s.pubkey k)))
        "hot wallet sidecar does not match actual unlocked signer"
    ok k

  unfoldable pub sign_transaction : String → String → HotWalletVault K → Result (String × String)
  unfolding sign
  sign_transaction unsigned expected_public_key v = do
    k ← require_unlocked_keypair expected_public_key v
    sign s k unsigned
