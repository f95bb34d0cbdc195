-- ===== src/HotWallet/Cipher.antt =====
-- `_derive_keys`, `_xor_stream`, `_encrypt` and `_decrypt` of backend/app/core/hot_wallet.py. Bytes are
-- numbers below 256. HMAC-SHA256, PBKDF2 and Base64 are parameters.
pub mod Stream
pub mod Sealing
use crypto_arc_v.Prelude.{
  ℕ, zero, suc, ◌+◌, ◌/◌, ◌%◌, ◌^◌, ◌<◌, ◌≤◌, ◌≡◌, String, Bool, true, false, not, ◌&&◌, Option,
  some, none, List, [], ◌∷◌, ◌++◌, if◌then◌else◌, ltb, ◌==◌, is_empty, length, take, drop, All,
}
use crypto_arc_v.Prelude.Result.{Result, ok, err, ◌>>=◌, ◌>>◌, raise_if, or_raise}
use Prim.Native.Nat.{bit_xor}

abbrev pub Bytes : Type 0
Bytes = List ℕ

abbrev pub IsBytes : Bytes → Type 0
IsBytes = All (λ b. b < 256)

pub record Crypto : Type 0 where
  -- `hmac.new(key, message, hashlib.sha256).digest()`
  pub hmac : Bytes → Bytes → Bytes
  -- `hashlib.pbkdf2_hmac("sha256", password, salt, ITERATIONS, dklen=64)`
  pub pbkdf2 : String → Bytes → Bytes
  pub b64encode : Bytes → String
  pub b64decode : String → Option Bytes

-- What the vault relies on: digests of 32 bytes, and Base64 that reads back what it wrote.
pub record IsCrypto (c : Crypto) : Type 0 where
  pub length-hmac : (key message : Bytes) → length (c.hmac key message) ≡ 32
  pub hmac-IsBytes : (key message : Bytes) → IsBytes (c.hmac key message)
  pub b64decode-b64encode : (b : Bytes) → c.b64decode (c.b64encode b) ≡ some b

-- `counter.to_bytes(4, "big")`; the counter stays below 2 ^ 32 for every payload under 128 GiB.
unfoldable pub to_bytes4 : ℕ → Bytes
to_bytes4 n = n / 2 ^ 24 % 256 ∷ n / 2 ^ 16 % 256 ∷ n / 2 ^ 8 % 256 ∷ n % 256 ∷ []

-- `value ^ block[index]` along a chunk
unfoldable pub xor_chunk : Bytes → Bytes → Bytes
xor_chunk [] block = []
xor_chunk (x ∷ xs) [] = []
xor_chunk (x ∷ xs) (k ∷ ks) = bit_xor x k ∷ xor_chunk xs ks

-- `hmac.compare_digest` of two digests
unfoldable pub same_bytes : Bytes → Bytes → Bool
same_bytes [] [] = true
same_bytes (x ∷ xs) (y ∷ ys) = x == y && same_bytes xs ys
same_bytes _ _ = false

pub record Sealed : Type 0 where
  pub salt_b64 : String
  pub nonce_b64 : String
  pub ciphertext_b64 : String
  pub mac_b64 : String

module _ (c : Crypto) where
  -- The loop of `_xor_stream` from `counter` on, over the bytes that are left. Each round takes at
  -- least one byte, so as many rounds as bytes are enough.
  unfoldable pub xor_from : ℕ → Bytes → Bytes → ℕ → Bytes → Bytes
  xor_from zero key nonce counter rest = []
  xor_from (suc fuel) key nonce counter [] = []
  xor_from (suc fuel) key nonce counter (b ∷ rest) =
      let block = c.hmac key (nonce ++ to_bytes4 counter) in
      let chunk = take (length block) (b ∷ rest) in
      xor_chunk chunk block
      ++ xor_from fuel key nonce (counter + 1) (drop (length chunk) (b ∷ rest))

  unfoldable pub xor_stream : Bytes → Bytes → Bytes → Bytes
  xor_stream payload key nonce = xor_from (length payload) key nonce 0 payload

  -- `_derive_keys`: the key of the cipher and the key of the MAC
  unfoldable pub derive_keys : String → Bytes → Bytes × Bytes
  derive_keys password salt =
      let derived = c.pbkdf2 password salt in (take 32 derived, drop 32 derived)

  -- `_encrypt`, given the bytes that `token_bytes` draws for the salt and the nonce
  unfoldable pub encrypt : Bytes → Bytes → Bytes → String → Result Sealed
  encrypt salt nonce plaintext password = do
    raise_if (is_empty password) "password is required"
    let (enc_key, mac_key) = derive_keys password salt
    let ciphertext = xor_stream plaintext enc_key nonce
    ok (record {
      salt_b64 = c.b64encode salt;
      nonce_b64 = c.b64encode nonce;
      ciphertext_b64 = c.b64encode ciphertext;
      mac_b64 = c.b64encode (c.hmac mac_key (nonce ++ ciphertext));
    })

  unfoldable pub decrypt : Sealed → String → Result Bytes
  decrypt sealed password = do
    salt ← or_raise (c.b64decode sealed.salt_b64) "binascii.Error"
    nonce ← or_raise (c.b64decode sealed.nonce_b64) "binascii.Error"
    ciphertext ← or_raise (c.b64decode sealed.ciphertext_b64) "binascii.Error"
    mac ← or_raise (c.b64decode sealed.mac_b64) "binascii.Error"
    let (enc_key, mac_key) = derive_keys password salt
    raise_if (not (same_bytes mac (c.hmac mac_key (nonce ++ ciphertext))))
        "hot wallet password is invalid"
    ok (xor_stream ciphertext enc_key nonce)
