-- ===== src/Examples/Wallet.antt =====
-- A wallet whose digests and Base64 are toys (backend/app/core/hot_wallet.py).
use Prim.Native.Char.{code}
use crypto_arc_v.Prelude.{
  ℕ, zero, suc, ◌+◌, ◌≡◌, ◌∙◌, ap, refl, inl, String, false, none, some, List, [], ◌∷◌, ◌==◌,
  if◌then◌else◌, arith,
}
use crypto_arc_v.Prelude.Result.{ok, ◌>>=◌}
use crypto_arc_v.Prelude.Text.{append, strip}
use crypto_arc_v.HotWallet.Cipher.{
  Bytes, IsBytes, Crypto, IsCrypto, Sealed, encrypt, decrypt, xor_stream, derive_keys, same_bytes,
}
use crypto_arc_v.HotWallet.Cipher.Sealing.{decrypt_authentic, decrypt-encrypt, mac_of}
use crypto_arc_v.HotWallet.Vault.{
  Signer, HotWalletVault, is_some, status, can_sign, sign_transaction, require_unlocked_keypair,
}
use crypto_arc_v.HotWallet.Vault.Unlocking.{
  Call, import_call, lock_call, unlock_call, run, run-can_sign,
}
use crypto_arc_v.HotWallet.Submit.{
  null, object, end, member, Rpc, simulate_and_submit, simulation_of, simulate, find_member,
}
use crypto_arc_v.HotWallet.Submit.Safety.{IsClean, IsSignedFor, Sends, simulate_and_submit-Sends}

-- Base64: each byte as that many ones and a zero.
unfoldable ones : ℕ → String → String
unfolding append
ones zero s = append "0" s
ones (suc n) s = append "1" (ones n s)

unfoldable written : Bytes → String
unfolding ones
written [] = ""
written (b ∷ bs) = ones b (written bs)

unfoldable read : ℕ → String → Bytes
read n String.[] = []
read n (String.◌∷◌ c s) =
    let more = read (n + 1) s in let next = read 0 s in if code c == 49 then more else n ∷ next

read-ones : (n m : ℕ) (s : String) → read m (ones n s) ≡ (m + n) ∷ read 0 s
unfolding read ones append
read-ones zero m s = ap (λ x. x ∷ read 0 s) (omega arith)
read-ones (suc n) m s = read-ones n (m + 1) s ∙ ap (λ x. x ∷ read 0 s) (omega arith)

read-written : (bs : Bytes) → read 0 (written bs) ≡ bs
unfolding read written
read-written [] = refl
read-written (b ∷ bs) = read-ones b 0 (written bs) ∙ ap2 (omega arith) (read-written bs)
  where
    ap2 : {x y : ℕ} {u v : Bytes} → x ≡ y → u ≡ v → (x ∷ u) ≡ (y ∷ v)
    ap2 p q = cc

abbrev sevens : ℕ → Bytes
sevens zero = []
sevens (suc n) = 7 ∷ sevens n

abbrev crypto : Crypto
crypto = record {
  hmac = λ key message. sevens 32;
  pbkdf2 = λ password salt. sevens 64;
  b64encode = written;
  b64decode = λ s. some (read 0 s);
}

sevens-IsBytes : (n : ℕ) → IsBytes (sevens n)
sevens-IsBytes zero = tt
sevens-IsBytes (suc n) = (omega arith, sevens-IsBytes n)

crypto-IsCrypto : IsCrypto crypto
crypto-IsCrypto = record {
  length-hmac = λ key message. refl;
  hmac-IsBytes = λ key message. sevens-IsBytes 32;
  b64decode-b64encode = λ b. ap some (read-written b);
}

decrypt-encrypt_example :
    (encrypt crypto (1 ∷ []) (2 ∷ []) (3 ∷ 4 ∷ []) "pw" >>= λ sealed. decrypt crypto sealed "pw")
    ≡ ok (3 ∷ 4 ∷ [])
decrypt-encrypt_example =
    decrypt-encrypt crypto crypto-IsCrypto (1 ∷ []) (2 ∷ []) (3 ∷ 4 ∷ []) "pw"
      (omega arith, (omega arith, tt)) refl

-- Sealed under "pw", with the bytes 3 and 4 as the ciphertext.
abbrev sealed : Sealed
sealed = record {
  salt_b64 = written (1 ∷ []);
  nonce_b64 = written (2 ∷ []);
  ciphertext_b64 = written (3 ∷ 4 ∷ []);
  mac_b64 = written (sevens 32);
}

opened : decrypt crypto sealed "pw" ≡ ok (xor_stream crypto (3 ∷ 4 ∷ []) (sevens 32) (2 ∷ []))
unfolding decrypt derive_keys written read ones append same_bytes xor_stream
opened = refl

decrypt_authentic_example :
    (salt nonce ciphertext : Bytes) × (crypto.b64decode sealed.salt_b64 ≡ some salt)
    × (crypto.b64decode sealed.nonce_b64 ≡ some nonce)
    × (crypto.b64decode sealed.ciphertext_b64 ≡ some ciphertext)
    × (crypto.b64decode sealed.mac_b64 ≡ some (mac_of crypto "pw" salt nonce ciphertext))
    × (xor_stream crypto (3 ∷ 4 ∷ []) (sevens 32) (2 ∷ [])
        ≡ xor_stream crypto ciphertext (derive_keys crypto "pw" salt).0 nonce)
decrypt_authentic_example = decrypt_authentic crypto sealed "pw" opened

abbrev signer : Signer ℕ
signer = record {
  pubkey = λ k. "wallet";
  to_bytes = λ k. k ∷ [];
  from_bytes = λ b. some 1;
  encode_secret = λ b t. b;
  decode_secret = λ b. some (b, "wallet");
  decode_text = λ t. some (1 ∷ []);
  encode_text = λ b. "signed";
  message_of = λ b. some b;
  sign_message = λ k m. k ∷ m;
  signature_text = λ b. "sig";
  populate = λ m signature. signature;
}

abbrev empty : HotWalletVault ℕ
empty = record { keypair = none; last_unlock_at = ""; file = none }

abbrev calls : List (Call ℕ)
calls = import_call (ok 1) "pw" "label" [] [] "t" "u" ∷ lock_call ∷ unlock_call "pw" "v" ∷ []

run-can_sign_example :
    ((status signer (run signer crypto calls empty)).sidecar_mismatch ≡ false)
    × (can_sign signer (run signer crypto calls empty)
        ≡ is_some (run signer crypto calls empty).keypair)
run-can_sign_example = run-can_sign signer crypto calls empty tt

abbrev toy_sealed : Sealed
toy_sealed = record { salt_b64 = ""; nonce_b64 = ""; ciphertext_b64 = ""; mac_b64 = "" }

abbrev unlocked : HotWalletVault ℕ
unlocked = record {
  keypair = some 1;
  last_unlock_at = "t";
  file = some (record {
    version = 1;
    wallet_public_key = "wallet";
    label = "l";
    imported_at = "t";
    sealed = toy_sealed;
  });
}

abbrev node : Rpc
node = record {
  simulate_transaction = λ t.
      some (
        object
          (member "result" (object (member "value" (object (member "err" null end)) end)) end));
  send_transaction = λ t. ok "answer";
  dumps = λ j. "{}";
}

sent : Sends signer "signed" (simulate_and_submit signer node "unsigned" "wallet" unlocked).0
unfolding simulate_and_submit sign_transaction require_unlocked_keypair simulation_of simulate strip
    find_member
sent = inl refl

simulate_and_submit-Sends_example :
    IsSignedFor signer "unsigned" "wallet" "signed" unlocked
    × IsClean (node.simulate_transaction "signed")
simulate_and_submit-Sends_example =
    simulate_and_submit-Sends signer node "unsigned" "wallet" "signed" unlocked sent
