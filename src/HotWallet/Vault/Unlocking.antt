-- ===== src/HotWallet/Vault/Unlocking.antt =====
-- Importing, locking and unlocking.
use crypto_arc_v.Prelude.{
  ◌≡◌, inl, inr, refl, sym, String, Bool, true, false, not, ◌&&◌, Option, some, none, List, [], ◌∷◌,
  arith, subst, is_empty, str_eq, eq_iff, eq_refl, Option-cases,
}
use crypto_arc_v.Prelude.Result.{Result, ok, err, ◌>>=◌, Result-cases, ok_injective}
use crypto_arc_v.Prelude.Text.{strip}
use crypto_arc_v.HotWallet.Cipher.{Bytes, IsBytes, Crypto, IsCrypto, Sealed, encrypt, decrypt}
use crypto_arc_v.HotWallet.Cipher.Sealing.{decrypt-encrypt}
use crypto_arc_v.HotWallet.Vault.{
  Sidecar, Signer, HotWalletVault, current_version, is_some, sidecar_key, keypair_key, status,
  can_sign, lock, clear, import_private_key, unlock,
}

-- What the vault relies on: a key pair is read back from its bytes, and the JSON of the secret from
-- its text.
pub record IsSigner {K : Type 0} (s : Signer K) : Type 0 where
  pub from_bytes-to_bytes : (k : K) → s.from_bytes (s.to_bytes k) ≡ some k
  pub decode_secret-encode_secret :
      (b : Bytes) (t : String) → s.decode_secret (s.encode_secret b t) ≡ some (b, t)
  pub encode_secret-IsBytes : (b : Bytes) (t : String) → IsBytes (s.encode_secret b t)

-- The calls that change the vault; one that raises leaves it as it was.
pub data Call (K : Type 0) : Type 0 where
  import_call : Result K → String → String → Bytes → Bytes → String → String → Call K
  unlock_call : String → String → Call K
  lock_call : Call K
  clear_call : Call K

module _ {K : Type 0} (s : Signer K) where
  abbrev pub Matches : Option K → Option Sidecar → Type 0
  Matches none file = Unit
  Matches (some k) none = ⊥
  Matches (some k) (some p) = p.wallet_public_key ≡ s.pubkey k

  -- The key in memory, if there is one, is the one of the sidecar file.
  abbrev pub IsMatched : HotWalletVault K → Type 0
  IsMatched v = Matches v.keypair v.file

  matched_key :
      (keypair : Option K) (file : Option Sidecar)
      → Matches keypair file
      → (is_some keypair && not (str_eq (sidecar_key file) (keypair_key s keypair))) ≡ false
  matched_key none file m = refl
  matched_key (some k) none m = absurd m
  matched_key (some k) (some p) m = ground (arith, m, eq_refl (s.pubkey k))

  can_sign-IsMatched :
      (v : HotWalletVault K)
      → IsMatched v
      → ((status s v).sidecar_mismatch ≡ false) × (can_sign s v ≡ is_some v.keypair)
  unfolding status can_sign
  can_sign-IsMatched v m =
      let e = matched_key v.keypair v.file m in (e, rw e (and_true (is_some v.keypair)))
    where
      and_true : (b : Bool) → (b && not false) ≡ b
      and_true b = ground arith

  module _ (c : Crypto) where
    import-IsMatched :
        (parsed : Result K) (password label : String) (salt nonce : Bytes) (t u : String)
        (v : HotWalletVault K) {w : HotWalletVault K}
        → import_private_key s c parsed password label salt nonce t u v ≡ ok w
        → IsMatched w
    unfolding import_private_key
    import-IsMatched (err e) password label salt nonce t u v h = absurd (cc)
    import-IsMatched (ok k) password label salt nonce t u v h =
        elim (Result-cases
          (encrypt c salt nonce (s.encode_secret (s.to_bytes k) (s.pubkey k)) password)) [
            | inl (sealed, e) ↦ subst IsMatched (ok_injective (rw e at h)) refl
            | inr (x, e) ↦ absurd (ground arith)
          ]

    unlock-IsMatched :
        (password now : String) (v : HotWalletVault K) {w : HotWalletVault K}
        → unlock s c password now v ≡ ok w
        → IsMatched w
    unfolding unlock
    unlock-IsMatched password now v {w} h = elim (Option-cases v.file) [
      | inl e ↦ absurd (ground arith)
      | inr (p, e) ↦ elim (Result-cases (decrypt c p.sealed password)) [
        | inr (x, d) ↦ absurd (ground arith)
        | inl (plain, d) ↦ elim (Option-cases (s.decode_secret plain)) [
          | inl o ↦ absurd (ground arith)
          | inr (secret, o) ↦ elim (Option-cases (s.from_bytes secret.0)) [
            | inl b ↦ absurd (ground arith)
            | inr (k, b) ↦
                let same : p.wallet_public_key ≡ s.pubkey k =
                  ground (arith, eq_iff (s.pubkey k) p.wallet_public_key) in
                let opened : HotWalletVault K = record v {
                  keypair = some k;
                  last_unlock_at = now;
                } in
                let result : opened ≡ w = ground arith in
                subst IsMatched result (subst (Matches (some k)) (sym e) same)
          ]
        ]
      ]
    ]

    kept : HotWalletVault K → Result (HotWalletVault K) → HotWalletVault K
    kept v (ok w) = w
    kept v (err x) = v

    pub step : Call K → HotWalletVault K → HotWalletVault K
    step (import_call parsed password label salt nonce t u) v =
        kept v (import_private_key s c parsed password label salt nonce t u v)
    step (unlock_call password now) v = kept v (unlock s c password now v)
    step lock_call v = lock s v
    step clear_call v = clear s v

    pub run : List (Call K) → HotWalletVault K → HotWalletVault K
    run [] v = v
    run (a ∷ calls) v = run calls (step a v)

    kept-IsMatched :
        (v : HotWalletVault K) (r : Result (HotWalletVault K))
        → IsMatched v
        → ((w : HotWalletVault K) → r ≡ ok w → IsMatched w)
        → IsMatched (kept v r)
    unfolding kept
    kept-IsMatched v (ok w) m h = h w refl
    kept-IsMatched v (err x) m h = m

    step-IsMatched : (a : Call K) (v : HotWalletVault K) → IsMatched v → IsMatched (step a v)
    unfolding step lock clear
    step-IsMatched (import_call parsed password label salt nonce t u) v m =
        kept-IsMatched v _ m (λ w e. import-IsMatched parsed password label salt nonce t u v e)
    step-IsMatched (unlock_call password now) v m =
        kept-IsMatched v _ m (λ w e. unlock-IsMatched password now v e)
    step-IsMatched lock_call v m = tt
    step-IsMatched clear_call v m = tt

    run-IsMatched :
        (calls : List (Call K)) (v : HotWalletVault K) → IsMatched v → IsMatched (run calls v)
    unfolding run
    run-IsMatched [] v m = m
    run-IsMatched (a ∷ calls) v m = run-IsMatched calls (step a v) (step-IsMatched a v m)

    -- From a vault that is locked or matched, any sequence of imports, unlocks, locks and clears,
    -- failed ones included, leads to a vault with no sidecar mismatch, in which `can_sign` says
    -- exactly whether a key is unlocked.
    pub run-can_sign :
        (calls : List (Call K)) (v : HotWalletVault K)
        → IsMatched v
        → let w = run calls v in
          ((status s w).sidecar_mismatch ≡ false) × (can_sign s w ≡ is_some w.keypair)
    run-can_sign calls v m = can_sign-IsMatched (run calls v) (run-IsMatched calls v m)

    module _ (crypto : IsCrypto c) (signer : IsSigner s) where
      open signer use {from_bytes-to_bytes, decode_secret-encode_secret, encode_secret-IsBytes}

      encrypt_returns :
          (salt nonce plain : Bytes) (password : String) {x : String}
          → is_empty password ≡ false
          → encrypt c salt nonce plain password ≡ err x
          → ⊥
      unfolding encrypt
      encrypt_returns salt nonce plain password h e = cc (rw h at e)

      unlock_sealed :
          (k : K) (password label : String) (salt nonce : Bytes) (t u now : String)
          (v : HotWalletVault K) (sealed : Sealed)
          → (encrypt c salt nonce (s.encode_secret (s.to_bytes k) (s.pubkey k)) password
              ≡ ok sealed)
          → is_empty password ≡ false
          → (import_private_key s c (ok k) password label salt nonce t u v >>= λ w.
              unlock s c password now (lock s w))
            ≡ ok (record v {
              keypair = some k;
              last_unlock_at = now;
              file = some (record {
                version = current_version;
                wallet_public_key = s.pubkey k;
                label = strip label;
                imported_at = t;
                sealed = sealed;
              });
            })
      unfolding import_private_key unlock lock
      unlock_sealed k password label salt nonce t u now v sealed e h =
          let secret = s.encode_secret (s.to_bytes k) (s.pubkey k) in
          let opened : decrypt c sealed password ≡ ok secret =
            rw e at
              (decrypt-encrypt c crypto salt nonce secret password (encode_secret-IsBytes _ _) h) in
          rw e (
            rw opened (
              rw (decode_secret-encode_secret (s.to_bytes k) (s.pubkey k))
                (rw (from_bytes-to_bytes k) (rw (eq_refl (s.pubkey k)) refl))))

      -- A key that is imported under a password that is not empty, and locked, is unlocked by the same
      -- password: the vault then holds the same key pair, and can sign.
      pub unlock-import :
          (k : K) (password label : String) (salt nonce : Bytes) (t u now : String)
          (v : HotWalletVault K)
          → is_empty password ≡ false
          → (w : HotWalletVault K) × ((import_private_key s c (ok k) password label salt nonce t u v
                >>= λ w. unlock s c password now (lock s w))
              ≡ ok w)
            × (w.keypair ≡ some k)
            × (can_sign s w ≡ true)
      unlock-import k password label salt nonce t u now v h =
          let secret = s.encode_secret (s.to_bytes k) (s.pubkey k) in
          elim (Result-cases (encrypt c salt nonce secret password)) [
            | inr (x, e) ↦ absurd (encrypt_returns salt nonce secret password h e)
            | inl (sealed, e) ↦ (
              _,
              unlock_sealed k password label salt nonce t u now v sealed e h,
              refl,
              unfold can_sign status in rw (eq_refl (s.pubkey k)) refl,
            )
          ]
