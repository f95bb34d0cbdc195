-- ===== src/HotWallet.antt =====
-- `HotWalletVault` of backend/app/core/hot_wallet.py: the encrypted sidecar file and the signer that is
-- unlocked from it.
pub mod Cipher
pub mod Vault
pub mod Submit
