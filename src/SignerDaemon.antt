-- ===== src/SignerDaemon.antt =====
-- tools/local_signer_daemon.py: the signer that listens on localhost. Execution holds the request that
-- signs and sends, Probes the health probes that its threads share.
pub mod Execution
pub mod Probes
