-- ===== src/Tests.antt =====
-- Runs of the modelled functions, and the theorems at concrete inputs.
mod Values
mod Mnemonics
mod PrivateKeys
mod MemGuards
mod Ciphers
mod Exchanges
mod Sessions
mod Seals
mod Aeads
mod Passwords
mod Texts
mod SignWidgets
mod StorageWidgets
mod KeyGenWidgets
mod CipherWidgets
mod HashWidgets
mod KeyExchangeWidgets
