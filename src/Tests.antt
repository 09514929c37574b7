-- ===== src/Tests.antt =====
-- Runs of the model on concrete inputs, and each result of the development at such an input.
mod ParseTests
mod ConfigTests
mod DaemonTests
mod Witnesses
mod StartWitnesses
mod EffectWitnesses
mod TransportWitnesses
mod ClientWitnesses
