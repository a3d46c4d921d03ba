-- ===== src/Examples.antt =====
-- Tests: each main theorem applied to concrete inputs.
pub mod Keys
pub mod Sorting
pub mod RingTests
pub mod ServiceTests
pub mod DispatcherTests
pub mod RpcTests
pub mod GateTests
pub mod TcpTests
pub mod ProcessTests
pub mod AgreementTests
pub mod EtcdLog
pub mod DiscoveryTests
pub mod ClearingTests
pub mod AppTests
pub mod DeliveryTests
pub mod LimitTests
pub mod LifeTests
