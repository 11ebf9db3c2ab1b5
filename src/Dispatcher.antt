-- ===== src/Dispatcher.antt =====
-- dispatcher/: the service that runs experiments on one node.
pub mod Tests
pub mod Types
pub mod Registry
