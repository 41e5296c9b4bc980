-- ===== src/Connection.antt =====
-- One supervised socket of a Connection, connection.go and internal/reconnect/loop.go.
--
-- The children are the loop that dials with back-off (Redial), the supervisor with the reconnect barrier
-- (Supervisor), the wait of a publisher for the barrier (Barrier), the choice of the node to dial and of
-- the socket of a consumer (Nodes), and the options (Options).
pub mod Redial
pub mod Supervisor
pub mod Barrier
pub mod Nodes
pub mod Options
pub mod Checked
pub mod Examples
