-- ===== src/Messaging/Service.antt =====
-- application/messaging/service.go: the state of the service, its gates and its broadcasts. The
-- clock and the fresh ids are arguments of the calls; a broadcast is written to the outbox, which
-- is what the port `Broadcaster` is handed, in order.
mod State
mod Rooms
mod Posts
mod Signals
unfoldable pub use State.*
unfoldable pub use Rooms.*
unfoldable pub use Posts.*
unfoldable pub use Signals.*
