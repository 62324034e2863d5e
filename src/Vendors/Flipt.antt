-- ===== src/Vendors/Flipt.antt =====
-- providers/flipt/pkg: Transport is service/transport/service.go, a client of Flipt, and Provider is
-- provider/provider.go, which evaluates flags with such a service.
pub mod Transport
pub mod Provider
pub mod Laws
