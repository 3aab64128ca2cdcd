-- ===== src/Networking.antt =====
-- src/networking: addresses, the access control list and the PROXY protocol header.
pub mod Addr
pub mod Acl
pub mod ProxyProtocol
pub mod Proxy
pub mod Tls
mod Tests
