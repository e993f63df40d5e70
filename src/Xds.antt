-- ===== src/Xds.antt =====
-- pkg/amesh/provisioner: the translation of xDS resources into APISIX resources.
pub mod Named
pub mod Exchange
pub mod Envoy
pub mod Patch
pub mod Match
pub mod Fault
pub mod Split
pub mod Cluster
pub mod Externals
pub mod Listener
pub mod VirtualHost
pub mod Provisioner
pub mod Rds
pub mod Cds
pub mod Eds
pub mod Lds
pub mod Translate
pub mod Loop
pub mod Connection
pub mod Create
pub mod Mirror
pub mod Data
