-- ===== src/Tests.antt =====
-- The theorems at concrete inputs, and runs of the modelled code.
mod Utils
mod Files
mod Http
mod H2
mod H2Connections
mod Servers
mod H3Connections
mod Proxies
mod Redirects
mod Sockets
mod Lifespans
mod Wsgi
mod Connections
