-- ===== src/Mapas.antt =====
-- The process of a map (mapas/): its trainers and PokeNests, the requests on the trainers' sockets,
-- the scheduler and the deadlock detection.
pub mod State
pub mod Solicitudes
pub mod Planificacion
pub mod Turnos
pub mod Conexiones
pub mod Cuentas
pub mod Deadlock
mod Examples
