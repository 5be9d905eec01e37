-- ===== src/Drivers.antt =====
-- The drivers of the kernel, src/drivers, but for the interrupt controller, which is Plic.
pub mod Uart
