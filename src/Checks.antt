-- ===== src/Checks.antt =====
-- Runs of the model on concrete inputs, and the theorems at concrete inputs.
mod Data
mod Libc
mod Printk
mod LinkedList
mod Interrupt
mod Mmu
mod Devices
mod Boot
mod Format
