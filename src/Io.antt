-- ===== src/Io.antt =====
-- arch/arm64/include/io.h and the system registers: what the drivers do to the machine, as a trace of
-- events with the newest first. What the machine answers is a parameter, a function of the trace
-- before the access.
use armv8_os.Prelude.{ℕ, ◌%◌, ◌^◌, List, ◌∷◌}

-- The system registers that the C code names; `mie` is a CSR of the riscv drivers.
pub data SysReg : Type 0 where
  icc_sre_el1 icc_igrpen1_el1 icc_pmr_el1 icc_eoir1_el1 icc_iar1_el1 : SysReg
  cntpct_el0 cntfrq_el0 cntp_ctl_el0 cntp_tval_el0 daif daifset daifclr : SysReg

-- `read` and `write` have the access's width in bits and the address.
pub data Event : Type 0 where
  read write : (width addr val : ℕ) → Event
  mrs msr : SysReg → (val : ℕ) → Event
  dmb_oshst isb : Event
  dependency : (val : ℕ) → Event

abbrev pub Trace : Type 0
Trace = List Event

pub record Bus : Type 0 where
  pub answer : Trace → (width addr : ℕ) → ℕ
  pub sysreg : Trace → SysReg → ℕ

-- strb, strh, str: the low bits of the register.
abbrev pub raw_write : (width val addr : ℕ) → Trace → Trace
raw_write width val addr t = Event.write width addr (val % 2 ^ width) ∷ t

abbrev pub iowmb : Trace → Trace
iowmb t = dmb_oshst ∷ t

abbrev pub iormb : ℕ → Trace → Trace
iormb v t = dependency v ∷ t

abbrev pub writeb : (val addr : ℕ) → Trace → Trace
writeb val addr t = raw_write 8 val addr (iowmb t)

abbrev pub writel : (val addr : ℕ) → Trace → Trace
writel val addr t = raw_write 32 val addr (iowmb t)

abbrev writew : (val addr : ℕ) → Trace → Trace
writew val addr t = raw_write 16 val addr (iowmb t)

-- The accesses without a barrier.
abbrev writeb_relaxed : (val addr : ℕ) → Trace → Trace
writeb_relaxed val addr t = raw_write 8 val addr t

abbrev writew_relaxed : (val addr : ℕ) → Trace → Trace
writew_relaxed val addr t = raw_write 16 val addr t

abbrev writel_relaxed : (val addr : ℕ) → Trace → Trace
writel_relaxed val addr t = raw_write 32 val addr t

abbrev writeq_relaxed : (val addr : ℕ) → Trace → Trace
writeq_relaxed val addr t = raw_write 64 val addr t

abbrev pub write_sysreg : SysReg → ℕ → Trace → Trace
write_sysreg r val t = msr r val ∷ t

module _ (bus : Bus) where
  -- ldrb, ldrh, ldr
  abbrev pub raw_read : (width addr : ℕ) → Trace → ℕ × Trace
  raw_read width addr t =
      let v = bus.answer t width addr % 2 ^ width in (v, Event.read width addr v ∷ t)

  abbrev readb_relaxed : ℕ → Trace → ℕ × Trace
  readb_relaxed addr t = raw_read 8 addr t

  abbrev readw_relaxed : ℕ → Trace → ℕ × Trace
  readw_relaxed addr t = raw_read 16 addr t

  abbrev readl_relaxed : ℕ → Trace → ℕ × Trace
  readl_relaxed addr t = raw_read 32 addr t

  abbrev readq_relaxed : ℕ → Trace → ℕ × Trace
  readq_relaxed addr t = raw_read 64 addr t

  abbrev readw : ℕ → Trace → ℕ × Trace
  readw addr t = let (v, t') = readw_relaxed addr t in (v, iormb v t')

  abbrev readq : ℕ → Trace → ℕ × Trace
  readq addr t = let (v, t') = readq_relaxed addr t in (v, iormb v t')

  abbrev pub readb : ℕ → Trace → ℕ × Trace
  readb addr t = let (v, t') = raw_read 8 addr t in (v, iormb v t')

  abbrev pub readl : ℕ → Trace → ℕ × Trace
  readl addr t = let (v, t') = raw_read 32 addr t in (v, iormb v t')

  -- mrs of a register of `width` bits that the caller keeps.
  abbrev pub read_sysreg : (width : ℕ) → SysReg → Trace → ℕ × Trace
  read_sysreg width r t = let v = bus.sysreg t r % 2 ^ width in (v, mrs r v ∷ t)
