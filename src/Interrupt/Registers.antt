-- ===== src/Interrupt/Registers.antt =====
-- The enumerations of `InterruptRegisterAddress` and `ArmLocalRegisterAddress` in
-- src/inc/memory_map.hpp, and the vectors of `IVT` in src/inc/interrupt.hpp.
use rpi3b.Base.{ℕ, ◌/◌}

pub data Register : Type 0 where
  irq_basic_pending irq_pending1 irq_pending2 fiq_control enable_irqs_1 enable_irqs_2
        enable_basic_irqs disable_irqs_1 disable_irqs_2 disable_basic_irqs :
      Register

abbrev pub index : Register → ℕ
index irq_basic_pending = 0
index irq_pending1 = 1
index irq_pending2 = 2
index fiq_control = 3
index enable_irqs_1 = 4
index enable_irqs_2 = 5
index enable_basic_irqs = 6
index disable_irqs_1 = 7
index disable_irqs_2 = 8
index disable_basic_irqs = 9

-- The word offsets of the per-core registers of the ARM-local block.
pub data LocalRegister : Type 0 where
  control core_timer_prescaler gpu_int_routing pmu_int_routing_set pmu_int_routing_clr core_timer_ls
        core_timer_ms local_int_routing local_timer_control local_timer_write core_timer_irqcntl0
        core_mbox_irqcntl0 core_irq_source0 core_fiq_source0 :
      LocalRegister

abbrev pub local_index : LocalRegister → ℕ
local_index control = 0x00 / 4
local_index core_timer_prescaler = 0x08 / 4
local_index gpu_int_routing = 0x0c / 4
local_index pmu_int_routing_set = 0x10 / 4
local_index pmu_int_routing_clr = 0x14 / 4
local_index core_timer_ls = 0x1c / 4
local_index core_timer_ms = 0x20 / 4
local_index local_int_routing = 0x24 / 4
local_index local_timer_control = 0x34 / 4
local_index local_timer_write = 0x38 / 4
local_index core_timer_irqcntl0 = 0x40 / 4
local_index core_mbox_irqcntl0 = 0x50 / 4
local_index core_irq_source0 = 0x60 / 4
local_index core_fiq_source0 = 0x70 / 4

-- The bits of a per-core source register.
pub data Source : Type 0 where
  cntpsirq cntpnsirq cnthpirq cntvirq mailbox0 mailbox1 mailbox2 mailbox3 gpu pmu axi_quiet
        localtimer :
      Source

abbrev pub source_bit : Source → ℕ
source_bit cntpsirq = 0
source_bit cntpnsirq = 1
source_bit cnthpirq = 2
source_bit cntvirq = 3
source_bit mailbox0 = 4
source_bit mailbox1 = 5
source_bit mailbox2 = 6
source_bit mailbox3 = 7
source_bit gpu = 8
source_bit pmu = 9
source_bit axi_quiet = 10
source_bit localtimer = 11

pub data Vector : Type 0 where
  cur_el_sp0_sync cur_el_sp0_irq cur_el_sp0_fiq cur_el_sp0_serror cur_el_spx_sync cur_el_spx_irq
        cur_el_spx_fiq cur_el_spx_serror lower_el_a64_sync lower_el_a64_irq lower_el_a64_fiq
        lower_el_a64_serror lower_el_a32_sync lower_el_a32_irq lower_el_a32_fiq
        lower_el_a32_serror :
      Vector

abbrev pub vector_number : Vector → ℕ
vector_number cur_el_sp0_sync = 0
vector_number cur_el_sp0_irq = 1
vector_number cur_el_sp0_fiq = 2
vector_number cur_el_sp0_serror = 3
vector_number cur_el_spx_sync = 4
vector_number cur_el_spx_irq = 5
vector_number cur_el_spx_fiq = 6
vector_number cur_el_spx_serror = 7
vector_number lower_el_a64_sync = 8
vector_number lower_el_a64_irq = 9
vector_number lower_el_a64_fiq = 10
vector_number lower_el_a64_serror = 11
vector_number lower_el_a32_sync = 12
vector_number lower_el_a32_irq = 13
vector_number lower_el_a32_fiq = 14
vector_number lower_el_a32_serror = 15
