-- ===== src/Cpu/Causes.antt =====
-- `enum class ExceptionCause` of core/include/core/RiscvCpu.h, as the numbers that `takeTrap` gets.
use riscv_sym.Base.{ℕ}

abbrev pub illegal_instruction : ℕ
illegal_instruction = 2

abbrev pub breakpoint : ℕ
breakpoint = 3

abbrev pub environment_call_from_u_mode : ℕ
environment_call_from_u_mode = 8

abbrev pub environment_call_from_s_mode : ℕ
environment_call_from_s_mode = 9

abbrev pub environment_call_from_m_mode : ℕ
environment_call_from_m_mode = 11

abbrev pub instruction_page_fault : ℕ
instruction_page_fault = 12

abbrev pub load_page_fault : ℕ
load_page_fault = 13

abbrev pub store_page_fault : ℕ
store_page_fault = 15
