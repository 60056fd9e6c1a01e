-- ===== src/Mmu/Sync.antt =====
-- The synchronous exceptions, src/interrupt/interrupt.c. What is printed is left out, and `pid` is that
-- of the current process.
pub mod Write
use sysres_os.Base.{ℕ, ◌/◌, ◌^◌, Bool, true, false, ◌==◌, ◌||◌, if◌then◌else◌, bit_and}
use sysres_os.Step.{panics}
use sysres_os.Mmu.State.{mask, Cmd}
use sysres_os.Mmu.Fault.{
  translation_fault_handler, access_flag_fault_lvl3_handler, permission_fault_handler,
}

module _ (tables : ℕ → ℕ) (heap_begin end_offset pid : ℕ) where
  unfoldable pub instruction_abort_handler : (esr_el far_el : ℕ) → Bool → Cmd (Unit {0})
  instruction_abort_handler esr_el far_el lower_el =
      let instruction_fault_status_code = bit_and esr_el (mask 5 0) in
      if (instruction_fault_status_code == 6) || (instruction_fault_status_code == 7)
      then translation_fault_handler tables heap_begin end_offset far_el lower_el pid
      else if instruction_fault_status_code == 11
      then access_flag_fault_lvl3_handler tables far_el pid
      else if instruction_fault_status_code == 15
      then permission_fault_handler far_el 3 lower_el
      else λ _. panics

  unfoldable pub data_abort_handler : (esr_el far_el : ℕ) → Bool → Cmd (Unit {0})
  data_abort_handler esr_el far_el lower_el =
      let data_fault_status_code = bit_and esr_el (mask 5 0) in
      if (data_fault_status_code == 6) || (data_fault_status_code == 7)
      then translation_fault_handler tables heap_begin end_offset far_el lower_el pid
      else if data_fault_status_code == 11
      then access_flag_fault_lvl3_handler tables far_el pid
      else if data_fault_status_code == 15
      then permission_fault_handler far_el 3 lower_el
      else λ _. panics

  unfoldable pub c_sync_handler : (esr_el far_el : ℕ) → Cmd (Unit {0})
  c_sync_handler esr_el far_el =
      let exception_class = bit_and esr_el 0xfc000000 / 2 ^ 26 in
      if exception_class == 32
      then instruction_abort_handler esr_el far_el true
      else if exception_class == 33
      then instruction_abort_handler esr_el far_el false
      else if exception_class == 36
      then data_abort_handler esr_el far_el true
      else if exception_class == 37
      then data_abort_handler esr_el far_el false
      else λ _. panics
