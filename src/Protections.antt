-- ===== src/Protections.antt =====
-- The handlers of a change of the protection of a vm area: mprotect_handler and
-- change_protection_handler of libs/fprobes/fprobe_change_prot.c.
use flow_scanner.Prelude.{
  ℕ, zero, suc, ◌+◌, ◌-◌, ◌*◌, ◌/◌, ◌%◌, ◌^◌, ◌≤◌, ◌<◌, ◌≡◌, ◌≢◌, ◌↔◌, refl, sym, ap, ◌∙◌, Bool,
  true, false, arith, tests, ltb, leb, ◌==◌, ◌⊎◌, if◌then◌else◌, Bool-cases, inl, inr, ◌&&◌, ◌||◌,
  not, ==_iff, Option, some, none, List, [], ◌∷◌, ◌++◌, some_eq, Option-cases,
}
use flow_scanner.Paging.Bits.{test_bit, put_bit, set_bit, clear_bit}
use flow_scanner.Faults.{
  Process, is_excluded, exe_deny_bit, orig_exe_bit, orig_write_bit, write_bit,
}
pub mod Change

-- The flags of a vm area that the handlers read or change; `was_executable` is VM_WAS_EXECUTABLE.
pub record VmFlags : Type 0 where
  pub write : Bool
  pub exec : Bool
  pub was_executable : Bool

-- Whether the handlers leave the change alone: init, a process that is not hooked, an excluded file.
unfoldable pub is_ignored :
    {Name : Type 0} → (names_library : Name → Bool) → Process → (vm_file : Option Name) → Bool
is_ignored names_library process vm_file =
    process.tgid == 1 || not process.hooked || is_excluded names_library vm_file

-- What the handler writes to the register r10, if it does. mprotect_fixup has its argument newflags on
-- the stack, so this value is not the flags that the vm area gets.
unfoldable pub mprotect_handler :
    {Name : Type 0}
    → (names_library : Name → Bool) → Process
    → (vm_file : Option Name) → (vm_flags newflags : VmFlags) → Option VmFlags
mprotect_handler names_library process vm_file vm_flags newflags =
    if is_ignored names_library process vm_file
    then none
    else some record newflags { was_executable = vm_flags.exec }

-- `vm_page_prot` of the vm area, behind the handler.
unfoldable pub deny_prot : (prot : ℕ) → ℕ
deny_prot prot =
    if test_bit prot exe_deny_bit then prot else set_bit (set_bit prot exe_deny_bit) orig_exe_bit

unfoldable pub change_protection_handler :
    {Name : Type 0}
    → (names_library : Name → Bool) → Process
    → (vm_file : Option Name) → VmFlags
    → (prot : ℕ) → ℕ
change_protection_handler names_library process vm_file vm_flags prot =
    let denied = deny_prot prot in
    if is_ignored names_library process vm_file
    then prot
    else (if vm_flags.was_executable && vm_flags.write
        then set_bit (clear_bit denied write_bit) orig_write_bit
        else denied)
