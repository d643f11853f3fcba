-- ===== src/Protections/Change.antt =====
-- Which protection change_protection_handler of libs/fprobes/fprobe_change_prot.c leaves.

use flow_scanner.Prelude.{
  ℕ, ◌≡◌, refl, Bool, true, false, arith, ◌==◌, if◌then◌else◌, Bool-cases, inl, inr, ◌&&◌, ◌||◌,
  not, ==_iff, Option,
}
use flow_scanner.Paging.Bits.{test_bit, put_bit, set_bit, clear_bit}
use flow_scanner.Faults.{
  is_excluded, Process, exe_deny_bit, orig_exe_bit, orig_write_bit, write_bit,
}
use flow_scanner.Paging.Flips.{test_bit-put_bit}
use flow_scanner.Protections.{VmFlags, is_ignored, deny_prot, change_protection_handler}

-- The bits of the protection, by what they were and whether the flags of the vm area say that it is
-- writable and was executable.
abbrev pub protected_bit : (prot : ℕ) → (caught : Bool) → (k : ℕ) → Bool
protected_bit prot caught k =
    if k == exe_deny_bit
    then true
    else (if k == orig_exe_bit
        then not (test_bit prot exe_deny_bit) || test_bit prot orig_exe_bit
        else (if caught && k == write_bit
            then false
            else (if caught && k == orig_write_bit then true else test_bit prot k)))

deny_prot_bits : (prot k : ℕ) → test_bit (deny_prot prot) k ≡ protected_bit prot false k
unfolding deny_prot set_bit
deny_prot_bits prot k = elim (Bool-cases (test_bit prot exe_deny_bit)) [
  | inl e ↦ elim (Bool-cases (k == exe_deny_bit)) [
    | inl a ↦ let same = (==_iff k exe_deny_bit).0 a in rw (e, a, same) e
    | inr a ↦ elim (Bool-cases (k == orig_exe_bit)) [
      | inl b ↦ let same = (==_iff k orig_exe_bit).0 b in rw (e, a, b, same) refl
      | inr b ↦ rw (e, a, b) refl
    ]
  ]
  | inr e ↦
      rw
        (
          e,
          test_bit-put_bit (put_bit prot exe_deny_bit true) orig_exe_bit k true,
          test_bit-put_bit prot exe_deny_bit k true,
        )
        (ground arith)
]

module _ {Name : Type 0} (names_library : Name → Bool) (process : Process)
    (vm_file : Option Name) where
  -- change_protection_handler leaves a protection alone for init, for a process that is not hooked
  -- and for an excluded file. Otherwise it sets EXE_DENY_BIT, sets ORIG_EXE_BIT if EXE_DENY_BIT was
  -- clear, clears WRITE_BIT and sets ORIG_WRITE_BIT exactly if the flags of the vm area have VM_WRITE
  -- and VM_WAS_EXECUTABLE, and changes no other bit.
  pub change_protection_handler_bits :
      (vm_flags : VmFlags) (prot k : ℕ)
      → test_bit (change_protection_handler names_library process vm_file vm_flags prot) k ≡ (
          if process.tgid == 1 || not process.hooked || is_excluded names_library vm_file
          then test_bit prot k
          else protected_bit prot (vm_flags.was_executable && vm_flags.write) k)
  unfolding change_protection_handler is_ignored set_bit clear_bit
  change_protection_handler_bits vm_flags prot k =
      elim (Bool-cases
        (process.tgid == 1 || not process.hooked || is_excluded names_library vm_file)) [
          | inl i ↦ rw i refl
          | inr i ↦ elim (Bool-cases (vm_flags.was_executable && vm_flags.write)) [
            | inl c ↦
                rw
                  (
                    i,
                    c,
                    test_bit-put_bit (put_bit (deny_prot prot) write_bit false) orig_write_bit k
                        true,
                    test_bit-put_bit (deny_prot prot) write_bit k false,
                    deny_prot_bits prot k,
                  )
                  (ground arith)
            | inr c ↦ rw (i, c) (deny_prot_bits prot k)
          ]
        ]
