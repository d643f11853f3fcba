-- ===== src/Decoder/Operand.antt =====
-- The ModR/M and SIB bytes in `disassemble_code` of libs/zone.c, lines 664 to 806.
use flow_scanner.Prelude.{
  ℕ, ◌+◌, Bool, not, ◌&&◌, ltb, ◌==◌, if◌then◌else◌, Flow, ok, error, ◌>>=◌, ◌>>◌,
}
use flow_scanner.Tables.Evex.{check_op_code_ext}
use flow_scanner.Tables.Tests.{check_imm64, check_off64}
use flow_scanner.Instruction.{
  byte_size, word_size, dword_size, modrm_mod, modrm_reg_opcode, modrm_r_m, sib_base, indirect,
  indirect_disp8, indirect_disp32, register, eip_disp32, sib, sib_displacement,
}
use flow_scanner.Decoder.Prefix.{Memory, byte}
use flow_scanner.Decoder.Classify.{ext_type}
use flow_scanner.Decoder.Vex.{Operands, Route, check_mod_rm_byte, no_modrm_byte, next}
use flow_scanner.Decoder.Opcode.{check_cross_page}

abbrev pub disp32 : ℕ → ℕ
disp32 mdef = if mdef == 2 then word_size else dword_size

abbrev pub has_extension : Operands → Bool
has_extension o = not o.multibyte && check_op_code_ext o.op

-- The SIB byte `s`, which `o.cur` points at, behind the ModR/M byte `m`.
unfoldable pub sib_disp : ℕ → ℕ → Operands → ℕ → Operands
sib_disp mdef m o s = record o {
  msize =
      o.msize
      + (if sib_base s == sib_displacement && modrm_mod m == indirect then disp32 mdef else 0);
}

-- The SIB byte, where the ModR/M byte `m` asks for one.
unfoldable pub sib_byte : Memory → ℕ → ℕ → ℕ → Operands → Flow Operands
sib_byte mem limit mdef m o =
    if modrm_r_m m == sib
    then (do
      check_cross_page limit (o.cur + 1)
      ok (sib_disp mdef m (record o { cur = o.cur + 1 }) (byte mem (o.cur + 1))))
    else ok o

-- The addressing form of the ModR/M byte `m`, which `o.cur` points at.
unfoldable pub addressing : Memory → ℕ → ℕ → ℕ → Operands → Flow Operands
addressing mem limit mdef m o =
    if modrm_mod m == register
    then ok o
    else if modrm_mod m == indirect
    then sib_byte mem limit mdef m
        (record o { msize = o.msize + (if modrm_r_m m == eip_disp32 then disp32 mdef else 0) })
    else if modrm_mod m == indirect_disp8
    then sib_byte mem limit mdef m (record o { msize = o.msize + byte_size })
    else if modrm_mod m == indirect_disp32
    then sib_byte mem limit mdef m (record o { msize = o.msize + disp32 mdef })
    else error

-- The ModR/M byte `m`, which `o.cur` points at: the opcode extension, then the addressing form.
unfoldable pub mod_rm : Memory → ℕ → ℕ → ℕ → Operands → Flow Operands
mod_rm mem limit mdef m o =
    if has_extension o && ltb 7 (modrm_reg_opcode m)
    then error
    else addressing mem limit mdef m (record o {
      instruction_type =
          if has_extension o
          then ext_type o.op (modrm_reg_opcode m) o.instruction_type
          else o.instruction_type;
    })

unfoldable pub mod_rm_byte : Memory → ℕ → ℕ → Operands → Flow Operands
mod_rm_byte mem limit mdef o = do
  check_cross_page limit (o.cur + 1)
  mod_rm mem limit mdef (byte mem (o.cur + 1)) (record o { cur = o.cur + 1 })

-- REX.W changes the sizes of the operands of some moves.
unfoldable pub rex_w_sizes : Bool → Operands → Operands
rex_w_sizes rex_w_found o =
    if rex_w_found && not o.multibyte
    then record o {
      dsize = if check_imm64 o.op then 8 else o.dsize;
      msize = if check_off64 o.op then 8 else o.msize;
    }
    else o

-- From the end of the opcode to the label `next`.
unfoldable pub decode_operands : Memory → ℕ → ℕ → Bool → Route → Operands → Flow Operands
decode_operands mem limit mdef rex_w_found check_mod_rm_byte o = do
  o' ← mod_rm_byte mem limit mdef o
  ok (rex_w_sizes rex_w_found o')
decode_operands mem limit mdef rex_w_found no_modrm_byte o = ok (rex_w_sizes rex_w_found o)
decode_operands mem limit mdef rex_w_found next o = ok o
