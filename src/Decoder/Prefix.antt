-- ===== src/Decoder/Prefix.antt =====
-- `disassemble_code` of libs/zone.c, lines 199 to 307: its locals for the prefixes, and the loop over
-- the prefix bytes between the labels `found_prefixes` and `cont`.
use flow_scanner.Prelude.{
  ℕ, zero, suc, ◌+◌, ◌%◌, Bool, true, false, ◌||◌, leb, if◌then◌else◌, Flow, ok, cross_page, stuck,
}
use flow_scanner.Tables.Prefix.{check_prefix}
use flow_scanner.Tables.Tests.{
  check_vex_2, check_vex_3, check_evex, check_rex, check_rexw, check_prefix_66, check_prefix_67,
}
use flow_scanner.Instruction.{word_size, dword_size}

-- The bytes that a pointer can read, by address.
abbrev pub Memory : Type 0
Memory = ℕ → ℕ

-- `*(uint8_t *)a`
unfoldable pub byte : Memory → ℕ → ℕ
byte mem a = mem a % 256

-- The locals that the prefixes of an instruction set.
pub record Prefixes : Type 0 where
  pub cur : ℕ
  pub num_prefixes : ℕ
  pub prefix_byte : ℕ
  pub m_mmmm_byte : ℕ
  pub rex_w_found : Bool
  pub evex_pref_found : Bool
  pub vex_pref_found : Bool
  pub ddef : ℕ
  pub mdef : ℕ

-- Their values at the start of a round: declared so, and reset so at the end of the round before.
-- `prefix_byte` and `m_mmmm_byte` are not reset; each is written before it is read.
unfoldable pub no_prefixes : ℕ → Prefixes
no_prefixes cur = record {
  cur = cur;
  num_prefixes = 0;
  prefix_byte = 0;
  m_mmmm_byte = 0;
  rex_w_found = false;
  evex_pref_found = false;
  vex_pref_found = false;
  ddef = dword_size;
  mdef = dword_size;
}

-- Where the tests of one byte jump to: `goto cont` or `goto skip_byte`.
pub data PrefixStep : Type 0 where
  cont : Prefixes → PrefixStep
  skip_byte : Prefixes → PrefixStep

-- The EVEX prefix is 4 bytes long, the VEX prefixes are 2 or 3 bytes long.
unfoldable pub evex_prefix : Memory → Prefixes → Prefixes
evex_prefix mem p = record p {
  num_prefixes = p.num_prefixes + 4;
  evex_pref_found = true;
  m_mmmm_byte = byte mem (p.cur + 1);
  cur = p.cur + 4;
}

unfoldable pub vex_prefix : Memory → ℕ → Prefixes → Prefixes
vex_prefix mem b p = record p {
  num_prefixes = p.num_prefixes + (if check_vex_2 b then 2 else 3);
  vex_pref_found = true;
  m_mmmm_byte = if check_vex_3 b then byte mem (p.cur + 1) else p.m_mmmm_byte;
  cur = p.cur + (if check_vex_2 b then 2 else 3);
}

-- The tests of the byte `b` at `p.cur`.
unfoldable pub prefix_test : Memory → ℕ → Prefixes → PrefixStep
unfolding evex_prefix vex_prefix
prefix_test mem b p =
    if check_prefix b
    then if check_evex b
      then cont (evex_prefix mem p)
      else if check_vex_2 b || check_vex_3 b
      then cont (vex_prefix mem b p)
      else if check_prefix_66 b
      then skip_byte (record p { ddef = word_size })
      else if check_prefix_67 b
      then skip_byte (record p { mdef = word_size })
      else skip_byte p
    else if check_rex b
    then skip_byte (if check_rexw b then record p { rex_w_found = true } else p)
    else cont p

-- `prefix_byte = *cur` and its tests.
unfoldable pub prefix_step : Memory → Prefixes → PrefixStep
unfolding prefix_test
prefix_step mem p = prefix_test mem (byte mem p.cur) (record p { prefix_byte = byte mem p.cur })

-- `++cur` and `num_prefixes++` under the label `skip_byte`.
unfoldable pub skip_prefix : Prefixes → Prefixes
skip_prefix p = record p { cur = p.cur + 1; num_prefixes = p.num_prefixes + 1 }

-- A jump to `cont` ends the scan. Under `skip_byte` the next byte is tested, if it lies before
-- `limit`, which is `start + size`.
unfoldable pub scan_round : ℕ → (Prefixes → Flow Prefixes) → PrefixStep → Flow Prefixes
scan_round limit rest (cont q) = ok q
scan_round limit rest (skip_byte q) =
    if leb limit (q.cur + 1) then cross_page else rest (skip_prefix q)

-- From the label `found_prefixes` to the label `cont`.
unfoldable pub scan_prefixes : ℕ → Memory → ℕ → Prefixes → Flow Prefixes
scan_prefixes zero mem limit p = stuck
scan_prefixes (suc fuel) mem limit p =
    scan_round limit (scan_prefixes fuel mem limit) (prefix_step mem p)
