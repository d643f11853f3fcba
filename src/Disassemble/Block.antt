-- ===== src/Disassemble/Block.antt =====
-- What `disassemble_code` looks for, as a relation: a run of instructions up to the first one that
-- transfers control, and what the function answers for it.
use flow_scanner.Prelude.{
  ℕ, zero, suc, ◌+◌, ◌-◌, ◌≤◌, ◌<◌, ◌≡◌, ◌≢◌, ◌↔◌, refl, sym, ◌∙◌, arith, Flow, ok, cross_page,
  error, stuck, Post-ok, leb, ltb, Bool-cases, inl, inr, tests, false, Option, some, some_eq, none,
  IsU64, ◌⊎◌, ◌==◌, lt→ltb, lt→leb, ne→==, ◌||◌, add64, sub64,
}
use flow_scanner.Prelude.Int.{pos}
use flow_scanner.Decoder.Prefix.{Memory}
use flow_scanner.Decoder.Insn.{Insn, decode_insn}
use flow_scanner.Decoder.Bounds.{Fits, decode_insn-Fits}
use flow_scanner.Disassemble.{
  Stats, count_insn, count_found, found_value, Disassembly, disassembly, disassemble_error,
  disassemble_continue, after_insn, round_of, resume, disassemble_loop, disassemble_code,
}
use mathlib.Core.Path.{subst}

-- `Block mem limit end cur s d`: decoding from `cur` with the counters `s` ends with the answer `d`.
pub data Block (mem : Memory) (limit end : ℕ) : ℕ → Stats → Disassembly → Type 0 where
  -- the last instruction ended exactly at the limit
  at_limit :
      (cur : ℕ) (s : Stats)
      → cur ≡ limit
      → Block mem limit end cur s (disassembly disassemble_continue cur s)
  -- the next instruction crosses the limit
  cut :
      (cur : ℕ) (s : Stats)
      → cur < limit
      → decode_insn mem limit cur ≡ cross_page
      → Block mem limit end cur s (disassembly disassemble_continue cur s)
  -- the next bytes are no instruction
  invalid :
      (cur : ℕ) (s : Stats)
      → cur < limit
      → decode_insn mem limit cur ≡ error
      → Block mem limit end cur s (disassembly disassemble_error end s)
  -- the next instruction transfers control
  found :
      (cur : ℕ) (s : Stats) (i : Insn) (v : ℕ)
      → cur < limit
      → decode_insn mem limit cur ≡ ok i
      → found_value i.instruction_type ≡ some v
      → Block mem limit end cur s (disassembly (pos v) i.cur (count_found s))
  -- the next instruction is counted, and the block goes on behind it
  step :
      (cur : ℕ) (s : Stats) (i : Insn) {d : Disassembly}
      → cur < limit
      → decode_insn mem limit cur ≡ ok i
      → found_value i.instruction_type ≡ none
      → Block mem limit end i.cur (count_insn i.instruction_type i.vector s) d
      → Block mem limit end cur s d

module _ (mem : Memory) (limit end : ℕ) where
  -- A decoded instruction is not empty and ends inside the limit.
  pub decoded :
      (cur : ℕ) (i : Insn)
      → cur < limit
      → decode_insn mem limit cur ≡ ok i
      → (cur < i.cur) × (i.cur ≤ limit)
  decoded cur i h e =
      let f =
        Post-ok (Fits cur limit) (decode_insn mem limit cur) (decode_insn-Fits mem limit cur h) e in
      omega (arith, f)

  decode_insn-ne-stuck : (cur : ℕ) → cur < limit → decode_insn mem limit cur ≢ stuck
  decode_insn-ne-stuck cur h e = rw e at (decode_insn-Fits mem limit cur h)

  -- The rest of the block behind the instruction `i`, where there is one.
  abbrev Rest : ℕ → Stats → Insn → Type 0
  Rest cur s i =
      (d : Disassembly) × Block mem limit end i.cur (count_insn i.instruction_type i.vector s) d

  exists_at :
      (cur : ℕ) (s : Stats) (i : Insn) (v : Option ℕ)
      → cur < limit
      → decode_insn mem limit cur ≡ ok i
      → found_value i.instruction_type ≡ v
      → Rest cur s i
      → (d : Disassembly) × Block mem limit end cur s d
  exists_at cur s i (some v) h e f rest = (_, found cur s i v h e f)
  exists_at cur s i none h e f (d, b) = (d, step cur s i h e f b)

  exists_from :
      (cur : ℕ) (s : Stats) (m : Flow Insn)
      → cur < limit
      → decode_insn mem limit cur ≡ m
      → ((i : Insn) → cur < i.cur → i.cur ≤ limit → Rest cur s i)
      → (d : Disassembly) × Block mem limit end cur s d
  exists_from cur s (ok i) h e k =
      let (a, b) = decoded cur i h e in
      exists_at cur s i (found_value i.instruction_type) h e refl (k i a b)
  exists_from cur s cross_page h e k = (_, cut cur s h e)
  exists_from cur s error h e k = (_, invalid cur s h e)
  exists_from cur s stuck h e k = absurd (decode_insn-ne-stuck cur h e)

  pub Block_exists :
      (fuel cur : ℕ) (s : Stats)
      → cur ≤ limit
      → limit < cur + fuel
      → (d : Disassembly) × Block mem limit end cur s d
  Block_exists zero cur s h f = absurd (omega arith)
  Block_exists (suc fuel) cur s h f = elim (Bool-cases (ltb cur limit)) [
    | inl e ↦ exists_from cur s (decode_insn mem limit cur) (omega tests) refl (λ i a b.
        Block_exists fuel i.cur (count_insn i.instruction_type i.vector s) b (omega arith))
    | inr e ↦ (_, at_limit cur s (omega tests))
  ]

  loop_round :
      (fuel cur : ℕ) (s : Stats) (m : Flow Insn)
      → cur < limit
      → decode_insn mem limit cur ≡ m
      → disassemble_loop (suc fuel) mem end limit cur s
        ≡ resume (disassemble_loop fuel mem end limit) (round_of end limit cur s m)
  unfolding disassemble_loop
  loop_round fuel cur s m h e = rw (lt→ltb cur limit h, e)

  loop_at_limit :
      (fuel cur : ℕ) (s : Stats)
      → cur ≡ limit
      → disassemble_loop (suc fuel) mem end limit cur s
        ≡ some (disassembly disassemble_continue cur s)
  unfolding disassemble_loop
  loop_at_limit fuel cur s h = ground arith

  -- A round that does not find the end of the block, with the rest of the loop known.
  resume_after :
      (fuel : ℕ) (i : Insn) (s : Stats) {d : Disassembly}
      → disassemble_loop (suc fuel) mem end limit i.cur (count_insn i.instruction_type i.vector s)
        ≡ some d
      → resume (disassemble_loop (suc fuel) mem end limit) (after_insn limit i s none) ≡ some d
  unfolding after_insn
  resume_after fuel i s h = elim (Bool-cases (i.cur == limit)) [
    | inl e ↦ rw e (
        rw (loop_at_limit fuel i.cur (count_insn i.instruction_type i.vector s) (ground arith)) at
          h)
    | inr e ↦ rw e h
  ]

  loop_found :
      (fuel : ℕ) {cur : ℕ} (s : Stats) {i : Insn} {v : ℕ}
      → cur < limit
      → decode_insn mem limit cur ≡ ok i
      → found_value i.instruction_type ≡ some v
      → disassemble_loop (suc fuel) mem end limit cur s
        ≡ some (disassembly (pos v) i.cur (count_found s))
  unfolding round_of
  loop_found fuel {cur} s {i} h e k = loop_round fuel cur s (ok i) h e ∙ rw k

  loop_step :
      (fuel : ℕ) {cur : ℕ} (s : Stats) {i : Insn} {d : Disassembly}
      → cur < limit
      → decode_insn mem limit cur ≡ ok i
      → found_value i.instruction_type ≡ none
      → disassemble_loop (suc fuel) mem end limit i.cur (count_insn i.instruction_type i.vector s)
        ≡ some d
      → disassemble_loop (suc (suc fuel)) mem end limit cur s ≡ some d
  unfolding round_of
  loop_step fuel {cur} s {i} h e k r =
      loop_round (suc fuel) cur s (ok i) h e ∙ rw k (resume_after fuel i s r)

  -- With enough fuel the loop answers what the block says.
  pub disassemble_loop-Block :
      {cur : ℕ} {s : Stats} {d : Disassembly}
      → Block mem limit end cur s d
      → (fuel : ℕ) → limit < cur + fuel
      → disassemble_loop fuel mem end limit cur s ≡ some d
  disassemble_loop-Block (at_limit cur s h) zero f = absurd (omega arith)
  disassemble_loop-Block (at_limit cur s h) (suc fuel) f = loop_at_limit fuel cur s h
  disassemble_loop-Block (cut cur s h e) zero f = absurd (omega arith)
  disassemble_loop-Block (cut cur s h e) (suc fuel) f =
      loop_round fuel cur s cross_page h e ∙ (unfold round_of in refl)
  disassemble_loop-Block (invalid cur s h e) zero f = absurd (omega arith)
  disassemble_loop-Block (invalid cur s h e) (suc fuel) f =
      loop_round fuel cur s error h e ∙ (unfold round_of in refl)
  disassemble_loop-Block (found cur s i v h e k) zero f = absurd (omega arith)
  disassemble_loop-Block (found cur s i v h e k) (suc fuel) f = loop_found fuel s h e k
  disassemble_loop-Block (step cur s i h e k b) zero f = absurd (omega arith)
  disassemble_loop-Block (step cur s i h e k b) (suc zero) f =
      absurd (omega (arith, decoded cur i h e))
  disassemble_loop-Block (step cur s i h e k b) (suc (suc fuel)) f =
      loop_step fuel s h e k
        (disassemble_loop-Block b (suc fuel) (omega (arith, decoded cur i h e)))

-- The answer is unique.
pub Block_unique :
    {mem : Memory} {limit end cur : ℕ} {s : Stats} {d d' : Disassembly}
    → Block mem limit end cur s d
    → Block mem limit end cur s d'
    → d ≡ d'
Block_unique {mem} {limit} {end} {cur} b b' = some_eq (
    sym (disassemble_loop-Block mem limit end b (suc limit) (omega arith))
    ∙ disassemble_loop-Block mem limit end b' (suc limit) (omega arith))

module _ (mem : Memory) (start end : ℕ) (s : Stats) where
  loop_of_code :
      0 < start
      → start < end
      → IsU64 end
      → disassemble_code mem start end s ≡ disassemble_loop (suc (end - start)) mem end end start s
  unfolding disassemble_code
  loop_of_code h k u =
      let size : sub64 end start ≡ end - start = omega arith in
      let limit : add64 start (end - start) ≡ end = omega arith in
      let a : (start == 0) ≡ false = ne→== start 0 (omega arith) in
      let b : (end == 0) ≡ false = ne→== end 0 (omega arith) in
      rw (a, b, lt→leb end start k, size, limit) refl

  -- On a non-empty zone that does not start at 0, `disassemble_code` answers `d` exactly when
  -- decoding the zone from its start ends with `d`.
  pub disassemble_code-Block :
      (d : Disassembly)
      → 0 < start
      → start < end
      → IsU64 end
      → (disassemble_code mem start end s ≡ some d) ↔ Block mem end end start s d
  disassemble_code-Block d h k u =
      let (d', b) =
        Block_exists mem end end (suc (end - start)) start s (omega arith) (omega arith) in
      let e =
        loop_of_code h k u
        ∙ disassemble_loop-Block mem end end b (suc (end - start)) (omega arith) in
      (
        (λ r. subst (Block mem end end start s) (some_eq (sym e ∙ r)) b),
        (λ c.
            loop_of_code h k u
            ∙ disassemble_loop-Block mem end end c (suc (end - start)) (omega arith)),
      )

  -- The two guards at the top of the function.
  pub zone_cases :
      (disassemble_code mem start end s ≡ some (disassembly disassemble_error end s))
      ⊎ ((0 < start) × (start < end))
  unfolding disassemble_code
  zone_cases = elim (Bool-cases (start == 0 || end == 0)) [
    | inl e ↦ inl (rw e)
    | inr e ↦ elim (Bool-cases (leb end start)) [
      | inl l ↦ inl (rw (e, l))
      | inr l ↦ inr (ground arith, omega tests)
    ]
  ]

  -- `disassemble_code` returns on every input: the rounds that it is given are enough.
  pub disassemble_code_total :
      IsU64 end → (d : Disassembly) × (disassemble_code mem start end s ≡ some d)
  disassemble_code_total u = elim zone_cases [
    | inl e ↦ (disassembly disassemble_error end s, e)
    | inr (h, k) ↦
        let (d, b) =
          Block_exists mem end end (suc (end - start)) start s (omega arith) (omega arith) in
        (d, (disassemble_code-Block d h k u).1 b)
  ]
