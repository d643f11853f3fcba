-- ===== src/InvalidOp/Settled.antt =====
-- The loop over the blocks of a page of invalid_op_handler of libs/fprobes/fprober_invalid_op.c,
-- which is the jump back to find_another_block, ends.

use flow_scanner.Prelude.{
  ℕ, zero, suc, ◌+◌, ◌-◌, ◌%◌, ◌≤◌, ◌<◌, ◌≡◌, refl, Bool, true, false, arith, ◌==◌, ◌⊎◌, Bool-cases,
  inl, inr, not, Option, some, none, some_eq, IsU64,
}
use flow_scanner.InvalidOp.{
  in_page, memory_at, answer_of, is_error, first_opened, find_first_invalid_opcode_byte,
}
use flow_scanner.InvalidOp.Blocks.{
  PageEnd, not_code, ends_at, goes_on, endless, is_zero, no_exit, joins, found_exit, limit_of,
  after_block, search_blocks,
}
use flow_scanner.Decoder.Prefix.{Memory}
use flow_scanner.Disassemble.{Stats, Disassembly, disassemble_code}
use flow_scanner.Disassemble.Block.{disassemble_code_total}
use flow_scanner.Disassemble.Bounds.{Answer, failed, cut_at, transfer, disassemble_code_bounds}
use flow_scanner.Writers.{Data, invalid_one_byte_opcode}

-- An outcome of the source; on the last page it does not go on.
unfoldable pub is_settled : (last_page : Bool) → PageEnd → Bool
is_settled last_page (not_code start_offset stats) = true
is_settled last_page (ends_at end_offset cut stats) = true
is_settled last_page (goes_on end_offset cut num_of_blocks stats) = not last_page
is_settled last_page endless = false

-- An error, no exit, or a block that is not empty.
abbrev pub Advances : (start end : ℕ) → Disassembly → Type 0
Advances start end d =
    (is_error d.value ≡ true) ⊎ ((is_zero d.value ≡ true) ⊎ ((start < d.end) × (d.end ≤ end)))

Answer-Advances : {start end : ℕ} {d : Disassembly} → Answer start end end d → Advances start end d
unfolding is_error is_zero
Answer-Advances (failed s) = inl refl
Answer-Advances (cut_at e s a b) = inr (inl refl)
Answer-Advances (transfer v e s f a b) = inr (inr (a, b))

pub answer_of-Advances :
    (mem : Memory) (start end : ℕ) (stats : Stats)
    → IsU64 end
    → Advances start end (answer_of (disassemble_code mem start end stats) end stats)
unfolding answer_of is_error
answer_of-Advances mem start end stats u =
    let (d, e) = disassemble_code_total mem start end stats u in
    rw e (elim (disassemble_code_bounds mem start end stats d u e) [
      | inl broken ↦ inl (rw broken refl)
      | inr (a, b, answer) ↦ Answer-Advances answer
    ])

no_exit_settled :
    (next_zone : Option ℕ) (last_page : Bool) (end_offset num_of_blocks : ℕ) (stats : Stats)
    → is_settled last_page (no_exit next_zone last_page end_offset num_of_blocks stats) ≡ true
unfolding no_exit is_settled
no_exit_settled (some next_zone) last_page end_offset num_of_blocks stats = refl
no_exit_settled none true end_offset num_of_blocks stats = refl
no_exit_settled none false end_offset num_of_blocks stats = refl

found_exit_settled :
    (next_zone : Option ℕ) (last_page : Bool) (limit end_offset num_of_blocks : ℕ) (stats : Stats)
    (again : PageEnd)
    → ((end_offset == 4096) ≡ false → is_settled last_page again ≡ true)
    → is_settled last_page
        (found_exit next_zone last_page limit end_offset num_of_blocks stats again)
      ≡ true
unfolding found_exit is_settled
found_exit_settled next_zone true limit end_offset num_of_blocks stats again h = refl
found_exit_settled next_zone false limit end_offset num_of_blocks stats again h =
    elim (Bool-cases (num_of_blocks == limit)) [
      | inl a ↦ rw a refl
      | inr a ↦ elim (Bool-cases (end_offset == 4096)) [
        | inl b ↦ rw (a, b) refl
        | inr b ↦ elim (Bool-cases (joins next_zone end_offset)) [
          | inl c ↦ rw (a, b, c) refl
          | inr c ↦ rw (a, b, c) (h b)
        ]
      ]
    ]

module _ (base : ℕ) (bytes : Data) (next_zone : Option ℕ) (last_page : Bool) (limit : ℕ)
    (inside : IsU64 (base + limit_of next_zone)) (short : limit_of next_zone ≤ 4096) where
  pub search_blocks_settled :
      (fuel start_offset num_of_blocks : ℕ) (stats : Stats)
      → 0 < fuel + (4097 - start_offset)
      → 4096 < fuel + start_offset
      → is_settled last_page
          (search_blocks fuel base bytes next_zone last_page limit start_offset num_of_blocks stats)
        ≡ true
  unfolding search_blocks after_block is_settled
  search_blocks_settled zero start_offset num_of_blocks stats low enough = absurd (omega arith)
  search_blocks_settled (suc fuel) start_offset num_of_blocks stats low enough =
      let start = base + start_offset in
      let end = base + limit_of next_zone in
      let d = answer_of (disassemble_code (memory_at base bytes) start end stats) end stats in
      let again =
        search_blocks fuel base bytes next_zone last_page limit (d.end - base) (num_of_blocks + 1)
          d.stats in
      let found =
        found_exit_settled next_zone last_page limit (d.end - base) (num_of_blocks + 1) d.stats
          again in
      let none_found = no_exit_settled next_zone last_page (d.end - base) num_of_blocks d.stats in
      elim (Bool-cases (is_error d.value)) [
        | inl a ↦ rw a refl
        | inr a ↦ elim (Bool-cases (is_zero d.value)) [
          | inl b ↦ rw (a, b) none_found
          | inr b ↦
              rw (a, b)
                (found (elim (answer_of-Advances (memory_at base bytes) start end stats inside) [
                  | inl x ↦ cc
                  | inr (inl x) ↦ cc
                  | inr (inr (more, most)) ↦ λ e.
                      search_blocks_settled fuel (d.end - base) (num_of_blocks + 1) d.stats
                        (omega arith) (omega arith)
                ]))
        ]
      ]

first_opened_below :
    (length i : ℕ) (bytes : Data) {j : ℕ} → first_opened length i bytes ≡ some j → j < i + length
unfolding first_opened
first_opened_below zero i bytes h = cc
first_opened_below (suc length) i bytes {j} h =
    elim (Bool-cases (bytes i == invalid_one_byte_opcode)) [
      | inl e ↦
          let later : first_opened length (i + 1) bytes ≡ some j = rw e at h in
          let below = first_opened_below length (i + 1) bytes later in omega arith
      | inr e ↦ let here : some i ≡ some j = rw e at h in let same = some_eq here in omega arith
    ]

in_page_short :
    (start_offset : ℕ) (offset : Option ℕ)
    → ((i : ℕ) → offset ≡ some i → start_offset + i ≤ 4096)
    → limit_of (in_page start_offset offset) ≤ 4096
unfolding in_page limit_of
in_page_short start_offset none h = omega arith
in_page_short start_offset (some i) h = elim (Bool-cases (i == 0)) [
  | inl z ↦ rw z (omega arith)
  | inr z ↦ rw z (h i refl)
]

pub limit_short :
    (copied : Option Data) (start : ℕ)
    → limit_of (find_first_invalid_opcode_byte copied start) ≤ 4096
unfolding find_first_invalid_opcode_byte limit_of
limit_short none start = omega arith
limit_short (some bytes) start =
    in_page_short (start % 4096) (first_opened (4096 - start % 4096) 0 bytes)
      (λ i e. let below = first_opened_below (4096 - start % 4096) 0 bytes e in omega arith)
