-- ===== src/Decoder/Locality.antt =====
-- The decoder reads nothing that matters outside the bytes from its start to the limit.
use flow_scanner.Prelude.{
  ℕ, zero, suc, ◌+◌, ◌-◌, ◌≤◌, ◌<◌, ◌≡◌, refl, ◌⊎◌, inl, inr, arith, ◌∙◌, Flow, ok, ◌>>=◌,
  cross_page, Bool-cases, leb, tests, ltb, le→leb, bind_congr, sym, ◌||◌,
}
use flow_scanner.Tables.Prefix.{check_prefix}
use flow_scanner.Tables.Tests.{check_evex, check_vex_2, check_vex_3}
use flow_scanner.Decoder.Bounds.{
  prefix_step_advances, Advances, scan_prefixes-Advances, Forward, decode_opcode_forward,
}
use flow_scanner.Decoder.Prefix.{
  Memory, byte, Prefixes, PrefixStep, evex_prefix, vex_prefix, cont, skip_byte, no_prefixes,
  prefix_test, prefix_step, skip_prefix, scan_round, scan_prefixes,
}
use flow_scanner.Decoder.Opcode.{check_cross_page, decode_opcode}
use flow_scanner.Decoder.Operand.{decode_operands}
use flow_scanner.Decoder.Insn.{Insn, insn_of, check_insn, decode_insn}
use flow_scanner.Decoder.SameBytes.{Agree, byte_same, decode_opcode_same, decode_operands_same}

module _ (start limit : ℕ) (mem mem' : Memory) (same : Agree start limit mem mem') where
  -- The scan may read one byte behind the limit, into `m_mmmm_byte`; then `cur` is behind the limit too.
  abbrev Related : Prefixes → Prefixes → Type 0
  Related q q' = (limit ≤ q.cur) × (limit ≤ q'.cur)

  abbrev SameFlow : Flow Prefixes → Flow Prefixes → Type 0
  SameFlow m m' =
      (m ≡ m') ⊎ ((q : Prefixes) × (q' : Prefixes) × (m ≡ ok q) × (m' ≡ ok q') × Related q q')

  prefix_step_same :
      (p : Prefixes) → start ≤ p.cur → p.cur + 1 < limit → prefix_step mem p ≡ prefix_step mem' p
  unfolding prefix_step
  prefix_step_same p h k = rw (
    byte_same start limit mem mem' same p.cur h (omega arith),
    byte_same start limit mem mem' same (p.cur + 1) (omega arith) k,
  )

  abbrev SameStep : PrefixStep → PrefixStep → Type 0
  SameStep t t' =
      (t ≡ t') ⊎ ((q : Prefixes) × (q' : Prefixes) × (t ≡ cont q) × (t' ≡ cont q') × Related q q')

  evex_behind :
      (p : Prefixes) → limit ≤ p.cur + 1 → Related (evex_prefix mem p) (evex_prefix mem' p)
  unfolding evex_prefix
  evex_behind p l = omega arith

  vex_behind :
      (b : ℕ) (p : Prefixes)
      → limit ≤ p.cur + 1
      → Related (vex_prefix mem b p) (vex_prefix mem' b p)
  unfolding vex_prefix
  vex_behind b p l = ground arith

  prefix_test_last :
      (b : ℕ) (p : Prefixes)
      → limit ≤ p.cur + 1
      → SameStep (prefix_test mem b p) (prefix_test mem' b p)
  unfolding prefix_test
  prefix_test_last b p l = elim (Bool-cases (check_prefix b)) [
    | inr e ↦ inl (rw e)
    | inl e ↦ elim (Bool-cases (check_evex b)) [
      | inl f ↦ inr (evex_prefix mem p, evex_prefix mem' p, rw (e, f), rw (e, f), evex_behind p l)
      | inr f ↦ elim (Bool-cases (check_vex_2 b || check_vex_3 b)) [
        | inl g ↦
            inr (
              vex_prefix mem b p,
              vex_prefix mem' b p,
              rw (e, f, g),
              rw (e, f, g),
              vex_behind b p l,
            )
        | inr g ↦ inl (rw (e, f, g))
      ]
    ]
  ]

  prefix_step_cases :
      (p : Prefixes)
      → start ≤ p.cur
      → p.cur < limit
      → SameStep (prefix_step mem p) (prefix_step mem' p)
  prefix_step_cases p h k = elim (Bool-cases (ltb (p.cur + 1) limit)) [
    | inl e ↦ inl (prefix_step_same p h (omega tests))
    | inr e ↦
        unfold prefix_step in
        rw (byte_same start limit mem mem' same p.cur h k) (
          prefix_test_last (byte mem' p.cur) (record p { prefix_byte = byte mem' p.cur })
            (omega tests))
  ]

  scan_round_same :
      (rest rest' : Prefixes → Flow Prefixes) (t t' : PrefixStep)
      → SameStep t t'
      → ((q : Prefixes)
          → t ≡ skip_byte q
          → q.cur + 1 < limit
          → SameFlow (rest (skip_prefix q)) (rest' (skip_prefix q)))
      → SameFlow (scan_round limit rest t) (scan_round limit rest' t')
  unfolding scan_round
  scan_round_same rest rest' t t' (inr (q, q', e, e', r)) k = inr (q, q', rw e, rw e', r)
  scan_round_same rest rest' (cont q) t' (inl e) k = inl (rw (← e))
  scan_round_same rest rest' (skip_byte q) t' (inl e) k =
      rw (← e) (elim (Bool-cases (leb limit (q.cur + 1))) [
        | inl l ↦ rw l (inl refl)
        | inr l ↦ rw l (k q refl (omega tests))
      ])

  scan_prefixes_same :
      (fuel : ℕ) (p : Prefixes)
      → start ≤ p.cur
      → p.cur < limit
      → SameFlow (scan_prefixes fuel mem limit p) (scan_prefixes fuel mem' limit p)
  unfolding scan_prefixes skip_prefix
  scan_prefixes_same zero p h k = inl refl
  scan_prefixes_same (suc fuel) p h k =
      scan_round_same (scan_prefixes fuel mem limit) (scan_prefixes fuel mem' limit)
        (prefix_step mem p) (prefix_step mem' p) (prefix_step_cases p h k)
        (λ q e l. scan_prefixes_same fuel (skip_prefix q) (omega (arith, behind p q e)) l)
    where
      behind : (p q : Prefixes) → prefix_step mem p ≡ skip_byte q → q.cur ≡ p.cur
      behind p q e = (rw e at (prefix_step_advances mem p)).0

  -- What follows the scan in `decode_insn`.
  abbrev after_scan : Memory → ℕ → Prefixes → Flow Insn
  after_scan m cur p = do
    (route, o) ← decode_opcode m limit p
    o' ← decode_operands m limit p.mdef p.rex_w_found route o
    check_insn limit (insn_of p o')

  after_scan_same :
      (cur : ℕ) (p : Prefixes) → start ≤ p.cur → after_scan mem cur p ≡ after_scan mem' cur p
  after_scan_same cur p h = rw (decode_opcode_same start limit mem mem' same p h) (
      bind_congr (λ r. Forward p.cur limit r.1) (decode_opcode mem' limit p)
        (decode_opcode_forward mem' limit p)
        (λ r f. rw (
          decode_operands_same start limit mem mem' same p.mdef p.rex_w_found r.0 r.1
            (omega (arith, f)))))

  after_scan_behind :
      (m : Memory) (cur : ℕ) (q : Prefixes) → limit ≤ q.cur → after_scan m cur q ≡ cross_page
  unfolding decode_opcode check_cross_page
  after_scan_behind m cur q h = rw (le→leb limit q.cur h)

  pub decode_insn_same :
      (cur : ℕ) → start ≤ cur → cur < limit → decode_insn mem limit cur ≡ decode_insn mem' limit cur
  unfolding decode_insn no_prefixes
  decode_insn_same cur h k = elim (scan_prefixes_same (limit - cur) (no_prefixes cur) h k) [
    | inl e ↦ rw e (
        bind_congr (Advances (no_prefixes cur))
          (scan_prefixes (limit - cur) mem' limit (no_prefixes cur))
          (scan_prefixes-Advances (limit - cur) mem' limit (no_prefixes cur) k (omega arith))
          (λ p a. after_scan_same cur p (omega (arith, a))))
    | inr (q, q', e, e', r) ↦
        rw (e, e') (after_scan_behind mem cur q r.0 ∙ sym (after_scan_behind mem' cur q' r.1))
  ]
