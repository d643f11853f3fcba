-- ===== src/Decoder/Length.antt =====
-- How many bytes the opcode and the operands of an instruction take.
use flow_scanner.Prelude.{
  false, ◌⊎◌, inl, inr, ==_iff, tests, cross_page, zero, suc, ℕ, ◌+◌, ◌≤◌, ◌<◌, ◌≡◌, refl, true,
  arith, Flow, Post, Post-if, all_below, all_below_sound, leb, leb→le, ◌==◌, if◌then◌else◌,
}
use flow_scanner.Tables.TwoByte.{check_data1_2}
use flow_scanner.Tables.Tests.{check_data66_2, check_test}
use flow_scanner.Tables.OneByte.{check_data1, check_data2, check_data66}
use flow_scanner.Decoder.Prefix.{
  Memory, Prefixes, PrefixStep, cont, skip_byte, prefix_step, scan_round, skip_prefix,
  scan_prefixes,
}
use flow_scanner.Decoder.Classify.{one_byte_dsize, two_byte_dsize, test_dsize}
use flow_scanner.Decoder.Bounds.{prefix_step_advances}

small_dsize : all_below 256 (λ op. leb (one_byte_dsize 4 op) 4) ≡ true
unfolding all_below one_byte_dsize check_data1 check_data2 check_data66
small_dsize = refl

no_test_dsize :
    all_below 256 (λ op. if check_test op then one_byte_dsize 4 op == 0 else true) ≡ true
unfolding all_below one_byte_dsize check_test check_data1 check_data2 check_data66
no_test_dsize = refl

one_byte_dsize_mono : (ddef op : ℕ) → ddef ≤ 4 → one_byte_dsize ddef op ≤ one_byte_dsize 4 op
unfolding one_byte_dsize
one_byte_dsize_mono ddef op h = ground arith

pub one_byte_dsize-le : (ddef op : ℕ) → ddef ≤ 4 → op < 256 → one_byte_dsize ddef op ≤ 4
one_byte_dsize-le ddef op h k = omega (
  arith,
  one_byte_dsize_mono ddef op h,
  leb→le (one_byte_dsize 4 op) 4
      (all_below_sound 256 (λ x. leb (one_byte_dsize 4 x) 4) op small_dsize k),
)

pub test_dsize-le : (ddef op m : ℕ) → ddef ≤ 4 → test_dsize ddef op m ≤ 4
unfolding test_dsize
test_dsize-le ddef op m h = ground arith

pub no_test : (op : ℕ) → check_test op ≡ true → op < 256 → one_byte_dsize 4 op ≡ 0
no_test op h k = (==_iff _ _).0 (
    rw h at (
      all_below_sound 256 (λ x. if check_test x then one_byte_dsize 4 x == 0 else true) op
        no_test_dsize k))

-- The operand and address sizes that the prefixes choose.
pub record SmallSizes (p : Prefixes) : Type 0 where
  pub operand : p.ddef ≤ 4
  pub address : p.mdef ≤ 4

abbrev SmallStep : PrefixStep → Type 0
SmallStep (cont q) = SmallSizes q
SmallStep (skip_byte q) = SmallSizes q

prefix_step_small : (mem : Memory) (p : Prefixes) → SmallSizes p → SmallStep (prefix_step mem p)
unfolding prefix_step
prefix_step_small mem p h = ground arith

scan_round_small :
    (limit : ℕ) (rest : Prefixes → Flow Prefixes) (t : PrefixStep)
    → SmallStep t
    → ((q : Prefixes)
        → t ≡ skip_byte q
        → q.cur + 1 < limit
        → SmallSizes q
        → Post SmallSizes (rest (skip_prefix q)))
    → Post SmallSizes (scan_round limit rest t)
unfolding scan_round
scan_round_small limit rest (cont q) h k = h
scan_round_small limit rest (skip_byte q) h k =
    Post-if SmallSizes (leb limit (q.cur + 1)) cross_page (rest (skip_prefix q)) (λ _. tt)
      (λ e. k q refl (omega tests) h)

pub scan_prefixes_small :
    (fuel : ℕ) (mem : Memory) (limit : ℕ) (p : Prefixes)
    → p.cur < limit
    → limit ≤ p.cur + fuel
    → SmallSizes p
    → Post SmallSizes (scan_prefixes fuel mem limit p)
unfolding scan_prefixes skip_prefix
scan_prefixes_small zero mem limit p h f s = absurd (omega arith)
scan_prefixes_small (suc fuel) mem limit p h f s =
    scan_round_small limit (scan_prefixes fuel mem limit) (prefix_step mem p)
      (prefix_step_small mem p s)
      (λ q e l t.
        scan_prefixes_small fuel mem limit (skip_prefix q) l (omega (arith, stays p q e))
          (record { operand = t.operand; address = t.address }))
  where
    stays : (p q : Prefixes) → prefix_step mem p ≡ skip_byte q → q.cur ≡ p.cur
    stays p q e = (rw e at (prefix_step_advances mem p)).0

-- The immediate operand of TEST comes instead of those of the tables.
pub one_byte_dsize-test :
    (ddef op test : ℕ)
    → ddef ≤ 4
    → op < 256
    → test ≤ 4
    → (check_test op ≡ false) ⊎ (check_test op ≡ true)
    → (check_test op ≡ false → test ≡ 0)
    → test + one_byte_dsize ddef op ≤ 4
one_byte_dsize-test ddef op test h k t (inl e) z = omega (arith, z e, one_byte_dsize-le ddef op h k)
one_byte_dsize-test ddef op test h k t (inr e) z =
    omega (arith, no_test op e k, one_byte_dsize_mono ddef op h)

small_two_byte : all_below 256 (λ op. leb (two_byte_dsize 4 op) 4) ≡ true
unfolding all_below two_byte_dsize check_data1_2 check_data66_2
small_two_byte = refl

two_byte_dsize_mono : (ddef op : ℕ) → ddef ≤ 4 → two_byte_dsize ddef op ≤ two_byte_dsize 4 op
unfolding two_byte_dsize
two_byte_dsize_mono ddef op h = ground arith

pub two_byte_dsize-le : (ddef op : ℕ) → ddef ≤ 4 → op < 256 → two_byte_dsize ddef op ≤ 4
two_byte_dsize-le ddef op h k = omega (
  arith,
  two_byte_dsize_mono ddef op h,
  leb→le (two_byte_dsize 4 op) 4
      (all_below_sound 256 (λ x. leb (two_byte_dsize 4 x) 4) op small_two_byte k),
)
