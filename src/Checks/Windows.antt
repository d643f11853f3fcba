-- ===== src/Checks/Windows.antt =====
-- Which bytes `check_function_1` looks at.
use flow_scanner.Prelude.{
  ℕ, zero, suc, ◌+◌, ◌-◌, ◌*◌, ◌/◌, ◌%◌, ◌^◌, ◌≤◌, ◌<◌, ◌≡◌, ◌↔◌, refl, sym, ◌∙◌, Bool, true, arith,
  tests, ltb, leb, ◌==◌, if◌then◌else◌, sub64, IsU64, Bool-cases, inl, inr, lt→leb, lt→ltb,
}
use flow_scanner.Decoder.Prefix.{Memory}
use flow_scanner.Checks.Search.{
  shellcode, shellcode_in, check_to_page_end, check_shifted, check_across, page_align_up,
  check_function_1,
}
use flow_scanner.Checks.Find.{Match, shellcode_in_iff}

-- 0 if one of `k` numbers from `i` on has the property, 1 if none has.
abbrev any_from : ℕ → ℕ → (ℕ → Bool) → ℕ
any_from zero i test = 1
any_from (suc k) i test = if test i then 0 else any_from k (i + 1) test

any_from_sound :
    (k i : ℕ) (test : ℕ → Bool)
    → any_from k i test ≡ 0
    → (j : ℕ) × (i ≤ j) × (j < i + k) × (test j ≡ true)
any_from_sound zero i test h = absurd (omega arith)
any_from_sound (suc k) i test h = elim (Bool-cases (test i)) [
  | inl e ↦ (i, omega arith, omega arith, e)
  | inr e ↦
      let (j, a, b, t) = any_from_sound k (i + 1) test (rw e at h) in
      (j, omega arith, omega arith, t)
]

any_from_complete :
    (k i j : ℕ) (test : ℕ → Bool) → i ≤ j → j < i + k → test j ≡ true → any_from k i test ≡ 0
any_from_complete zero i j test a b t = absurd (omega arith)
any_from_complete (suc k) i j test a b t = elim (Bool-cases (test i)) [
  | inl e ↦ rw e refl
  | inr e ↦ rw e (any_from_complete k (i + 1) j test (grind arith) (omega arith) t)
]

-- The size of the window of round `i`: the zone moves on a byte each round, up to the end of the
-- page, which is `room` bytes behind the end of the zone; from there on it shrinks.
abbrev pub window : (size room i : ℕ) → ℕ
window size room i = if ltb i room then size else size - (i - room)

abbrev in_window : Memory → (buffer size room i : ℕ) → Bool
in_window mem buffer size room i = shellcode_in mem (buffer + i) (window size room i)

module _ (mem : Memory) (buffer size room : ℕ) (u : IsU64 size) where
  across :
      (k i : ℕ)
      → i + k ≤ size
      → check_across k i room mem (buffer + i) (window size room i)
        ≡ any_from k i (in_window mem buffer size room)
  unfolding check_across
  across zero i h = refl
  across (suc k) i h =
      let next : (if ltb i room then window size room i else sub64 (window size room i) 1)
          ≡ window size room (i + 1) =
        ground arith in
      let on : buffer + i + 1 ≡ buffer + (i + 1) = omega arith in
      rw (next, on, across k (i + 1) (omega arith)) refl

  shifted :
      (k i : ℕ)
      → i + k ≤ room
      → check_shifted k mem (buffer + i) size ≡ any_from k i (in_window mem buffer size room)
  unfolding check_shifted
  shifted zero i h = refl
  shifted (suc k) i h =
      let on : buffer + i + 1 ≡ buffer + (i + 1) = omega arith in
      let here : ltb i room ≡ true = lt→ltb i room (omega arith) in
      rw (here, on, shifted k (i + 1) (omega arith)) refl

-- The bytes from the end of the zone to the end of its page.
abbrev pub room_behind : ℕ → ℕ
room_behind end = (end + 4095) / 4096 * 4096 - end

module _ (mem : Memory) (buffer size : ℕ) (u : IsU64 size) where
  to_page_end :
      (k i : ℕ)
      → i + k ≤ size
      → check_to_page_end k mem (buffer + i) (size - i) ≡ any_from k i (in_window mem buffer size 0)
  unfolding check_to_page_end
  to_page_end zero i h = refl
  to_page_end (suc k) i h =
      let next : sub64 (size - i) 1 ≡ size - (i + 1) = omega arith in
      let on : buffer + i + 1 ≡ buffer + (i + 1) = omega arith in
      let here : window size 0 i ≡ size - i = ground arith in
      rw (here, next, on, to_page_end k (i + 1) (omega arith)) refl

module _ (checks : ℕ) (mem : Memory) (buffer start end : ℕ) (h : start < end)
    (u : end + 4096 < 2 ^ 64) (c : checks ≤ end - start) where
  small : IsU64 (end - start)
  small = omega arith

  check_function_1-any_from :
      check_function_1 checks mem buffer start end
      ≡ any_from checks 0 (in_window mem buffer (end - start) (room_behind end))
  unfolding check_function_1
  check_function_1-any_from =
      let size : sub64 end start ≡ end - start = omega arith in
      let room : sub64 (page_align_up end) end ≡ room_behind end = omega arith in
      let at : buffer + 0 ≡ buffer = omega arith in
      let whole : end - start - 0 ≡ end - start = omega arith in
      let first : window (end - start) (room_behind end) 0 ≡ end - start = ground arith in
      elim (Bool-cases (end % 4096 == 0)) [
        | inl e ↦
            let none : room_behind end ≡ 0 = ground arith in
            rw (size, lt→leb end start h, e, none)
              (rw (at, whole) at
                (to_page_end mem buffer (end - start) small checks 0 (omega arith)))
        | inr e ↦ elim (Bool-cases (leb checks (room_behind end))) [
          | inl l ↦
              rw (size, lt→leb end start h, e, room, l)
                (rw at at
                  (shifted mem buffer (end - start) (room_behind end) small checks 0 (omega tests)))
          | inr l ↦
              rw (size, lt→leb end start h, e, room, l)
                (rw (at, first) at
                  (across mem buffer (end - start) (room_behind end) small checks 0 (omega arith)))
        ]
      ]

  -- On a zone that is not empty, with no more rounds than the zone has bytes, `check_function_1`
  -- answers 0 exactly if there is a round whose window has the signature at a position with more
  -- than the 11 bytes of the signature left. The window of a round starts a byte behind the one
  -- before it and ends as far behind the zone, but no further than the page of the end of the zone.
  pub check_function_1_windows : (check_function_1 checks mem buffer start end ≡ 0) ↔ (
      (i : ℕ) × (i < checks)
      × ((p : ℕ) × Match mem shellcode
            (buffer + i)
            (buffer + i + (window (end - start) (room_behind end) i - 11))
            p))
  check_function_1_windows = (
    (λ r.
        let (i, a, b, t) =
          any_from_sound checks 0 (in_window mem buffer (end - start) (room_behind end))
            (sym check_function_1-any_from ∙ r) in
        (
          i,
          omega arith,
          (shellcode_in_iff mem (buffer + i) (window (end - start) (room_behind end) i)).0 t,
        )),
    (λ (i, b, m).
        check_function_1-any_from
        ∙ any_from_complete checks 0 i (in_window mem buffer (end - start) (room_behind end))
            (omega arith) (omega arith)
            ((shellcode_in_iff mem (buffer + i) (window (end - start) (room_behind end) i)).1 m)),
  )
