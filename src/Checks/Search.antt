-- ===== src/Checks/Search.antt =====
-- libs/check_functions/check_functions.c: a search for a signature in the bytes of a zone.
use flow_scanner.Prelude.{
  ℕ, zero, suc, ◌+◌, ◌-◌, ◌/◌, ◌*◌, ◌%◌, ◌^◌, Bool, true, false, ◌&&◌, ltb, leb, ◌==◌,
  if◌then◌else◌, sub64, List, [], ◌∷◌, Option, none, some,
}
use flow_scanner.Decoder.Prefix.{Memory, byte}

-- memcmp(hs, ne, ne_len) == 0, where `ne` has `ne_len` bytes.
abbrev pub matches : Memory → ℕ → List ℕ → Bool
matches mem hs [] = true
matches mem hs (x ∷ ne) = byte mem hs == x && matches mem (hs + 1) ne

-- The loop of `dumb_memmem`, with `end - hs` rounds left.
unfoldable pub memmem_loop : ℕ → Memory → ℕ → List ℕ → Option ℕ
memmem_loop zero mem hs ne = none
memmem_loop (suc rounds) mem hs ne =
    let rest = memmem_loop rounds mem (hs + 1) ne in if matches mem hs ne then some hs else rest

unfoldable pub dumb_memmem : Memory → ℕ → ℕ → List ℕ → ℕ → Option ℕ
dumb_memmem mem haystack hs_len ne ne_len =
    if ltb hs_len ne_len then none else memmem_loop (hs_len - ne_len) mem haystack ne

-- shellcodes[1], of which 11 bytes are looked for.
abbrev pub shellcode : List ℕ
shellcode = 0x57 ∷ 0x6a ∷ 0x23 ∷ 0x58 ∷ 0x6a ∷ 0x00 ∷ 0x6a ∷ 0x05 ∷ 0x48 ∷ 0x89 ∷ 0xe7 ∷ []

abbrev pub is_some : Option ℕ → Bool
is_some none = false
is_some (some p) = true

abbrev pub shellcode_in : Memory → ℕ → ℕ → Bool
shellcode_in mem buffer size = is_some (dumb_memmem mem buffer size shellcode 11)

-- The three loops, with `checks` rounds left. In the third `i` is the round and `until_end` the
-- number of bytes from the end of the zone to the end of its page; `size--` gives the size before.
unfoldable pub check_to_page_end : ℕ → Memory → ℕ → ℕ → ℕ
check_to_page_end zero mem buffer size = 1
check_to_page_end (suc checks) mem buffer size =
    let rest = check_to_page_end checks mem (buffer + 1) (sub64 size 1) in
    if shellcode_in mem buffer size then 0 else rest

unfoldable pub check_shifted : ℕ → Memory → ℕ → ℕ → ℕ
check_shifted zero mem buffer size = 1
check_shifted (suc checks) mem buffer size =
    let rest = check_shifted checks mem (buffer + 1) size in
    if shellcode_in mem buffer size then 0 else rest

unfoldable pub check_across : ℕ → ℕ → ℕ → Memory → ℕ → ℕ → ℕ
check_across zero i until_end mem buffer size = 1
check_across (suc checks) i until_end mem buffer size =
    let rest =
      check_across checks (i + 1) until_end mem (buffer + 1)
        (if ltb i until_end then size else sub64 size 1) in
    if shellcode_in mem buffer size then 0 else rest

-- PAGE_ALIGN_UP of libs/utils.h, for pages of 4096 bytes.
abbrev pub page_align_up : ℕ → ℕ
page_align_up addr = (addr + 4095) / 4096 * 4096 % 2 ^ 64

-- `num_of_sync_checks` is a parameter of the module, taken not to be negative here.
unfoldable pub check_function_1 : ℕ → Memory → ℕ → ℕ → ℕ → ℕ
check_function_1 num_of_sync_checks mem buffer start end =
    let size = sub64 end start in
    if leb end start
    then 1
    else if end % 4096 == 0
    then check_to_page_end num_of_sync_checks mem buffer size
    else if leb num_of_sync_checks (sub64 (page_align_up end) end)
    then check_shifted num_of_sync_checks mem buffer size
    else check_across num_of_sync_checks 0 (sub64 (page_align_up end) end) mem buffer size
