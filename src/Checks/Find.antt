-- ===== src/Checks/Find.antt =====
-- What `dumb_memmem` finds.
use flow_scanner.Prelude.{
  ℕ, zero, suc, ◌+◌, ◌-◌, ◌≤◌, ◌<◌, ◌≡◌, ◌↔◌, refl, sym, true, false, arith, ltb, List, Option,
  none, some, some_eq, Bool-cases, inl, inr,
}
use flow_scanner.Decoder.Prefix.{Memory}
use flow_scanner.Checks.Search.{matches, memmem_loop, dumb_memmem, shellcode, shellcode_in, is_some}

-- A match at a position from `hs` on and before `end`.
pub record Match (mem : Memory) (ne : List ℕ) (hs end p : ℕ) : Type 0 where
  pub from : hs ≤ p
  pub before : p < end
  pub here : matches mem p ne ≡ true

loop_sound :
    (rounds : ℕ) (mem : Memory) (hs : ℕ) (ne : List ℕ) {p : ℕ}
    → memmem_loop rounds mem hs ne ≡ some p
    → Match mem ne hs (hs + rounds) p
unfolding memmem_loop
loop_sound zero mem hs ne h = cc
loop_sound (suc rounds) mem hs ne {p} h = elim (Bool-cases (matches mem hs ne)) [
  | inl e ↦
      let s : some hs ≡ some p = rw e at h in
      let eq : hs ≡ p = some_eq s in
      record { from = omega arith; before = omega arith; here = rw (sym eq) e }
  | inr e ↦
      let s : memmem_loop rounds mem (hs + 1) ne ≡ some p = rw e at h in
      let f = loop_sound rounds mem (hs + 1) ne s in
      record { from = omega (arith, f.from); before = omega (arith, f.before); here = f.here }
]

not_here :
    (mem : Memory) (ne : List ℕ) (hs q : ℕ)
    → matches mem hs ne ≡ false
    → matches mem q ne ≡ true
    → hs ≤ q
    → hs + 1 ≤ q
not_here mem ne hs q e m h = grind arith

loop_finds :
    (rounds : ℕ) (mem : Memory) (hs : ℕ) (ne : List ℕ) (q : ℕ)
    → hs ≤ q
    → q < hs + rounds
    → matches mem q ne ≡ true
    → (p : ℕ) × (memmem_loop rounds mem hs ne ≡ some p) × (p ≤ q)
unfolding memmem_loop
loop_finds zero mem hs ne q h k m = absurd (omega arith)
loop_finds (suc rounds) mem hs ne q h k m = elim (Bool-cases (matches mem hs ne)) [
  | inl e ↦ (hs, rw e refl, h)
  | inr e ↦
      let (p, s, l) =
        loop_finds rounds mem (hs + 1) ne q (not_here mem ne hs q e m h) (omega arith) m in
      (p, rw e s, l)
]

-- What `dumb_memmem` returns is the address of a match, behind whose first byte more than `ne_len` bytes of the haystack are left.
dumb_memmem-Match :
    (mem : Memory) (haystack hs_len : ℕ) (ne : List ℕ) (ne_len : ℕ) {p : ℕ}
    → dumb_memmem mem haystack hs_len ne ne_len ≡ some p
    → Match mem ne haystack (haystack + (hs_len - ne_len)) p
unfolding dumb_memmem
dumb_memmem-Match mem haystack hs_len ne ne_len h = elim (Bool-cases (ltb hs_len ne_len)) [
  | inl e ↦ absurd (grind arith)
  | inr e ↦ loop_sound (hs_len - ne_len) mem haystack ne (rw e at h)
]

-- If there is a match before the last position where the needle fits, `dumb_memmem` returns one, and no later one.
pub dumb_memmem_finds :
    (mem : Memory) (haystack hs_len : ℕ) (ne : List ℕ) (ne_len q : ℕ)
    → Match mem ne haystack (haystack + (hs_len - ne_len)) q
    → (p : ℕ) × (dumb_memmem mem haystack hs_len ne ne_len ≡ some p)
      × (p ≤ q)
      × Match mem ne haystack (haystack + (hs_len - ne_len)) p
unfolding dumb_memmem
dumb_memmem_finds mem haystack hs_len ne ne_len q m =
    let (p, s, l) = loop_finds (hs_len - ne_len) mem haystack ne q m.from m.before m.here in
    let e : ltb hs_len ne_len ≡ false = ground (arith, m.from, m.before) in
    (p, rw e s, l, loop_sound (hs_len - ne_len) mem haystack ne s)

pub shellcode_in_iff :
    (mem : Memory) (buffer size : ℕ)
    → (shellcode_in mem buffer size ≡ true)
      ↔ ((p : ℕ) × Match mem shellcode buffer (buffer + (size - 11)) p)
shellcode_in_iff mem buffer size = (
  to,
  λ (q, m). let (p, s, l, r) = dumb_memmem_finds mem buffer size shellcode 11 q m in rw s refl,
)
  where
    to :
        shellcode_in mem buffer size ≡ true
        → (p : ℕ) × Match mem shellcode buffer (buffer + (size - 11)) p
    to h = found (dumb_memmem mem buffer size shellcode 11) refl h
      where
        found :
            (r : Option ℕ)
            → dumb_memmem mem buffer size shellcode 11 ≡ r
            → is_some r ≡ true
            → (p : ℕ) × Match mem shellcode buffer (buffer + (size - 11)) p
        found (some p) e h = (p, dumb_memmem-Match mem buffer size shellcode 11 e)
        found none e h = cc
