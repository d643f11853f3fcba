-- ===== src/CrossPages/Flags.antt =====
-- What find_page_cross_pages_integrity answers behind a registration.
use flow_scanner.Prelude.{
  ℕ, ◌≡◌, refl, sym, ap, ◌∙◌, Bool, true, false, arith, ◌==◌, if◌then◌else◌, Bool-cases, inl, inr,
  ◌&&◌, some, none, List, [], ◌∷◌, some_eq, Option-cases, bit_or,
}
use flow_scanner.CrossPages.{
  CrossNode, is_cross, page_of, find_cross, find_page_cross_pages_integrity, keep_node, or_flags,
  register_page_cross_pages_integrity,
}
use Prim.Native.Nat.{bit_or-bitwise}

abbrev the_same : (pid page other at : ℕ) → Bool
the_same pid page other at = page == at && pid == other

is_cross-the_same :
    (pid page other at : ℕ) (node : CrossNode)
    → is_cross pid page node ≡ true
    → is_cross other at node ≡ the_same pid page other at
is_cross-the_same pid page other at node h =
    let a : node.address ≡ page = ground arith in
    let p : node.pid ≡ pid = ground arith in
    ap (λ x. x == at && node.pid == other) a ∙ ap (λ x. page == at && x == other) p

the_same-is_cross :
    (pid page other at : ℕ) (node : CrossNode)
    → the_same pid page other at ≡ true
    → is_cross other at node ≡ is_cross pid page node
the_same-is_cross pid page other at node h =
    let a : at ≡ page = ground arith in let p : other ≡ pid = ground arith in rw (a, p) refl

if_both : (c : Bool) (x y z : ℕ) → (if c then x else z) ≡ (if c then x else (if c then y else z))
if_both true x y z = refl
if_both false x y z = refl

or_flags-absent :
    (nodes : List CrossNode) (pid page flags : ℕ)
    → or_flags nodes pid page flags ≡ none
    → find_cross nodes pid page ≡ 0
unfolding or_flags find_cross keep_node
or_flags-absent [] pid page flags h = refl
or_flags-absent (node ∷ nodes) pid page flags h = elim (Bool-cases (is_cross pid page node)) [
  | inl e ↦
      let marked : CrossNode = record {
        pid = node.pid;
        address = node.address;
        flags = bit_or node.flags flags;
      } in
      let wrong : some (marked ∷ nodes) ≡ none = rw e at h in cc
  | inr e ↦ elim (Option-cases (or_flags nodes pid page flags)) [
    | inl n ↦ rw e (or_flags-absent nodes pid page flags n)
    | inr (marked, n) ↦ let wrong : some (node ∷ marked) ≡ none = rw (e, n) at h in cc
  ]
]

or_flags-find :
    (nodes marked : List CrossNode) (pid page flags other at : ℕ)
    → or_flags nodes pid page flags ≡ some marked
    → find_cross marked other at ≡ (
        if the_same pid page other at
        then bit_or (find_cross nodes pid page) flags
        else find_cross nodes other at)
unfolding or_flags find_cross keep_node
or_flags-find [] marked pid page flags other at h = cc
or_flags-find (node ∷ nodes) marked pid page flags other at h =
    elim (Bool-cases (is_cross pid page node)) [
      | inl e ↦
          let new : CrossNode = record {
            pid = node.pid;
            address = node.address;
            flags = bit_or node.flags flags;
          } in
          let s : new ∷ nodes ≡ marked = some_eq (rw e at h) in
          rw (sym s, e, is_cross-the_same pid page other at node e)
            (if_both (the_same pid page other at) (bit_or node.flags flags) node.flags
              (find_cross nodes other at))
      | inr e ↦ elim (Option-cases (or_flags nodes pid page flags)) [
        | inl n ↦ let wrong : none ≡ some marked = rw (e, n) at h in cc
        | inr (later, n) ↦
            let s : node ∷ later ≡ marked = some_eq (rw (e, n) at h) in
            let law = or_flags-find nodes later pid page flags other at n in
            elim (Bool-cases (the_same pid page other at)) [
              | inl c ↦
                  let same = the_same-is_cross pid page other at node c in
                  let rest : find_cross later other at ≡ bit_or (find_cross nodes pid page) flags =
                    rw c at law in
                  rw (sym s, c, same, e) rest
              | inr c ↦
                  let rest : find_cross later other at ≡ find_cross nodes other at = rw c at law in
                  rw (sym s, c, rest) refl
            ]
      ]
    ]

-- Behind a registration with flags, which finds memory for its node, the flags of the page of the
-- process are those of before or'ed with the new ones, none counting as 0; the flags of all other
-- pages and processes are what they were.
pub register_page_cross_pages_integrity-find :
    (nodes : List CrossNode) (pid start flags other address : ℕ)
    → find_page_cross_pages_integrity
        (register_page_cross_pages_integrity true nodes pid start flags).0
        other
        address
      ≡ (if page_of start == page_of address && pid == other
          then bit_or (find_page_cross_pages_integrity nodes pid start) flags
          else find_page_cross_pages_integrity nodes other address)
unfolding register_page_cross_pages_integrity find_page_cross_pages_integrity find_cross
register_page_cross_pages_integrity-find nodes pid start flags other address =
    let page = page_of start in
    let at = page_of address in
    elim (Option-cases (or_flags nodes pid page flags)) [
      | inl e ↦
          rw
            (
              e,
              register_page_cross_pages_integrity,
              or_flags-absent nodes pid page flags e,
              bit_or-bitwise 0 flags,
            )
            refl
      | inr (marked, e) ↦
          rw (e, register_page_cross_pages_integrity)
            (or_flags-find nodes marked pid page flags other at e)
    ]
