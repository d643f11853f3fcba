-- ===== src/Prelude/Exits.antt =====
-- What a stretch of the decoder does: it falls through with a value, or jumps
-- to one of the exit labels of its function.
use flow_scanner.Prelude.Tests.{if◌then◌else◌}
use mathlib.Core.Path.{◌≡◌, refl}
use mathlib.Core.Bool.{Bool, true, false}

-- `cross_page` is `goto cross_page_exit`, `error` is `goto error_exit`. `stuck` is no exit of the
-- source: a loop of the model ran out of fuel.
pub data Flow {ℓ} (A : Type ℓ) : Type ℓ where
  ok : A → Flow A
  cross_page : Flow A
  error : Flow A
  stuck : Flow A

infixl 5 ◌>>=◌ ◌>>◌
-- `goto` skips all that follows.
abbrev pub ◌>>=◌ {κ ℓ} : {S : Type κ} {T : Type ℓ} (first : Flow S) (next : S → Flow T) → Flow T
ok value >>= next = next value
stuck >>= next = stuck
error >>= next = error
cross_page >>= next = cross_page

abbrev pub ◌>>◌ {ℓ} : {T : Type ℓ} (first : Flow (Unit {0})) (next : Flow T) → Flow T
first >> next = first >>= λ done. next

-- `P` holds of the value that the flow falls through with; an exit is allowed, running out of fuel is not.
abbrev pub Post {ℓ} : {A : Type ℓ} → (A → Type 0) → Flow A → Type 0
Post P (ok a) = P a
Post P cross_page = Unit
Post P error = Unit
Post P stuck = ⊥

pub Post-bind {ℓ κ} :
    {A : Type ℓ} {B : Type κ} (P : A → Type 0) (Q : B → Type 0) (m : Flow A) (f : A → Flow B)
    → Post P m
    → ((a : A) → P a → Post Q (f a))
    → Post Q (m >>= f)
Post-bind P Q (ok a) f h k = k a h
Post-bind P Q cross_page f h k = tt
Post-bind P Q error f h k = tt
Post-bind P Q stuck f h k = h

pub Post-map {ℓ} :
    {A : Type ℓ} (P Q : A → Type 0) (m : Flow A) → ((a : A) → P a → Q a) → Post P m → Post Q m
Post-map P Q (ok a) k h = k a h
Post-map P Q cross_page k h = tt
Post-map P Q error k h = tt
Post-map P Q stuck k h = h

pub Post-ok {ℓ} : {A : Type ℓ} (P : A → Type 0) (m : Flow A) {a : A} → Post P m → m ≡ ok a → P a
Post-ok P m h e = rw e at h

pub bind_congr {ℓ κ} :
    {A : Type ℓ} {B : Type κ} (P : A → Type 0) (m : Flow A) {f g : A → Flow B}
    → Post P m
    → ((a : A) → P a → f a ≡ g a)
    → (m >>= f) ≡ (m >>= g)
bind_congr P (ok a) h k = k a h
bind_congr P cross_page h k = refl
bind_congr P error h k = refl
bind_congr P stuck h k = refl

pub Post-if {ℓ} :
    {A : Type ℓ} (P : A → Type 0) (b : Bool) (m n : Flow A)
    → (b ≡ true → Post P m)
    → (b ≡ false → Post P n)
    → Post P (if b then m else n)
Post-if P true m n h k = h refl
Post-if P false m n h k = k refl
