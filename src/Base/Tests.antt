-- ===== src/Base/Tests.antt =====
-- Boolean tests of the client: `===` and the orders on numbers, `===` on texts, truthiness, `??`
-- and `||`, and the conditional.
use Prim.Native.Nat.{ℕ, compare, Ordering}
use Prim.Native.String.{String}
use mathlib.Core.Path.{◌≡◌, refl}
use mathlib.Core.Logic.{◌↔◌, ◌⊎◌, inl, inr}
use mathlib.Core.Bool.{Bool, true, false, not}
use mathlib.Core.Option.{Option, none, some}
use native.Mathlib.Omega.{arith}
use text.Mathlib.Text.{◌==◌ as str_eq}
use text.Mathlib.TextEquality.{eq_iff}

abbrev pub ltb : ℕ → ℕ → Bool
ltb a b = elim (compare a b) [ Ordering.lt ↦ true | _ ↦ false ]

abbrev pub leb : ℕ → ℕ → Bool
leb a b = elim (compare a b) [ Ordering.gt ↦ false | _ ↦ true ]

abbrev nat_beq : ℕ → ℕ → Bool
nat_beq a b = elim (compare a b) [ Ordering.eq ↦ true | _ ↦ false ]

pub nat_beq_iff : (a b : ℕ) → (nat_beq a b ≡ true) ↔ (a ≡ b)
nat_beq_iff a b = ground arith

-- The values that `===` tells apart, with the test that it makes.
pub record StrictEq {ℓ} (A : Type ℓ) : Type ℓ where
  pub same : A → A → Bool
  pub same_iff : (x y : A) → (same x y ≡ true) ↔ (x ≡ y)

instance abbrev pub string_eq : StrictEq String
string_eq = record { same = str_eq; same_iff = eq_iff }

-- JavaScript's `===`.
infix 50 ◌==◌
abbrev pub ◌==◌ {ℓ} : {A : Type ℓ} ⦃strict : StrictEq A⦄ → A → A → Bool
◌==◌ ⦃strict⦄ x y = strict.same x y

instance abbrev pub nat_eq : StrictEq ℕ
nat_eq = record { same = nat_beq; same_iff = nat_beq_iff }

infix 1 if◌then◌else◌
abbrev pub if◌then◌else◌ {ℓ} : {A : Type ℓ} → Bool → A → A → A
if true then x else y = x
if false then x else y = y

-- `!!text`: every text but the empty one is truthy.
abbrev pub truthy : String → Bool
truthy s = not (str_eq s "")

-- `a || b` on texts.
abbrev pub or_text : String → String → String
or_text a b = if truthy a then a else b

-- `a ?? b`, where `none` stands for `undefined` and `null`.
abbrev pub or_else {ℓ} : {A : Type ℓ} → Option A → A → A
or_else none b = b
or_else (some a) b = a

-- `a ?? b`, where `b` may be missing too.
abbrev pub or_option {ℓ} : {A : Type ℓ} → Option A → Option A → Option A
or_option none b = b
or_option (some a) b = some a

abbrev pub is_some {ℓ} : {A : Type ℓ} → Option A → Bool
is_some none = false
is_some (some a) = true

-- `o === a`, false where the optional value is missing.
abbrev pub is_value {ℓ} : {A : Type ℓ} ⦃strict : StrictEq A⦄ → Option A → A → Bool
is_value none a = false
is_value (some b) a = b == a

pub Bool-cases : (b : Bool) → (b ≡ true) ⊎ (b ≡ false)
Bool-cases true = inl refl
Bool-cases false = inr refl

pub Option-cases {ℓ} : {A : Type ℓ} (o : Option A) → (o ≡ none) ⊎ ((a : A) × (o ≡ some a))
Option-cases none = inl refl
Option-cases (some a) = inr (a, refl)
