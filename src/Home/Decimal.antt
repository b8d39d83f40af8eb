-- ===== src/Home/Decimal.antt =====
-- features/home/model/derive-home-model.ts: the clock's texts. A text of digits is the list of their
-- codes.
use Prim.Native.Nat.{◌%◌}
use geoduels.Base.{
  ℕ, zero, suc, ◌+◌, ◌-◌, ◌*◌, ◌/◌, ◌≤◌, ◌<◌, ◌≡◌, refl, List, [], ◌∷◌, ◌++◌, arith, if◌then◌else◌,
  ltb, length, length-append, Bool, true, false, not, ◌==◌, nat_eq, ◌∙◌, inl, inr, ◌⊎◌,
}

-- `String(n)`: the digits, on fuel.
unfoldable pub digits : ℕ → ℕ → List ℕ
digits zero n = []
digits (suc fuel) n =
    let rest = digits fuel (n / 10) ++ ((b'0' + n % 10) ∷ []) in
    if ltb n 10 then (b'0' + n) ∷ [] else rest

unfoldable pub decimal : ℕ → List ℕ
unfolding digits
decimal n = digits (suc n) n

-- `.padStart(2, "0")`.
unfoldable pub pad_two : List ℕ → List ℕ
pad_two [] = b'0' ∷ b'0' ∷ []
pad_two (d ∷ []) = b'0' ∷ d ∷ []
pad_two ds = ds

unfoldable pub minutes_text : ℕ → List ℕ
unfolding decimal pad_two
minutes_text seconds = pad_two (decimal (seconds / 60))

unfoldable pub seconds_text : ℕ → List ℕ
unfolding decimal pad_two
seconds_text seconds = pad_two (decimal (seconds % 60))

-- The number that digits spell, after `n`.
abbrev pub spelled : ℕ → List ℕ → ℕ
spelled n [] = n
spelled n (d ∷ ds) = spelled (n * 10 + (d - b'0')) ds

spelled-append_one :
    (n d : ℕ) (ds : List ℕ) → spelled n (ds ++ (d ∷ [])) ≡ spelled n ds * 10 + (d - b'0')
spelled-append_one n d [] = refl
spelled-append_one n d (e ∷ ds) = spelled-append_one (n * 10 + (e - b'0')) d ds

spelled-digits : (fuel n : ℕ) → n < fuel → spelled 0 (digits fuel n) ≡ n
unfolding digits
spelled-digits zero n h = absurd (omega arith)
spelled-digits (suc fuel) n h = ground (
  arith,
  spelled-append_one 0 (b'0' + n % 10) (digits fuel (n / 10)),
  spelled-digits fuel (n / 10),
)

spelled-pad_two : (ds : List ℕ) → spelled 0 (pad_two ds) ≡ spelled 0 ds
unfolding pad_two
spelled-pad_two [] = refl
spelled-pad_two (d ∷ []) = omega arith
spelled-pad_two (d ∷ e ∷ ds) = refl

length-pad_two : (ds : List ℕ) → length ds ≤ 2 → length (pad_two ds) ≡ 2
unfolding pad_two
length-pad_two [] h = refl
length-pad_two (d ∷ []) h = refl
length-pad_two (d ∷ e ∷ []) h = refl
length-pad_two (d ∷ e ∷ f ∷ ds) h = absurd (omega arith)

length-digits_one : (fuel n : ℕ) → n < 10 → length (digits fuel n) ≤ 1
unfolding digits
length-digits_one zero n h = omega arith
length-digits_one (suc fuel) n h = ground arith

length-digits_two : (fuel n : ℕ) → n < 100 → length (digits fuel n) ≤ 2
unfolding digits
length-digits_two zero n h = omega arith
length-digits_two (suc fuel) n h = ground (
  arith,
  length-digits_one fuel (n / 10),
  length-append (digits fuel (n / 10)) ((b'0' + n % 10) ∷ []),
)

-- Every code is a decimal digit's.
abbrev pub AreDigits : List ℕ → Type 0
AreDigits [] = Unit
AreDigits (d ∷ ds) = (b'0' ≤ d) × (d ≤ b'9') × AreDigits ds

AreDigits-append : (ds es : List ℕ) → AreDigits ds → AreDigits es → AreDigits (ds ++ es)
AreDigits-append [] es v w = w
AreDigits-append (d ∷ ds) es (a, b, v) w = (a, b, AreDigits-append ds es v w)

if_digits :
    (b : Bool) (ds es : List ℕ)
    → (b ≡ true → AreDigits ds)
    → AreDigits es
    → AreDigits (if b then ds else es)
if_digits true ds es v w = v refl
if_digits false ds es v w = w

AreDigits-digits : (fuel n : ℕ) → AreDigits (digits fuel n)
unfolding digits
AreDigits-digits zero n = tt
AreDigits-digits (suc fuel) n =
    let last = n % 10 in
    if_digits (ltb n 10) ((b'0' + n) ∷ []) (digits fuel (n / 10) ++ ((b'0' + last) ∷ []))
      (λ h. (omega arith, ground arith, tt))
      (AreDigits-append (digits fuel (n / 10)) ((b'0' + last) ∷ []) (AreDigits-digits fuel (n / 10))
        (omega arith, omega arith, tt))

AreDigits-pad_two : (ds : List ℕ) → AreDigits ds → AreDigits (pad_two ds)
unfolding pad_two
AreDigits-pad_two [] v = (omega arith, omega arith, (omega arith, omega arith, tt))
AreDigits-pad_two (d ∷ []) v = (omega arith, omega arith, v)
AreDigits-pad_two (d ∷ e ∷ ds) v = v

-- There is a digit, and the first is not 0.
abbrev pub leads : List ℕ → Bool
leads [] = false
leads (d ∷ ds) = not (d == b'0')

leads-append : (ds es : List ℕ) → leads ds ≡ true → leads (ds ++ es) ≡ true
leads-append [] es h = cc
leads-append (d ∷ ds) es h = h

leads-digits : (fuel n : ℕ) → n < fuel → 0 < n → leads (digits fuel n) ≡ true
unfolding digits
leads-digits zero n h k = absurd (omega arith)
leads-digits (suc fuel) n h k =
    ground (
      arith,
      leads-append (digits fuel (n / 10)) ((b'0' + n % 10) ∷ []),
      leads-digits fuel (n / 10),
    )

leads-pad_two :
    (ds : List ℕ) → leads ds ≡ true → (length (pad_two ds) ≡ 2) ⊎ (leads (pad_two ds) ≡ true)
unfolding pad_two
leads-pad_two [] h = inl refl
leads-pad_two (d ∷ []) h = inl refl
leads-pad_two (d ∷ e ∷ ds) h = inr h

-- A number is padded to two digits, or stands as it is, without a zero before it.
decimal-leads : (n : ℕ) → (length (pad_two (decimal n)) ≡ 2) ⊎ (leads (pad_two (decimal n)) ≡ true)
unfolding decimal pad_two
decimal-leads zero = inl refl
decimal-leads (suc n) =
    leads-pad_two (digits (suc (suc n)) (suc n))
      (leads-digits (suc (suc n)) (suc n) (omega arith) (omega arith))

-- The texts of the minutes and of the seconds that are left are decimal digits, and spell,
-- together, those seconds, with less than sixty in the text of the seconds; that has two digits,
-- and the text of the minutes has two digits too or does not start with a zero.
pub clock_text_lem :
    (seconds : ℕ)
    → AreDigits (minutes_text seconds)
      × AreDigits (seconds_text seconds)
      × (spelled 0 (minutes_text seconds) * 60 + spelled 0 (seconds_text seconds) ≡ seconds)
      × (spelled 0 (seconds_text seconds) < 60)
      × (length (seconds_text seconds) ≡ 2)
      × ((length (minutes_text seconds) ≡ 2) ⊎ (leads (minutes_text seconds) ≡ true))
unfolding minutes_text seconds_text decimal
clock_text_lem seconds =
    let m = seconds / 60 in
    let s = seconds % 60 in
    let of_minutes : spelled 0 (pad_two (digits (suc m) m)) ≡ m =
      spelled-pad_two (digits (suc m) m) ∙ spelled-digits (suc m) m (omega arith) in
    let of_seconds : spelled 0 (pad_two (digits (suc s) s)) ≡ s =
      spelled-pad_two (digits (suc s) s) ∙ spelled-digits (suc s) s (omega arith) in
    (
      AreDigits-pad_two (digits (suc m) m) (AreDigits-digits (suc m) m),
      AreDigits-pad_two (digits (suc s) s) (AreDigits-digits (suc s) s),
      omega (arith, of_minutes, of_seconds),
      omega (arith, of_seconds),
      length-pad_two (digits (suc s) s) (length-digits_two (suc s) s (omega arith)),
      decimal-leads m,
    )
