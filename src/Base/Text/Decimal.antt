-- ===== src/Base/Text/Decimal.antt =====
-- strconv.Itoa on numbers with no sign, and strconv.Atoi.
use Prim.Native.Nat.{◌-◌, ◌*◌, ◌^◌, ℕ, zero, suc, ◌+◌, ◌/◌, ◌%◌, ◌<◌}
use mathlib.Core.List.{[], ◌∷◌}
use mathlib.Core.Logic.{dite}
use mathlib.Core.Path.{◌≡◌, refl}
use mathlib.Core.WellFounded.{Acc}
use mathlib.Core.Bool.{◌&&◌}
use mathlib.Core.Option.{Option, none, some}
use anaysitics_service.Base.Int.{ℤ, pos, negsuc}
use anaysitics_service.Base.Tests.{ltb, leb, nat_eq, if◌then◌else◌}
use native.Mathlib.Decide.{dec_lt}
use native.Mathlib.Omega.{arith}
use anaysitics_service.Base.Text.{Text, text, is_space}
use anaysitics_service.Base.Text.Trim.{IsSolid}
use mathlib.Core.Bool.{false}

reach : (k n : ℕ) → n < k → Acc ◌<◌ n
reach zero n h = absurd (omega arith)
reach (suc k) n h = Acc.intro n (λ m lt. reach k m (omega arith))

-- The digits of a number in front of those behind it.
digits_before : (n : ℕ) → Acc ◌<◌ n → Text → Text
digits_before n (Acc.intro _ smaller) out =
    dite (dec_lt 9 n)
      (λ h. digits_before (n / 10) (smaller (n / 10) (omega arith)) ((b'0' + n % 10) ∷ out))
      (λ _. (b'0' + n) ∷ out)

unfoldable pub itoa : ℕ → Text
unfolding digits_before reach dec_lt
itoa n = digits_before n (reach (suc n) n (omega arith)) []

digit_solid : (d : ℕ) → d < 10 → is_space (b'0' + d) ≡ false
unfolding is_space
digit_solid d h = ground arith

dite_rule :
    {P A : Type 0} (Q : A → Type 0) (d : Dec P) (f : P → A) (g : ¬ P → A)
    → ((p : P) → Q (f p))
    → ((n : ¬ P) → Q (g n))
    → Q (dite d f g)
dite_rule Q (yes p) f g h k = h p
dite_rule Q (no n) f g h k = k n

digits_before-IsSolid :
    (n : ℕ) (a : Acc ◌<◌ n) (out : Text) → IsSolid out → IsSolid (digits_before n a out)
unfolding digits_before
digits_before-IsSolid n (Acc.intro _ smaller) out h =
    dite_rule IsSolid (dec_lt 9 n) _ _
      (λ big.
        digits_before-IsSolid (n / 10) (smaller (n / 10) (omega arith)) _
          (digit_solid (n % 10) (omega arith), h))
      (λ small. (digit_solid n (omega arith), h))

-- A printed number has no white space in it.
pub itoa-IsSolid : (n : ℕ) → IsSolid (itoa n)
unfolding itoa
itoa-IsSolid n = digits_before-IsSolid n (reach (suc n) n (omega arith)) [] tt

-- A run of digits behind a number; nothing else may follow.
unfoldable pub digits_value : ℕ → Text → Option ℕ
digits_value n [] = some n
digits_value n (c ∷ s) =
    let rest = digits_value (n * 10 + (c - b'0')) s in
    if leb b'0' c && leb c b'9' then rest else none

unfoldable pub unsigned : Text → Option ℕ
unsigned [] = none
unsigned (c ∷ s) = digits_value 0 (c ∷ s)

abbrev pub in_range : Option ℕ → Option ℤ
in_range none = none
in_range (some n) = if ltb n (2 ^ 63) then some (pos n) else none

abbrev pub in_negative_range : Option ℕ → Option ℤ
in_negative_range none = none
in_negative_range (some zero) = some (pos 0)
in_negative_range (some (suc n)) = if ltb n (2 ^ 63) then some (negsuc n) else none

-- strconv.Atoi, base 10 with an optional sign, in the range of a 64-bit `int`.
unfoldable pub atoi : Text → Option ℤ
atoi [] = none
atoi (c ∷ s) =
    if nat_eq c b'+'
    then in_range (unsigned s)
    else if nat_eq c b'-'
    then in_negative_range (unsigned s)
    else in_range (unsigned (c ∷ s))

atoi_numbers : (atoi (text "-12") ≡ some (negsuc 11)) × (atoi (text "+07") ≡ some (pos 7))
unfolding atoi unsigned digits_value text
atoi_numbers = (refl, refl)

atoi_errors : (atoi (text "9223372036854775808") ≡ none) × (atoi (text "1x") ≡ none)
unfolding atoi unsigned digits_value text
atoi_errors = (refl, refl)

itoa_2040 : itoa 2040 ≡ text "2040"
unfolding itoa text
itoa_2040 = refl

itoa_0 : itoa 0 ≡ text "0"
unfolding itoa text
itoa_0 = refl
