-- ===== src/Bencode/Decimal.antt =====
-- Decimal numbers: what `%d` and `%lld` print.
use lftp.Prelude.{
  ℕ, zero, suc, ◌+◌, ◌-◌, ◌*◌, ◌/◌, ◌%◌, ◌≤◌, ◌<◌, ◌≡◌, refl, ◌∙◌, false, [], ◌∷◌, ◌++◌, Bytes, ltb,
  if◌then◌else◌, arith, if_cases,
}
use lftp.Prelude.Int.{ℤ, pos, negsuc}

-- The digits of `n`. A round for each digit: fuel above `n` is enough.
unfoldable pub digits : ℕ → ℕ → Bytes
digits zero n = []
digits (suc fuel) n =
    let front = digits fuel (n / 10) in
    if ltb n 10 then (b'0' + n) ∷ [] else front ++ (b'0' + n % 10) ∷ []

unfoldable pub decimal : ℕ → Bytes
unfolding digits
decimal n = digits (suc n) n

unfoldable pub decimal_ℤ : ℤ → Bytes
unfolding decimal
decimal_ℤ (pos n) = decimal n
decimal_ℤ (negsuc n) = b'-' ∷ decimal (suc n)

abbrev pub AllDigits : Bytes → Type 0
AllDigits [] = Unit {0}
AllDigits (c ∷ s) = (b'0' ≤ c) × (c ≤ b'9') × AllDigits s

AllDigits-append : (s t : Bytes) → AllDigits s → AllDigits t → AllDigits (s ++ t)
AllDigits-append [] t h k = k
AllDigits-append (c ∷ s) t (a, b, h) k = (a, b, AllDigits-append s t h k)

digits-AllDigits : (fuel n : ℕ) → AllDigits (digits fuel n)
unfolding digits
digits-AllDigits zero n = tt
digits-AllDigits (suc fuel) n =
    if_cases AllDigits (ltb n 10) _ _ (λ h. (omega arith, ground arith, tt))
      λ _. AllDigits-append (digits fuel (n / 10)) _ (digits-AllDigits fuel (n / 10)) (omega arith)

-- The value of digits behind a number.
abbrev pub value : ℕ → Bytes → ℕ
value n [] = n
value n (c ∷ s) = value (n * 10 + (c - b'0')) s

value-append : (n : ℕ) (s t : Bytes) → value n (s ++ t) ≡ value (value n s) t
value-append n [] t = refl
value-append n (c ∷ s) t = value-append (n * 10 + (c - b'0')) s t

digits-value : (fuel n : ℕ) → n < fuel → value 0 (digits fuel n) ≡ n
unfolding digits
digits-value zero n h = absurd (omega arith)
digits-value (suc fuel) n h =
    if_cases (λ (s : Bytes). value 0 s ≡ n) (ltb n 10) _ _ (λ k. omega arith)
      λ k.
        value-append 0 (digits fuel (n / 10)) _
        ∙ omega (arith, digits-value fuel (n / 10) (ground arith))

-- The digits read back as the number.
pub decimal-value : (n : ℕ) → value 0 (decimal n) ≡ n
unfolding decimal
decimal-value n = digits-value (suc n) n (omega arith)

pub decimal-AllDigits : (n : ℕ) → AllDigits (decimal n)
unfolding decimal
decimal-AllDigits n = digits-AllDigits (suc n) n

-- The first digit, which is 0 for the number 0 alone.
pub record Leads (n : ℕ) (s : Bytes) : Type 0 where
  pub first : ℕ
  pub others : Bytes
  pub splits : s ≡ first ∷ others
  pub lone_zero : first ≡ b'0' → (n ≡ 0) × (others ≡ [])

digits-Leads : (fuel n : ℕ) → n < fuel → Leads n (digits fuel n)
unfolding digits
digits-Leads zero n h = absurd (omega arith)
digits-Leads (suc fuel) n h =
    if_cases (Leads n) (ltb n 10) _ _
      (λ k. record {
        first = b'0' + n;
        others = [];
        splits = refl;
        lone_zero = λ e. (omega arith, refl);
      })
      λ k.
        let l = digits-Leads fuel (n / 10) (ground arith) in
        record {
          first = l.first;
          others = l.others ++ (b'0' + n % 10) ∷ [];
          splits = rw l.splits;
          lone_zero = λ e. absurd (omega (arith, (l.lone_zero e).0, leb_false n k));
        }
  where
    leb_false : (n : ℕ) → ltb n 10 ≡ false → 10 ≤ n
    leb_false n h = ground arith

pub decimal-Leads : (n : ℕ) → Leads n (decimal n)
unfolding decimal
decimal-Leads n = digits-Leads (suc n) n (omega arith)
