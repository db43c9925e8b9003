-- ===== src/Prelude/Rest.antt =====
-- The rests of a text.
use lftp.Prelude.{
  ℕ, zero, suc, ◌-◌, ◌≤◌, ◌≡◌, refl, ap, [], ◌∷◌, ◌++◌, Bytes, tail, length, take, drop, arith,
}

-- `IsRest t s`: the text `t` is `s` from some byte on.
pub data IsRest (t : Bytes) : Bytes → Type 0 where
  here : {s : Bytes} → s ≡ t → IsRest t s
  there : {c : ℕ} {s : Bytes} → IsRest t s → IsRest t (c ∷ s)

pub IsRest-trans : {r t s : Bytes} → IsRest r t → IsRest t s → IsRest r s
IsRest-trans {r} p (here e) = rw e p
IsRest-trans p (there q) = there (IsRest-trans p q)

pub IsRest-length : {t s : Bytes} → IsRest t s → length t ≤ length s
IsRest-length (here e) = omega (arith, ap length e)
IsRest-length (there p) = omega (arith, IsRest-length p)

pub tail-IsRest : (s : Bytes) → IsRest (tail s) s
tail-IsRest [] = here refl
tail-IsRest (c ∷ s) = there (here refl)

pub drop-IsRest : (n : ℕ) (s : Bytes) → IsRest (drop n s) s
drop-IsRest zero s = here refl
drop-IsRest (suc n) [] = here refl
drop-IsRest (suc n) (c ∷ s) = there (drop-IsRest n s)

take_all : (s : Bytes) (n : ℕ) → n ≡ 0 → take n s ++ s ≡ s
take_all s zero e = refl
take_all s (suc n) e = absurd (omega arith)

-- A text is what stands before a rest of it, and that rest.
pub take-IsRest : (t s : Bytes) → IsRest t s → take (length s - length t) s ++ t ≡ s
take-IsRest t s (here e) = rw e (take_all t (length t - length t) (omega arith))
take-IsRest t (c ∷ s) (there p) =
    let e : suc (length s) - length t ≡ suc (length s - length t) =
      omega (arith, IsRest-length p) in
    rw e (ap (◌∷◌ c) (take-IsRest t s p))
