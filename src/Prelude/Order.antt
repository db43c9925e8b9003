-- ===== src/Prelude/Order.antt =====
-- The order of texts by their bytes: `strcmp`, and `xstring::cmp`, which is the same on bytes.
use lftp.Prelude.{◌≡◌, refl, Bool, true, false, [], ◌∷◌, Bytes, arith, ltb, if◌then◌else◌}

-- `xstring::cmp(a, b) < 0`.
unfoldable pub less : Bytes → Bytes → Bool
less [] [] = false
less [] (y ∷ ys) = true
less (x ∷ xs) [] = false
less (x ∷ xs) (y ∷ ys) = if ltb x y then true else if ltb y x then false else less xs ys

pub less_irrefl : (a : Bytes) → less a a ≡ false
unfolding less
less_irrefl [] = refl
less_irrefl (x ∷ a) = ground (arith, less_irrefl a)

pub less_asym : (a b : Bytes) → less a b ≡ true → less b a ≡ false
unfolding less
less_asym [] b h = ground arith
less_asym (x ∷ a) [] h = ground arith
less_asym (x ∷ a) (y ∷ b) h = ground (arith, less_asym a b)

pub less_trans : (a b c : Bytes) → less a b ≡ true → less b c ≡ true → less a c ≡ true
unfolding less
less_trans [] [] c h k = ground arith
less_trans [] (y ∷ b) [] h k = ground arith
less_trans [] (y ∷ b) (z ∷ c) h k = refl
less_trans (x ∷ a) [] c h k = ground arith
less_trans (x ∷ a) (y ∷ b) [] h k = ground arith
less_trans (x ∷ a) (y ∷ b) (z ∷ c) h k = ground (arith, less_trans a b c)

-- Of two texts that are not the same one is less.
pub less_total : (a b : Bytes) → less a b ≡ false → less b a ≡ false → a ≡ b
unfolding less
less_total [] [] h k = refl
less_total [] (y ∷ b) h k = absurd (ground arith)
less_total (x ∷ a) [] h k = absurd (ground arith)
less_total (x ∷ a) (y ∷ b) h k = ground (arith, less_total a b)
