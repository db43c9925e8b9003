-- ===== src/Alias/Order.antt =====
-- `strcasecmp` as an order, and the tables that it sorts.
use lftp.Prelude.{◌≡◌, refl, [], ◌∷◌, arith, Bytes}
use lftp.Alias.{less, equal, greater, casecmp}

pub casecmp_refl : (a : Bytes) → casecmp a a ≡ equal
unfolding casecmp
casecmp_refl [] = refl
casecmp_refl (x ∷ a) = ground (arith, casecmp_refl a)

pub casecmp_flip : (a b : Bytes) → casecmp a b ≡ less → casecmp b a ≡ greater
unfolding casecmp
casecmp_flip [] [] h = ground arith
casecmp_flip [] (y ∷ b) h = refl
casecmp_flip (x ∷ a) [] h = ground arith
casecmp_flip (x ∷ a) (y ∷ b) h = ground (arith, casecmp_flip a b)

pub casecmp_unflip : (a b : Bytes) → casecmp a b ≡ greater → casecmp b a ≡ less
unfolding casecmp
casecmp_unflip [] [] h = ground arith
casecmp_unflip [] (y ∷ b) h = ground arith
casecmp_unflip (x ∷ a) [] h = refl
casecmp_unflip (x ∷ a) (y ∷ b) h = ground (arith, casecmp_unflip a b)

-- Names that compare equal compare alike with every third name.
pub casecmp_left : (a b c : Bytes) → casecmp a b ≡ equal → casecmp a c ≡ casecmp b c
unfolding casecmp
casecmp_left [] [] c h = refl
casecmp_left [] (y ∷ b) c h = ground arith
casecmp_left (x ∷ a) [] c h = ground arith
casecmp_left (x ∷ a) (y ∷ b) [] h = refl
casecmp_left (x ∷ a) (y ∷ b) (z ∷ c) h = ground (arith, casecmp_left a b c)

pub casecmp_right : (a b c : Bytes) → casecmp a b ≡ equal → casecmp c a ≡ casecmp c b
unfolding casecmp
casecmp_right [] [] c h = refl
casecmp_right [] (y ∷ b) c h = ground arith
casecmp_right (x ∷ a) [] c h = ground arith
casecmp_right (x ∷ a) (y ∷ b) [] h = refl
casecmp_right (x ∷ a) (y ∷ b) (z ∷ c) h = ground (arith, casecmp_right a b c)

pub casecmp_trans : (a b c : Bytes) → casecmp a b ≡ less → casecmp b c ≡ less → casecmp a c ≡ less
unfolding casecmp
casecmp_trans [] [] c h k = ground arith
casecmp_trans [] (y ∷ b) [] h k = ground arith
casecmp_trans [] (y ∷ b) (z ∷ c) h k = refl
casecmp_trans (x ∷ a) [] c h k = ground arith
casecmp_trans (x ∷ a) (y ∷ b) [] h k = ground arith
casecmp_trans (x ∷ a) (y ∷ b) (z ∷ c) h k = ground (arith, casecmp_trans a b c)
