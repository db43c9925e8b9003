-- ===== src/Prelude/Write.antt =====
-- A function from addresses or indices as a memory, written at one place.
use lftp.Prelude.{ℕ, ◌≡◌, ◌≢◌, arith, ◌==◌, if◌then◌else◌}

abbrev pub write {ℓ} : {A : Type ℓ} → (ℕ → A) → ℕ → A → ℕ → A
write f p v = λ q. if q == p then v else f q

pub write_same {ℓ} : {A : Type ℓ} (f : ℕ → A) (p : ℕ) (v : A) → write f p v p ≡ v
write_same f p v = ground arith

pub write_other {ℓ} : {A : Type ℓ} (f : ℕ → A) (p q : ℕ) (v : A) → q ≢ p → write f p v q ≡ f q
write_other f p q v n = ground arith
