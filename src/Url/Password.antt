-- ===== src/Url/Password.antt =====
-- The password of a URL is hidden or removed (url.cc), and `path_index` stays in its text.
use lftp.Prelude.{
  ℕ, zero, suc, ◌+◌, ◌-◌, ◌≤◌, ◌≡◌, ◌≢◌, refl, sym, ap, ◌∙◌, [], ◌∷◌, ◌++◌, append_assoc, Option,
  none, some, Bytes, codes, arith, length, length-append, take, drop, inl, inr, Option-cases, ◌⊎◌,
}
use lftp.Url.Scan.{
  index_of, starts, index_sep, password_pos, behind_sep, find_password_pos, replace_at,
  hide_password, remove_password,
}

-- The byte is not in the text.
abbrev pub Lacks : ℕ → Bytes → Type 0
Lacks c [] = Unit {0}
Lacks c (d ∷ s) = (d ≢ c) × Lacks c s

pub Lacks-append : (c : ℕ) (a b : Bytes) → Lacks c a → Lacks c b → Lacks c (a ++ b)
Lacks-append c [] b h k = k
Lacks-append c (d ∷ a) b (n, h) k = (n, Lacks-append c a b h k)

index_of-here : (c : ℕ) (a b : Bytes) → Lacks c a → index_of c (a ++ c ∷ b) ≡ some (length a)
unfolding index_of
index_of-here c [] b h = ground arith
index_of-here c (d ∷ a) b (n, h) = ground (arith, index_of-here c a b h)

-- Where the text `a` lacks the byte, it is found behind `a` or not at all.
index_of-late :
    (c : ℕ) (a b : Bytes)
    → Lacks c a
    → (index_of c (a ++ b) ≡ none) ⊎ ((i : ℕ) × (index_of c (a ++ b) ≡ some (length a + i)))
unfolding index_of
index_of-late c [] b h = elim (Option-cases (index_of c b)) [
  | inl e ↦ inl e
  | inr (i, e) ↦ inr (i, e ∙ ap some (omega arith))
]
index_of-late c (d ∷ a) b (n, h) = elim (index_of-late c a b h) [
  | inl e ↦ inl (ground arith)
  | inr (i, e) ↦ inr (i, ground arith)
]

index_sep-here :
    (a b : Bytes) → Lacks b':' a → index_sep (a ++ (codes "://" ++ b)) ≡ some (length a)
unfolding index_sep starts
index_sep-here [] b h = refl
index_sep-here (d ∷ a) b (n, h) = ground (arith, index_sep-here a b h)

drop-append : (a b : Bytes) (n : ℕ) → n ≡ length a → drop n (a ++ b) ≡ b
drop-append [] b n e = rw e refl
drop-append (c ∷ a) b zero e = absurd (omega arith)
drop-append (c ∷ a) b (suc n) e = drop-append a b n (omega arith)

take-append : (a b : Bytes) (n : ℕ) → n ≡ length a → take n (a ++ b) ≡ a
take-append [] b n e = rw e refl
take-append (c ∷ a) b zero e = absurd (omega arith)
take-append (c ∷ a) b (suc n) e = ap (λ t. c ∷ t) (take-append a b n (omega arith))

-- The texts of a URL around its login.
abbrev login : Bytes → Bytes → Bytes
login u w = u ++ b':' ∷ w

-- A URL with the protocol `p`, the user `u` and the password `w`.
abbrev pub url_of : Bytes → Bytes → Bytes → Bytes → Bytes
url_of p u w rest = p ++ (codes "://" ++ (u ++ b':' ∷ (w ++ b'@' ∷ rest)))

-- No colon before the password, and neither `@` nor a slash in the login.
abbrev pub IsLogin : Bytes → Bytes → Bytes → Type 0
IsLogin p u w =
    Lacks b':' p × (Lacks b':' u × Lacks b'@' u × Lacks b'/' u) × (Lacks b'@' w × Lacks b'/' w)

password_found :
    (n : ℕ) (slash : Option ℕ) (u w : Bytes)
    → (slash ≡ none) ⊎ ((i : ℕ) × (slash ≡ some (length (login u w) + i)))
    → password_pos n (some (length (login u w))) (some (length u)) slash
      ≡ some (n + length u + 1, length w)
password_found n none u w h = go (length-append u (b':' ∷ w))
  where
    go :
        length (login u w) ≡ length u + suc (length w)
        → password_pos n (some (length (login u w))) (some (length u)) none
          ≡ some (n + length u + 1, length w)
    go e = ground arith
password_found n (some s) u w (inl e) = absurd cc
password_found n (some s) u w (inr (i, e)) = go (length-append u (b':' ∷ w)) le
  where
    le : length (login u w) ≤ s
    le = omega (arith, some_inj s (length (login u w) + i) e)
      where
        some_inj : (a b : ℕ) → some a ≡ some b → a ≡ b
        some_inj a b e' = cc

    go :
        length (login u w) ≡ length u + suc (length w)
        → length (login u w) ≤ s
        → password_pos n (some (length (login u w))) (some (length u)) (some s)
          ≡ some (n + length u + 1, length w)
    go e' l = ground arith

find_password_pos-url_of :
    (p u w rest : Bytes)
    → IsLogin p u w
    → find_password_pos (url_of p u w rest) ≡ some (length p + 3 + length u + 1, length w)
unfolding find_password_pos
find_password_pos-url_of p u w rest (a, (b, c, d), (e, f)) =
    let s = u ++ b':' ∷ (w ++ b'@' ∷ rest) in
    let s' = login u w ++ b'@' ∷ rest in
    let same_text : s ≡ s' = sym (append_assoc u (b':' ∷ w) (b'@' ∷ rest)) in
    let behind : drop (length p + 3) (p ++ (codes "://" ++ s)) ≡ s =
      ap (drop (length p + 3)) (sym (append_assoc p (codes "://") s))
      ∙ drop-append (p ++ codes "://") s (length p + 3)
          (omega (arith, length-append p (codes "://"))) in
    let at : index_of b'@' s ≡ some (length (login u w)) =
      ap (index_of b'@') same_text
      ∙ index_of-here b'@' (login u w) rest (Lacks-append b'@' u (b':' ∷ w) c (omega arith, e)) in
    let colon : index_of b':' s ≡ some (length u) = index_of-here b':' u (w ++ b'@' ∷ rest) b in
    let slash =
      index_of-late b'/' (login u w) (b'@' ∷ rest)
        (Lacks-append b'/' u (b':' ∷ w) d (omega arith, f)) in
    ap (behind_sep (url_of p u w rest)) (index_sep-here p s a)
    ∙ ap (λ t. password_pos (length p + 3) (index_of b'@' t) (index_of b':' t) (index_of b'/' t))
        behind
    ∙ ap (λ o. password_pos (length p + 3) o (index_of b':' s) (index_of b'/' s)) at
    ∙ ap (λ o. password_pos (length p + 3) (some (length (login u w))) o (index_of b'/' s)) colon
    ∙ ap
        (λ t.
          password_pos (length p + 3) (some (length (login u w))) (some (length u))
            (index_of b'/' t))
        same_text
    ∙ password_found (length p + 3) (index_of b'/' s') u w slash

-- The text of a URL up to its password, and from the `@` on.
url_of-cut :
    (p u w rest : Bytes)
    → url_of p u w rest ≡ (p ++ (codes "://" ++ u)) ++ b':' ∷ (w ++ b'@' ∷ rest)
url_of-cut p u w rest = sym (append_assoc p (codes "://" ++ u) (b':' ∷ (w ++ b'@' ∷ rest)))

front_length : (p u : Bytes) → length (p ++ (codes "://" ++ u)) ≡ length p + 3 + length u
front_length p u = length-append p (codes "://" ++ u) ∙ omega arith

drop_login :
    (p u w rest : Bytes)
    → drop (length p + 3 + length u + 1 + length w) (url_of p u w rest) ≡ b'@' ∷ rest
drop_login p u w rest =
    let n = length p + 3 + length u + 1 + length w in
    let f = p ++ (codes "://" ++ u) in
    ap (drop n) (url_of-cut p u w rest ∙ sym (append_assoc f (b':' ∷ w) (b'@' ∷ rest)))
    ∙ drop-append (f ++ b':' ∷ w) (b'@' ∷ rest) n
        (omega (arith, length-append f (b':' ∷ w), front_length p u))

-- Of a URL with a user and a password, where the protocol has no colon, the user no colon, `@` or
-- slash and the password no `@` or slash, `hide_password` keeps everything but the password,
-- which it replaces by `XXXX`: the password has no part in the result.
pub hide_password-url_of :
    (p u w rest : Bytes)
    → IsLogin p u w
    → hide_password (url_of p u w rest) ≡ url_of p u (codes "XXXX") rest
unfolding hide_password
hide_password-url_of p u w rest l =
    let n = length p + 3 + length u + 1 in
    let f = p ++ (codes "://" ++ u) in
    let text = url_of p u w rest in
    ap (replace_at text (codes "XXXX") 0) (find_password_pos-url_of p u w rest l)
    ∙ ap (λ t. take (n - 0) text ++ (codes "XXXX" ++ t)) (drop_login p u w rest)
    ∙ ap (λ t. t ++ (codes "XXXX" ++ b'@' ∷ rest))
        (ap (take (n - 0))
            (url_of-cut p u w rest ∙ sym (append_assoc f (b':' ∷ []) (w ++ b'@' ∷ rest)))
          ∙ take-append (f ++ b':' ∷ []) (w ++ b'@' ∷ rest) (n - 0)
              (omega (arith, length-append f (b':' ∷ []), front_length p u)))
    ∙ append_assoc f (b':' ∷ []) (codes "XXXX" ++ b'@' ∷ rest)
    ∙ sym (url_of-cut p u (codes "XXXX") rest)

-- Of a URL with a user and a password, where the protocol has no colon, the user no colon, `@` or
-- slash and the password no `@` or slash, `remove_password` takes out the password with its
-- colon, and keeps the rest.
pub remove_password-url_of :
    (p u w rest : Bytes)
    → IsLogin p u w
    → remove_password (url_of p u w rest) ≡ p ++ (codes "://" ++ (u ++ b'@' ∷ rest))
unfolding remove_password
remove_password-url_of p u w rest l =
    let n = length p + 3 + length u + 1 in
    let f = p ++ (codes "://" ++ u) in
    let text = url_of p u w rest in
    ap (replace_at text [] 1) (find_password_pos-url_of p u w rest l)
    ∙ ap (λ t. take (n - 1) text ++ t) (drop_login p u w rest)
    ∙ ap (λ t. t ++ ([] ++ b'@' ∷ rest))
        (ap (take (n - 1)) (url_of-cut p u w rest)
          ∙ take-append f (b':' ∷ (w ++ b'@' ∷ rest)) (n - 1) (omega (arith, front_length p u)))
    ∙ append_assoc p (codes "://" ++ u) (b'@' ∷ rest)
