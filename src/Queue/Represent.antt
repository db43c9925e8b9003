-- ===== src/Queue/Represent.antt =====
-- The state of a queue (QueueFeeder.cc) as the plain list of its jobs.
use lftp.Prelude.{
  ℕ, zero, suc, ◌+◌, ◌<◌, ◌≡◌, refl, ap, ◌∙◌, List, [], ◌∷◌, ◌++◌, map, length, arith, take, drop,
  ◌==◌, if◌then◌else◌, if_both,
}
use lftp.Queue.Store.{
  Job, Store, Ends, write, set_next, set_prev, link_next, link_prev, unlink_job, last_of,
  insert_before, insert_jobs, nth_job,
}
use lftp.Queue.Linked.{head_or, Absent, Linked, set_next-Linked, set_prev-Linked}
use lftp.Queue.Unlink.{IsList}
use lftp.Queue.Insert.{joined}
use lftp.Queue.Jobs.{Queue, new_job}

abbrev pub Below : ℕ → List ℕ → Type 0
Below n [] = Unit {0}
Below n (x ∷ xs) = (x < n) × Below n xs

-- The addresses of a queue: a linked list of addresses that `new` gave.
pub record IsQueue (q : Queue) (xs : List ℕ) : Type 0 where
  pub links : IsList q.store q.ends xs
  pub given : Below q.store.top xs
  pub few : length xs < q.store.top

-- The queue holds the jobs `js`, in this order.
pub record Holds (q : Queue) (js : List Job) : Type 0 where
  pub places : List ℕ
  pub shape : IsQueue q places
  pub texts : map q.store.job places ≡ js

pub map-append {ℓ κ} :
    {A : Type ℓ} {B : Type κ} (f : A → B) (xs ys : List A) → map f (xs ++ ys) ≡ map f xs ++ map f ys
map-append f [] ys = refl
map-append f (x ∷ xs) ys = ap (λ l. f x ∷ l) (map-append f xs ys)

pub map-take {ℓ κ} :
    {A : Type ℓ} {B : Type κ} (f : A → B) (n : ℕ) (xs : List A)
    → map f (take n xs) ≡ take n (map f xs)
map-take f zero xs = refl
map-take f (suc n) [] = refl
map-take f (suc n) (x ∷ xs) = ap (λ l. f x ∷ l) (map-take f n xs)

pub map-drop {ℓ κ} :
    {A : Type ℓ} {B : Type κ} (f : A → B) (n : ℕ) (xs : List A)
    → map f (drop n xs) ≡ drop n (map f xs)
map-drop f zero xs = refl
map-drop f (suc n) [] = refl
map-drop f (suc n) (x ∷ xs) = map-drop f n xs

pub Below-append : (n : ℕ) (xs ys : List ℕ) → Below n xs → Below n ys → Below n (xs ++ ys)
Below-append n [] ys a b = b
Below-append n (x ∷ xs) ys (l, a) b = (l, Below-append n xs ys a b)

pub append-Below : (n : ℕ) (xs ys : List ℕ) → Below n (xs ++ ys) → Below n xs × Below n ys
append-Below n [] ys b = (tt, b)
append-Below n (x ∷ xs) ys (l, b) = let (u, v) = append-Below n xs ys b in ((l, u), v)

pub Below-Absent : (n : ℕ) (xs : List ℕ) → Below n xs → Absent n xs
Below-Absent n [] b = tt
Below-Absent n (x ∷ xs) (l, b) = (omega arith, Below-Absent n xs b)

pub Below-suc : (n : ℕ) (xs : List ℕ) → Below n xs → Below (n + 1) xs
Below-suc n [] b = tt
Below-suc n (x ∷ xs) (l, b) = (omega arith, Below-suc n xs b)

pub get_nth :
    (h : Store) (b : ℕ) (n : ℕ) (xs : List ℕ)
    → Linked h b xs 0
    → nth_job h (head_or 0 xs) n ≡ head_or 0 (drop n xs)
unfolding nth_job
get_nth h b zero xs l = refl
get_nth h b (suc n) [] l = ground arith
get_nth h b (suc n) (x ∷ xs) (z, u, w, l) = go _ (ap (λ q. nth_job h q n) w ∙ get_nth h x n xs l)
  where
    go : (r : ℕ) → r ≡ head_or 0 (drop n xs) → (if x == 0 then 0 else r) ≡ head_or 0 (drop n xs)
    go r e = ground arith

-- What a store keeps when only links are written.
abbrev pub Keeps : Store → Store → Type 0
Keeps h k = (k.job ≡ h.job) × (k.top ≡ h.top)

link_next-Keeps : (h : Store) (p q : ℕ) (k : Store) → Keeps h k → Keeps h (link_next p q k)
link_next-Keeps h p q k e = if_both (Keeps h) (p == 0) _ _ e e

link_prev-Keeps : (h : Store) (p q : ℕ) (k : Store) → Keeps h k → Keeps h (link_prev p q k)
link_prev-Keeps h p q k e = if_both (Keeps h) (p == 0) _ _ e e

pub unlink_job-Keeps : (h : Store) (e : Ends) (p : ℕ) → Keeps h (unlink_job h e p).0
unfolding unlink_job
unlink_job-Keeps h e p =
    link_prev-Keeps h _ _ (link_next (h.prev p) (h.next p) h)
      (link_next-Keeps h (h.prev p) (h.next p) h (refl, refl))

joined-Keeps : (h a : Store) (p tail : ℕ) → Keeps h a → Keeps h (joined a p tail)
joined-Keeps h a p tail e =
    let b = link_next (a.prev p) p a in
    link_prev-Keeps h (b.next tail) tail b (link_next-Keeps h (a.prev p) p a e)

pub insert_jobs-Keeps :
    (h : Store) (p : ℕ) (e : Ends) (before : ℕ) → Keeps h (insert_jobs h p e before).0
unfolding insert_jobs insert_before
insert_jobs-Keeps h p e before =
    let tail = last_of h.top h p in
    let end = set_next (set_prev h p e.last) tail 0 in
    let inside = set_prev (set_next h tail before) p (h.prev before) in
    joined-Keeps h (if before == 0 then end else inside) p tail
      (if_both (Keeps h) (before == 0) end inside (refl, refl) (refl, refl))

-- Only the links of a store count for a list.
same_links :
    (h k : Store) (b : ℕ) (xs : List ℕ) (a : ℕ)
    → k.next ≡ h.next
    → k.prev ≡ h.prev
    → Linked h b xs a
    → Linked k b xs a
same_links h k b [] a n p l = tt
same_links h k b (x ∷ xs) a n p (z, u, w, l) =
    (z, ap (λ f. f x) p ∙ u, ap (λ f. f x) n ∙ w, same_links h k x xs a n p l)

pub new_job-Linked :
    (h : Store) (j : Job) (xs : List ℕ)
    → Below h.top xs
    → Linked h 0 xs 0
    → Linked (new_job h j) 0 xs 0
new_job-Linked h j xs b l =
    let m = Below-Absent h.top xs b in
    same_links (set_next (set_prev h h.top 0) h.top 0) (new_job h j) 0 xs 0 refl refl
      (set_next-Linked (set_prev h h.top 0) h.top 0 0 xs 0 m (set_prev-Linked h h.top 0 0 xs 0 m l))

pub write-map :
    {A : Type 0} (f : ℕ → A) (p : ℕ) (v : A) (xs : List ℕ)
    → Absent p xs
    → map (write f p v) xs ≡ map f xs
write-map f p v [] m = refl
write-map f p v (x ∷ xs) (n, m) = go (write-map f p v xs m)
  where
    go : map (write f p v) xs ≡ map f xs → map (write f p v) (x ∷ xs) ≡ map f (x ∷ xs)
    go e = ap (λ l. write f p v x ∷ l) e ∙ ap (λ y. y ∷ map f xs) (ground arith)
