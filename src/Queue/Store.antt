-- ===== src/Queue/Store.antt =====
-- The list operations of `QueueFeeder` (QueueFeeder.cc): `unlink_job`, `insert_jobs`, `get_job`,
-- `grab_job` and `get_next_match`, on an explicit store.
use lftp.Prelude.{ℕ, zero, suc, Bool, Bytes, ◌==◌, if◌then◌else◌}
pub use lftp.Prelude.Write.{write}
use lftp.Prelude.Int.{ℤ, pos, negsuc}

-- The fields of a `QueueJob` without its links.
pub record Job : Type 0 where
  pub cmd : Bytes
  pub pwd : Bytes
  pub lpwd : Bytes

pub record Store : Type 0 where
  pub job : ℕ → Job
  pub next : ℕ → ℕ
  pub prev : ℕ → ℕ
  pub top : ℕ

-- A list: its head pointer and its tail pointer.
pub record Ends : Type 0 where
  pub first : ℕ
  pub last : ℕ

abbrev pub set_next : Store → ℕ → ℕ → Store
set_next h p q = record h { next = write h.next p q }

abbrev pub set_prev : Store → ℕ → ℕ → Store
set_prev h p q = record h { prev = write h.prev p q }

-- `if(p) p->next = q`
abbrev pub link_next : ℕ → ℕ → Store → Store
link_next p q h = if p == 0 then h else set_next h p q

-- `if(p) p->prev = q`
abbrev pub link_prev : ℕ → ℕ → Store → Store
link_prev p q h = if p == 0 then h else set_prev h p q

-- The head and the tail pointer when `unlink_job` has updated them.
abbrev pub unlinked_ends : Store → Ends → ℕ → Ends
unlinked_ends h e p = record {
  first = if h.prev p == 0 then h.next e.first else e.first;
  last = if h.next p == 0 then h.prev e.last else e.last;
}

unfoldable pub unlink_job : Store → Ends → ℕ → Store × Ends
unlink_job h e p =
    let a = link_next (h.prev p) (h.next p) h in
    let b = link_prev (a.next p) (a.prev p) a in
    (set_next (set_prev b p 0) p 0, unlinked_ends h e p)

-- `while(tail->next) tail=tail->next`
unfoldable pub last_of : ℕ → Store → ℕ → ℕ
last_of zero h p = p
last_of (suc fuel) h p = let rest = last_of fuel h (h.next p) in if h.next p == 0 then p else rest

-- The links of `insert_jobs` when the `tail` of the new jobs is known.
unfoldable pub insert_before : Store → ℕ → ℕ → Ends → ℕ → Store × Ends
insert_before h p tail e before =
    let a =
      if before == 0
      then set_next (set_prev h p e.last) tail 0
      else set_prev (set_next h tail before) p (h.prev before) in
    let b = link_next (a.prev p) p a in
    let c = link_prev (b.next tail) tail b in
    let last = if c.next tail == 0 then tail else e.last in
    let first = if c.prev p == 0 then p else e.first in (c, record { first = first; last = last })

-- The job `p` heads a list of its own, so that the assertion on its predecessor holds; `before` is 0 or in the list with the ends `e`.
unfoldable pub insert_jobs : Store → ℕ → Ends → ℕ → Store × Ends
insert_jobs h p e before = insert_before h p (last_of h.top h p) e before

-- `while(j && n--) j=j->next`
unfoldable pub nth_job : Store → ℕ → ℕ → ℕ
nth_job h p zero = p
nth_job h p (suc n) = let rest = nth_job h (h.next p) n in if p == 0 then 0 else rest

-- The position -1 is the last job. Any other negative position counts past the end.
unfoldable pub get_job : Store → Ends → ℤ → ℕ
get_job h e (pos n) = nth_job h e.first n
get_job h e (negsuc zero) = e.last
get_job h e (negsuc (suc n)) = 0

-- The job that was at position `n`, or 0, and what unlinking it leaves.
unfoldable pub grab_job : Store → Ends → ℤ → ℕ × (Store × Ends)
grab_job h e n = let p = get_job h e n in (p, if p == 0 then (h, e) else unlink_job h e p)

-- What follows stands on `fnmatch`.
module _ (matches : Bytes → Bytes → Bool) where
  unfoldable pub get_next_match : ℕ → Store → Bytes → ℕ → ℕ
  get_next_match zero h pattern p = 0
  get_next_match (suc fuel) h pattern p =
      let rest = get_next_match fuel h pattern (h.next p) in
      if p == 0 then 0 else if matches pattern (h.job p).cmd then p else rest

  -- The loop of `grab_job(cmd)`: at `p`, with what is left in the queue and the jobs grabbed.
  unfoldable pub grab_matches : ℕ → Bytes → ℕ → Store → Ends → Ends → ℕ × (Store × Ends)
  grab_matches zero pattern p h e grabbed = (grabbed.first, (h, e))
  grab_matches (suc fuel) pattern p h e grabbed =
      let found = get_next_match h.top h pattern p in
      let (h', e') = unlink_job h e found in
      let (h'', grabbed') = insert_jobs h' found grabbed 0 in
      let rest = grab_matches fuel pattern (h.next found) h'' e' grabbed' in
      if found == 0 then (grabbed.first, (h, e)) else rest

  unfoldable pub grab_matching : Store → Ends → Bytes → ℕ × (Store × Ends)
  grab_matching h e pattern =
      grab_matches h.top pattern e.first h e (record { first = 0; last = 0 })

  -- `while(before && !fnmatch(cmd, before->cmd)) before=before->next`
  unfoldable pub skip_matches : ℕ → Store → Bytes → ℕ → ℕ
  skip_matches zero h pattern p = p
  skip_matches (suc fuel) h pattern p =
      let rest = skip_matches fuel h pattern (h.next p) in
      if p == 0 then 0 else if matches pattern (h.job p).cmd then rest else p
