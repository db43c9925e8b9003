-- ===== src/FileSet/Setters.antt =====
-- The setters of FileInfo (FileSet.h) as updates of every field.
use lftp.Prelude.{
  ◌≡◌, refl, sym, ap, Bool, true, false, not, ◌&&◌, ◌||◌, Option, none, some, Bytes, same_iff, inl,
  inr, Bool-cases, if◌then◌else◌, arith, ltb,
}
use lftp.FileSet.{
  FileInfo, symbolic, keeps_symlink, merge_mode, merge_date, merge_size, merge_type, merge_symlink,
  same_option, merge_user, merge_group, merge_nlinks,
}

-- The second value where it is wanted.
abbrev pub pick : {A : Type 0} → Bool → A → A → A
pick taken a b = if taken then b else a

-- The file `t` with what it takes from `f`, where it takes the mode, and so on.
abbrev pub known_by :
    (mode date size filetype user group nlinks : Bool) → FileInfo → FileInfo → FileInfo
known_by mode date size filetype user group nlinks t f =
    let d = t.defined in
    record {
      name = t.name;
      mode = pick mode t.mode f.mode;
      symlink = pick mode t.symlink f.symlink;
      filetype = if mode then symbolic else pick filetype t.filetype f.filetype;
      ts = pick date t.ts f.ts;
      ts_prec = pick date t.ts_prec f.ts_prec;
      size = pick size t.size f.size;
      user = pick user t.user f.user;
      group = pick group t.group f.group;
      nlinks = pick nlinks t.nlinks f.nlinks;
      defined = record {
        mode = mode || d.mode;
        date = date || d.date;
        filetype = mode || (filetype || d.filetype);
        symlink = mode || d.symlink;
        size = size || d.size;
        user = user && not (same_option f.user t.user) || d.user;
        group = group && not (same_option f.group t.group) || d.group;
        nlinks = nlinks || d.nlinks;
      };
      need = record {
        mode = not mode && t.need.mode;
        date = not date && t.need.date;
        filetype = not mode && (not filetype && t.need.filetype);
        symlink = not mode && t.need.symlink;
        size = not size && t.need.size;
        user = not (user && not (same_option f.user t.user)) && t.need.user;
        group = not (group && not (same_option f.group t.group)) && t.need.group;
        nlinks = not nlinks && t.need.nlinks;
      };
    }

abbrev pub closer : FileInfo → FileInfo → Bool
closer f t = t.defined.date && f.defined.date && ltb f.ts_prec t.ts_prec

-- The file `t` with what it takes from `f`.
abbrev pub known : FileInfo → FileInfo → FileInfo
known t f =
    let d = t.defined in
    let e = f.defined in
    known_by (not d.mode && e.mode) ((not d.date && e.date) || closer f t) (not d.size && e.size)
      (not d.filetype && e.filetype) (not d.user && e.user) (not d.group && e.group)
      (not d.nlinks && e.nlinks) t f

abbrev pub put_mode : Bool → FileInfo → FileInfo → FileInfo
put_mode b f t = record t {
  mode = pick b t.mode f.mode;
  symlink = if b then (if keeps_symlink f.mode then t.symlink else none) else t.symlink;
  defined = record t.defined { mode = b || t.defined.mode };
  need = record t.need { mode = not b && t.need.mode };
}

pub mode_fields : (b : Bool) (f t : FileInfo) → merge_mode b f t ≡ put_mode b f t
unfolding merge_mode
mode_fields true f t = refl
mode_fields false f t = refl

abbrev pub put_date : Bool → FileInfo → FileInfo → FileInfo
put_date b f t = record t {
  ts = pick b t.ts f.ts;
  ts_prec = pick b t.ts_prec f.ts_prec;
  defined = record t.defined { date = b || t.defined.date };
  need = record t.need { date = not b && t.need.date };
}

pub date_fields : (b : Bool) (f t : FileInfo) → merge_date b f t ≡ put_date (b || closer f t) f t
unfolding merge_date
date_fields b f t = taken (b || closer f t)
  where
    taken :
        (c : Bool)
        → (if c
            then record t {
              ts = f.ts;
              ts_prec = f.ts_prec;
              defined = record t.defined { date = true };
              need = record t.need { date = false };
            }
            else t)
          ≡ put_date c f t
    taken true = refl
    taken false = refl

abbrev pub put_size : Bool → FileInfo → FileInfo → FileInfo
put_size b f t = record t {
  size = pick b t.size f.size;
  defined = record t.defined { size = b || t.defined.size };
  need = record t.need { size = not b && t.need.size };
}

pub size_fields : (b : Bool) (f t : FileInfo) → merge_size b f t ≡ put_size b f t
unfolding merge_size
size_fields true f t = refl
size_fields false f t = refl

abbrev pub put_type : Bool → FileInfo → FileInfo → FileInfo
put_type b f t = record t {
  filetype = pick b t.filetype f.filetype;
  defined = record t.defined { filetype = b || t.defined.filetype };
  need = record t.need { filetype = not b && t.need.filetype };
}

pub type_fields : (b : Bool) (f t : FileInfo) → merge_type b f t ≡ put_type b f t
unfolding merge_type
type_fields true f t = refl
type_fields false f t = refl

abbrev pub put_symlink : Bool → FileInfo → FileInfo → FileInfo
put_symlink b f t = record t {
  symlink = pick b t.symlink f.symlink;
  filetype = if b then symbolic else t.filetype;
  defined = record t.defined {
    filetype = b || t.defined.filetype;
    symlink = b || t.defined.symlink;
  };
  need = record t.need { filetype = not b && t.need.filetype; symlink = not b && t.need.symlink };
}

pub symlink_fields : (b : Bool) (f t : FileInfo) → merge_symlink b f t ≡ put_symlink b f t
unfolding merge_symlink
symlink_fields true f t = refl
symlink_fields false f t = refl

same_option-eq : (a b : Option Bytes) → same_option a b ≡ true → b ≡ a
same_option-eq none none e = refl
same_option-eq (some a) (some b) e = ap some (sym ((same_iff a b).0 e))
same_option-eq none (some b) e = absurd (ground arith)
same_option-eq (some a) none e = absurd (ground arith)

abbrev pub put_user : Bool → FileInfo → FileInfo → FileInfo
put_user b f t = record t {
  user = pick b t.user f.user;
  defined = record t.defined { user = (b && not (same_option f.user t.user)) || t.defined.user };
  need = record t.need { user = not (b && not (same_option f.user t.user)) && t.need.user };
}

pub user_fields : (b : Bool) (f t : FileInfo) → merge_user b f t ≡ put_user b f t
unfolding merge_user
user_fields false f t = refl
user_fields true f t = elim (Bool-cases (same_option f.user t.user)) [
  | inl e ↦ rw e (ap (λ u. record t { user = u }) (same_option-eq f.user t.user e))
  | inr e ↦ rw e refl
]

abbrev pub put_group : Bool → FileInfo → FileInfo → FileInfo
put_group b f t = record t {
  group = pick b t.group f.group;
  defined = record t.defined {
    group = (b && not (same_option f.group t.group)) || t.defined.group;
  };
  need = record t.need { group = not (b && not (same_option f.group t.group)) && t.need.group };
}

pub group_fields : (b : Bool) (f t : FileInfo) → merge_group b f t ≡ put_group b f t
unfolding merge_group
group_fields false f t = refl
group_fields true f t = elim (Bool-cases (same_option f.group t.group)) [
  | inl e ↦ rw e (ap (λ u. record t { group = u }) (same_option-eq f.group t.group e))
  | inr e ↦ rw e refl
]

abbrev put_nlinks : Bool → FileInfo → FileInfo → FileInfo
put_nlinks b f t = record t {
  nlinks = pick b t.nlinks f.nlinks;
  defined = record t.defined { nlinks = b || t.defined.nlinks };
  need = record t.need { nlinks = not b && t.need.nlinks };
}

pub nlinks_fields : (b : Bool) (f t : FileInfo) → merge_nlinks b f t ≡ put_nlinks b f t
unfolding merge_nlinks
nlinks_fields true f t = refl
nlinks_fields false f t = refl
