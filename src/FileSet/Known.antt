-- ===== src/FileSet/Known.antt =====
-- `FileInfo::MergeInfo` (FileSet.cc) as one update of every field.
use lftp.Prelude.{◌≡◌, refl, ap, ◌∙◌, Bool, true, false, not, ◌&&◌, ◌||◌, none, if◌then◌else◌}
use lftp.FileSet.{
  FileInfo, keeps_symlink, merge_mode, merge_date, merge_size, merge_type, merge_symlink,
  merge_user, merge_group, merge_nlinks, merge_info,
}
use lftp.FileSet.Setters.{
  closer, date_fields, group_fields, known, known_by, mode_fields, nlinks_fields, pick, put_date,
  put_group, put_mode, put_size, put_symlink, put_type, put_user, size_fields, symlink_fields,
  type_fields, user_fields,
}

picked_twice : {A : Type 0} (m : Bool) (a a' b : A) → pick m (if m then a' else a) b ≡ pick m a b
picked_twice true a a' b = refl
picked_twice false a a' b = refl

put_all :
    (m d z y u g n : Bool) (f t : FileInfo)
    → merge_nlinks n f (
        merge_group g f (
          merge_user u f (
            merge_symlink m f
              (merge_type y f (merge_size z f (merge_date d f (merge_mode m f (t))))))))
      ≡ known_by m (d || closer f t) z y u g n t f
put_all m d z y u g n f t =
    ap
      (λ x. merge_nlinks n f (
        merge_group g f (
          merge_user u f
            (merge_symlink m f (merge_type y f (merge_size z f (merge_date d f (x))))))))
      (mode_fields m f (t))
    ∙ ap
        (λ x. merge_nlinks n f (
          merge_group g f
            (merge_user u f (merge_symlink m f (merge_type y f (merge_size z f (x)))))))
        (date_fields d f (put_mode m f (t)))
    ∙ ap
        (λ x.
          merge_nlinks n f
            (merge_group g f (merge_user u f (merge_symlink m f (merge_type y f (x))))))
        (size_fields z f (put_date (d || closer f t) f (put_mode m f (t))))
    ∙ ap (λ x. merge_nlinks n f (merge_group g f (merge_user u f (merge_symlink m f (x)))))
        (type_fields y f (put_size z f (put_date (d || closer f t) f (put_mode m f (t)))))
    ∙ ap (λ x. merge_nlinks n f (merge_group g f (merge_user u f (x))))
        (symlink_fields m f
          (put_type y f (put_size z f (put_date (d || closer f t) f (put_mode m f (t))))))
    ∙ ap (λ x. merge_nlinks n f (merge_group g f (x)))
        (user_fields u f (
          put_symlink m f
            (put_type y f (put_size z f (put_date (d || closer f t) f (put_mode m f (t)))))))
    ∙ ap (λ x. merge_nlinks n f (x))
        (group_fields g f (
          put_user u f (
            put_symlink m f
              (put_type y f (put_size z f (put_date (d || closer f t) f (put_mode m f (t))))))))
    ∙ nlinks_fields n f (
        put_group g f (
          put_user u f (
            put_symlink m f
              (put_type y f (put_size z f (put_date (d || closer f t) f (put_mode m f (t))))))))
    ∙ ap (λ o. record (known_by m (d || closer f t) z y u g n t f) { symlink = o })
        (picked_twice m t.symlink (if keeps_symlink f.mode then t.symlink else none) f.symlink)

pub merge_info-known : (f t : FileInfo) → merge_info f t ≡ known t f
merge_info-known f t =
    let d = t.defined in
    let e = f.defined in
    put_all (not d.mode && e.mode) (not d.date && e.date) (not d.size && e.size)
      (not d.filetype && e.filetype) (not d.user && e.user) (not d.group && e.group)
      (not d.nlinks && e.nlinks) f t
