-- ===== src/S3ObjList/Tests.antt =====
-- The theorems on object lists at concrete lists.
use s3fs_fuse.S3ObjList.Normal.{Normal}
use s3fs_fuse.S3ObjList.Insert.{IsStored, insert_lem}
use s3fs_fuse.S3ObjList.Twins.{HasNoTwins, insert-HasNoTwins, no_objects}
use s3fs_fuse.S3ObjList.{
  S3objEntry, S3obj, insert, normalize, insert_as, insert_normalized, add_object, before_first,
}
use s3fs_fuse.Base.{ℕ, ◌≡◌, refl, Bool, true, false, none, List, [], ◌∷◌, find, put, erase}

-- "a" is a file and "b/" a directory.
abbrev entry : List ℕ → Bool → S3objEntry
entry name is_dir = record { normalname = []; orgname = name; etag = []; is_dir = is_dir }

abbrev two_objects : S3obj
two_objects = (97 ∷ [], entry (97 ∷ []) false) ∷ (98 ∷ 47 ∷ [], entry (98 ∷ 47 ∷ []) true) ∷ []

-- A directory "a" takes the place of the file "a".
insert_directory :
    (insert (97 ∷ []) none true two_objects).1
    ≡ (97 ∷ [], record { normalname = 97 ∷ 47 ∷ []; orgname = []; etag = []; is_dir = true })
      ∷ (97 ∷ 47 ∷ [], entry (97 ∷ []) true)
      ∷ (98 ∷ 47 ∷ [], entry (98 ∷ 47 ∷ []) true)
      ∷ []
unfolding insert insert_as insert_normalized add_object normalize before_first put erase find
insert_directory = refl

insert_lem_example :
    (z : List ℕ × Bool) × Normal (97 ∷ []) true z
    × IsStored (97 ∷ []) z two_objects (insert (97 ∷ []) none true two_objects)
insert_lem_example = insert_lem 97 [] none true two_objects

abbrev one_file : S3obj
one_file = (insert (97 ∷ []) none false []).1

one_file-HasNoTwins : HasNoTwins one_file
one_file-HasNoTwins = insert-HasNoTwins (97 ∷ []) none false [] no_objects

insert-HasNoTwins_example : HasNoTwins (insert (97 ∷ []) none true one_file).1
insert-HasNoTwins_example = insert-HasNoTwins (97 ∷ []) none true one_file one_file-HasNoTwins
